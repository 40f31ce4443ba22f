-- ===== src/Spawn/Win/TaskTests.antt =====
-- A spawn on Windows, and runs of the futures that wait for a child and kill it.
use rust_job_runner.Common.{
  ℕ, ◌==◌, ◌≡◌, refl, true, none, some, Result, ok, err, List, [], ◌∷◌, ◌++◌, String,
}
use rust_job_runner.Common.Int.{negsuc}
use rust_job_runner.Types.{JobSpec, exited_with}
use rust_job_runner.Frames.{IoError}
use rust_job_runner.Spawn.Win.Handle.{PipeKind, stdout, stderr}
use rust_job_runner.Spawn.Win.Process.{Win32}
use rust_job_runner.Spawn.Win.Killing.{Step, polls, thread_runs, other_wake, new, step, run}
use rust_job_runner.Spawn.Win.KillAnswers.{run-answers, run-hangs}
use rust_job_runner.Spawn.Win.Waiting
use rust_job_runner.Spawn.Win.Waiting.{run-exits, run-threads}

abbrev echo : JobSpec
echo = record { exe = 101 ∷ []; args = [] }

abbrev pipe_ends : PipeKind → Result (ℕ × ℕ) String
pipe_ends stdout = ok (4, 5)
pipe_ends stderr = ok (6, 7)

-- Pipes can be made, but no process.
abbrev no_process : Win32
no_process = record {
  is_invalid = λ h. h == 0;
  default_handle = 0;
  create_pipe = pipe_ends;
  set_inherit = λ h. ok tt;
  create_process = λ line out errs. err "file not found";
}

abbrev kill_called : List Step
kill_called = polls ∷ thread_runs (err "denied") ∷ thread_runs (ok tt) ∷ polls ∷ []

kill_denied : (run new kill_called).terminated ≡ some (err "denied")
unfolding run step new
kill_denied = refl

run-answers_example :
    (run new (kill_called ++ thread_runs (ok tt) ∷ other_wake ∷ polls ∷ [])).done
    ≡ some (err "denied")
run-answers_example = run-answers kill_called (err "denied") (ok tt) kill_denied

-- A poll between the return of `TerminateProcess` and the send finds nothing.
kill_early : (run new (polls ∷ thread_runs (ok tt) ∷ other_wake ∷ polls ∷ [])).done ≡ none
unfolding run step new
kill_early = refl

run-hangs_example : (run new kill_called).done ≡ none
run-hangs_example = run-hangs kill_called tt

abbrev exit_code_of : ℕ → Result ℕ IoError
exit_code_of code = ok code

-- Two polls in vain, as of a select loop that is woken by output, and the end of the process.
abbrev two_waits : List Waiting.Step
two_waits = Waiting.polls ∷ Waiting.other_wake ∷ Waiting.polls ∷ []

abbrev killed_later : List Waiting.Step
killed_later = two_waits ++ Waiting.exits 4294967295 ∷ []

two_waits_threads : (Waiting.run exit_code_of Waiting.new two_waits).threads ≡ 2
unfolding Waiting.run Waiting.step Waiting.new
two_waits_threads = refl

run-threads_example :
    (Waiting.run exit_code_of Waiting.new two_waits).threads
    ≡ Waiting.polled exit_code_of true two_waits
run-threads_example = run-threads exit_code_of two_waits tt

killed_later_code : (Waiting.run exit_code_of Waiting.new killed_later).exit_code ≡ some 4294967295
unfolding Waiting.run Waiting.step Waiting.new
killed_later_code = refl

minus_one : Waiting.from_raw 4294967295 ≡ exited_with (negsuc 0)
unfolding Waiting.from_raw
minus_one = refl

run-exits_example :
    (Waiting.run exit_code_of Waiting.new
      (killed_later ++ Waiting.thread_wakes ∷ Waiting.polls ∷ [])).done
    ≡ some (ok (Waiting.from_raw 4294967295))
run-exits_example = run-exits exit_code_of killed_later 4294967295 killed_later_code
