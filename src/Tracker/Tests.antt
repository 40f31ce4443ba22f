-- ===== src/Tracker/Tests.antt =====
-- Runs of a tracker.
use rust_job_runner.Common.{
  ◌+◌, ◌≤◌, ◌⊎◌, length, ◌≡◌, refl, true, none, some, ok, err, List, [], ◌∷◌, ◌++◌, count, All,
}
use rust_job_runner.Common.Int.{pos}
use rust_job_runner.Types.{Job, running, exited_with, exited}
use rust_job_runner.Frames.{Frame, stdout, stderr, frame, eof, read_output}
use rust_job_runner.Tracker.{
  step, looping, complete, KillRequest, stdout_rx, stderr_rx, kill_rx, child_wait, Event, select,
  epilogue, track, run,
}
use rust_job_runner.Tracker.Replies.{answered, waiting, asked, run-held}
use rust_job_runner.Tracker.Answers.{IsAnswer, run-IsAnswer}
use rust_job_runner.Tracker.Passed.{IsPossible, IsSchedule, run-sent}
use rust_job_runner.Tracker.Ends.{taken, run-ends}
use rust_job_runner.Tracker.Frozen.{run-fails}

abbrev job : Job
job = record {
  id = record { value = "j1" };
  user = record { id = "CN=ann" };
  killed = none;
  started_at = 5;
  ended_at = none;
  state = running (record { pid = 77 });
}

abbrev line : Frame
line = record { kind = stdout; bs = 104 ∷ 105 ∷ [] }

abbrev bob : KillRequest
bob = record { user = record { id = "CN=bob" }; tx = 0 }

abbrev ann : KillRequest
ann = record { user = record { id = "CN=ann" }; tx = 1 }

-- Two kill requests, of which the first one fails; the child then ends with code 3.
abbrev killed_run : List Event
killed_run =
    select (kill_rx (some bob) (err "no such process") 6)
    ∷ select (stdout_rx (some (ok line)) true)
    ∷ select (kill_rx (some ann) (ok tt) 7)
    ∷ select (child_wait (ok (exited_with (pos 3))) 9)
    ∷ select (stderr_rx none true)
    ∷ select (stdout_rx none true)
    ∷ epilogue true
    ∷ []

killed_run_ends :
    ((run (track job) killed_run).job.ended_at ≡ some 9)
    × ((run (track job) killed_run).job.state ≡ exited (record { code = some (pos 3) }))
    × ((run (track job) killed_run).sent ≡ frame line ∷ eof ∷ [])
    × ((run (track job) killed_run).res ≡ some (ok tt))
unfolding run track step
killed_run_ends = (refl, refl, refl, refl)

run-held_example :
    count 1 (answered (run (track job) killed_run).replies)
      + count 1 (waiting (run (track job) killed_run).kill_reqs)
    ≡ count 1 (asked (track job) killed_run)
run-held_example = run-held 1 job killed_run

run-IsAnswer_example : All (IsAnswer job) (run (track job) killed_run).replies
run-IsAnswer_example = run-IsAnswer job killed_run

killed_run-IsSchedule : IsSchedule (track job) killed_run
unfolding run track step
killed_run-IsSchedule = (refl, (refl, (refl, (refl, (refl, (refl, (tt, tt)))))))

killed_run_no_err : (run (track job) killed_run).loop_err ≡ none
unfolding run track step
killed_run_no_err = refl

run-sent_example : (run (track job) killed_run).sent ≡ frame line ∷ eof ∷ []
run-sent_example = run-sent job killed_run killed_run-IsSchedule killed_run_no_err

run-ends_example :
    let s = run (track job) killed_run in
    (length killed_run ≤ 5 + taken killed_run)
    × ((s.phase ≡ complete) ⊎ ((e : Event) × IsPossible s.phase e s))
run-ends_example = run-ends job killed_run killed_run-IsSchedule

abbrev one_line : List Event
one_line = select (stdout_rx (some (ok line)) true) ∷ []

abbrev read_error : Event
read_error = select (stderr_rx (some (err (read_output stderr "broken"))) true)

abbrev exit_later : List Event
exit_later = epilogue true ∷ select (child_wait (ok (exited_with (pos 0))) 12) ∷ []

one_line_loops : (run (track job) one_line).phase ≡ looping
unfolding run track step
one_line_loops = refl

one_line_child : (run (track job) one_line).child_ok ≡ true
unfolding run track step
one_line_child = refl

one_line_stderr : (run (track job) one_line).stderr_ok ≡ true
unfolding run track step
one_line_stderr = refl

run-fails_example :
    ((run (track job) (one_line ++ read_error ∷ exit_later)).job.state ≡ job.state)
    × ((run (track job) (one_line ++ read_error ∷ exit_later)).job.ended_at ≡ job.ended_at)
run-fails_example =
    run-fails job one_line read_error exit_later one_line_loops one_line_child one_line_stderr
