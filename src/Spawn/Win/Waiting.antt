-- ===== src/Spawn/Win/Waiting.antt =====
-- src/proc/spawn/win.rs: `WaitChild`, with the threads that it starts, on a task that waits for the
-- end of the process. An executor polls a task again only when it was woken.
use rust_job_runner.Common.{
  ℕ, suc, ◌+◌, ◌-◌, ◌≡◌, ◌≢◌, refl, ap, ◌∙◌, ◌⊎◌, inl, inr, Bool, true, false, Option, none, some,
  Result, ok, err, List, [], ◌∷◌, ◌++◌, arith, is_some, ltb, ◌==◌, if◌then◌else◌,
}
use rust_job_runner.Common.Int.{pos, negsuc}
use rust_job_runner.Types.{ProcessExit, exited_with}
use rust_job_runner.Frames.{IoError}

-- `ExitStatus::from_raw(code)`, whose `code()` is the `u32` as an `i32`.
unfoldable pub from_raw : ℕ → ProcessExit
from_raw code = exited_with (if ltb code 2147483648 then pos code else negsuc (4294967295 - code))

-- The process with the task that waits for it. `threads` is the number of threads in `wait_wake`, of
-- which each wakes the task once the process has ended or its wait has failed. `done` records what a
-- poll gave.
pub record WaitChild : Type 0 where
  pub exit_code : Option ℕ  -- u32
  pub threads : ℕ
  pub woken : Bool
  pub done : Option (Result ProcessExit IoError)

-- The task polls, where `WaitForSingleObject` tells the state of the process or fails; the process
-- ends; the wait of a thread is over, for that reason or because it has failed, and the thread wakes
-- the task; something else does.
pub data Step : Type 0 where
  polls : Step
  poll_fails : Step
  exits : ℕ → Step
  thread_wakes : Step
  thread_fails : Step
  other_wake : Step

-- `WaitChild::new`, and the first poll to come
unfoldable pub new : WaitChild
new = record { exit_code = none; threads = 0; woken = true; done = none }

-- `GetExitCodeProcess` on the code of an ended process: the code, or an error.
module _ (get_exit_code : ℕ → Result ℕ IoError) where
  abbrev pub status_of : Result ℕ IoError → Result ProcessExit IoError
  status_of (ok code) = ok (from_raw code)
  status_of (err e) = err e

  -- `WaitChild::poll`, with the exit code behind `WAIT_OBJECT_0`. Any other event, `WAIT_FAILED` too,
  -- is taken for a process that still runs.
  unfoldable pub poll : WaitChild → Option ℕ → WaitChild
  poll s (some code) = record s { woken = false; done = some (status_of (get_exit_code code)) }
  poll s none = record s { woken = false; threads = s.threads + 1 }

  abbrev pub is_polled : WaitChild → Bool
  is_polled s = if is_some s.done then false else s.woken

  -- The end of `wait_wake`, in which the event of the wait is not looked at.
  abbrev pub wakes : WaitChild → WaitChild
  wakes s = if s.threads == 0 then s else record s { threads = s.threads - 1; woken = true }

  abbrev pub on_thread : WaitChild → Option ℕ → WaitChild
  on_thread s none = s
  on_thread s (some code) = wakes s

  abbrev pub on_exit : WaitChild → ℕ → Option ℕ → WaitChild
  on_exit s code none = record s { exit_code = some code }
  on_exit s code (some earlier) = s

  unfoldable pub step : WaitChild → Step → WaitChild
  unfolding poll
  step s polls = if is_polled s then poll s s.exit_code else s
  step s poll_fails = if is_polled s then poll s none else s
  step s (exits code) = on_exit s code s.exit_code
  step s thread_wakes = on_thread s s.exit_code
  step s thread_fails = wakes s
  step s other_wake = record s { woken = true }

  unfoldable pub run : WaitChild → List Step → WaitChild
  run s [] = s
  run s (e ∷ es) = run (step s e) es

  run-append : (s : WaitChild) (xs ys : List Step) → run s (xs ++ ys) ≡ run (run s xs) ys
  unfolding run
  run-append s [] ys = refl
  run-append s (x ∷ xs) ys = run-append (step s x) xs ys

  record IsWait (s : WaitChild) : Type 0 where
    -- the next poll comes: the task is woken, or a thread will wake it
    watched : s.done ≡ none → s.woken ≡ false → s.threads ≢ 0
    not_yet : s.exit_code ≡ none → s.done ≡ none
    result_true :
        (code : ℕ)
        → s.exit_code ≡ some code
        → (s.done ≡ none) ⊎ (s.done ≡ some (status_of (get_exit_code code)))

  new-IsWait : IsWait new
  unfolding new
  new-IsWait = ground arith

  step-IsWait : (s : WaitChild) (e : Step) → IsWait s → IsWait (step s e)
  unfolding step poll
  step-IsWait s polls v = ground arith
  step-IsWait s poll_fails v = ground arith
  step-IsWait s (exits code) v = ground arith
  step-IsWait s thread_wakes v = ground arith
  step-IsWait s thread_fails v = ground arith
  step-IsWait s other_wake v = ground arith

  run-from-IsWait : (s : WaitChild) (es : List Step) → IsWait s → IsWait (run s es)
  unfolding run
  run-from-IsWait s [] v = v
  run-from-IsWait s (e ∷ es) v = run-from-IsWait (step s e) es (step-IsWait s e v)

  run-IsWait : (es : List Step) → IsWait (run new es)
  run-IsWait es = run-from-IsWait new es new-IsWait

  two_steps :
      (s : WaitChild) (code : ℕ)
      → s.exit_code ≡ some code
      → IsWait s
      → (step (step s thread_wakes) polls).done ≡ some (status_of (get_exit_code code))
  unfolding step poll
  two_steps s code e v = elim (v.result_true code e) [
    | inl d ↦ ground (arith, v.watched d)
    | inr d ↦ ground arith
  ]

  -- No wake-up is lost: once the process has ended, in whatever run, one more wake by a thread of the
  -- future, if there is any, and one more poll are enough for its exit status, whatever waits have
  -- failed before. The wait of this poll does not fail.
  pub run-exits :
      (es : List Step) (code : ℕ)
      → (run new es).exit_code ≡ some code
      → (run new (es ++ thread_wakes ∷ polls ∷ [])).done ≡ some (status_of (get_exit_code code))
  unfolding run
  run-exits es code e =
      ap (λ s. s.done) (run-append new es (thread_wakes ∷ polls ∷ []))
      ∙ two_steps (run new es) code e (run-IsWait es)

  -- The process runs, and no wait of a thread fails.
  abbrev pub StillRuns : List Step → Type 0
  StillRuns [] = Unit {0}
  StillRuns (exits code ∷ es) = ⊥
  StillRuns (thread_fails ∷ es) = ⊥
  StillRuns (_ ∷ es) = StillRuns es

  -- How often the task is polled behind a wake; the flag says whether it is woken at the start.
  abbrev pub polled : Bool → List Step → ℕ
  polled w [] = 0
  polled true (polls ∷ es) = suc (polled false es)
  polled true (poll_fails ∷ es) = suc (polled false es)
  polled w (other_wake ∷ es) = polled true es
  polled w (_ ∷ es) = polled w es

  -- Behind a poll in vain.
  abbrev slept : ℕ → WaitChild
  slept n = record { exit_code = none; threads = n; woken = false; done = none }

  runs-threads :
      (s : WaitChild) (es : List Step) (w : Bool)
      → s.woken ≡ w
      → s.exit_code ≡ none
      → s.done ≡ none
      → StillRuns es
      → (run s es).threads ≡ s.threads + polled w es
  unfolding run step poll
  runs-threads s [] w on e d v = omega arith
  runs-threads s (polls ∷ es) true on e d v =
      let t = slept (s.threads + 1) in
      simp (on, e, d) (omega (arith, runs-threads t es false refl refl refl v))
  runs-threads s (polls ∷ es) false on e d v = simp (on, e, d) (runs-threads s es false on e d v)
  runs-threads s (poll_fails ∷ es) true on e d v =
      let t = slept (s.threads + 1) in
      simp (on, e, d) (omega (arith, runs-threads t es false refl refl refl v))
  runs-threads s (poll_fails ∷ es) false on e d v =
      simp (on, e, d) (runs-threads s es false on e d v)
  runs-threads s (exits code ∷ es) w on e d v = absurd v
  runs-threads s (thread_wakes ∷ es) true on e d v = simp e (runs-threads s es true on e d v)
  runs-threads s (thread_wakes ∷ es) false on e d v = simp e (runs-threads s es false on e d v)
  runs-threads s (thread_fails ∷ es) w on e d v = absurd v
  runs-threads s (other_wake ∷ es) true on e d v =
      runs-threads (record s { woken = true }) es true refl e d v
  runs-threads s (other_wake ∷ es) false on e d v =
      runs-threads (record s { woken = true }) es true refl e d v

  -- As long as the process runs and no wait of a thread fails, each poll behind a wake leaves one more
  -- thread that waits: the threads are as many as these polls.
  pub run-threads : (es : List Step) → StillRuns es → (run new es).threads ≡ polled true es
  unfolding new
  run-threads es v = omega (arith, runs-threads new es true refl refl refl v)
