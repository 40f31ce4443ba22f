-- ===== src/Tracker/Invariant.antt =====
-- What holds of a tracker at every moment of its task.
use rust_job_runner.Common.{
  ◌≡◌, ◌≢◌, refl, Bool, true, false, ◌||◌, Option, none, some, Result, ok, err, List, [], ◌∷◌,
  arith, is_some, Bool-cases, inl, inr,
}
use rust_job_runner.Types.{Job, ProcessExit, DateTime}
use rust_job_runner.Types.Life.{is_exited}
use rust_job_runner.Frames.{Frame, TrackerError, IoError}
use rust_job_runner.Tracker.{
  KillRequest, Phase, looping, broken, complete, Tracker, Select, stdout_rx, stderr_rx, kill_rx,
  child_wait, Event, select, epilogue, track, on_output, on_kill, on_exit, enabled, body, loop_head,
  finish, turn, step, run,
}

-- `job` is the snapshot that the tracker started with.
pub record IsTracking (job : Job) (s : Tracker) : Type 0 where
  -- whose job it is, and when it began, never changes
  pub same_id : s.job.id ≡ job.id
  pub same_user : s.job.user ≡ job.user
  pub same_start : s.job.started_at ≡ job.started_at
  -- the job is running until `child.wait()` returns
  pub running_yet : s.child_ok ≡ true → (s.job.state ≡ job.state) × (s.job.ended_at ≡ job.ended_at)
  -- after that it has ended, unless the loop was left by an error
  pub exited_since :
      s.child_ok ≡ false
      → s.loop_err ≡ none
      → (is_exited s.job.state ≡ true) × (is_some s.job.ended_at ≡ true)
  -- the end time is set with the exit
  pub together :
      is_exited job.state ≡ is_some job.ended_at → is_exited s.job.state ≡ is_some s.job.ended_at
  -- who waits for the end of the job has killed it
  pub killed_first : s.job.killed ≡ none → s.kill_reqs ≡ []
  -- the loop goes on exactly while a branch of the child is on, and no error was met
  pub loops : s.phase ≡ looping → (s.child_ok || (s.stdout_ok || s.stderr_ok)) ≡ true
  pub no_error_yet : s.phase ≡ looping → s.loop_err ≡ none
  pub normal_end :
      s.phase ≢ looping
      → s.loop_err ≡ none
      → (s.child_ok ≡ false) × (s.stdout_ok ≡ false) × (s.stderr_ok ≡ false)
  pub no_result_yet : s.phase ≢ complete → s.res ≡ none
  pub result_set : s.phase ≡ complete → is_some s.res ≡ true

pub track-IsTracking : (job : Job) → IsTracking job (track job)
unfolding track
track-IsTracking job = ground arith

-- A round by an output stream: `closed` is the tracker with that stream's branch switched off.
on_output-IsTracking :
    (job : Job) (s : Tracker) (o : Option (Result Frame TrackerError)) (accepted : Bool)
    → s.phase ≡ looping
    → IsTracking job s
    → IsTracking job (loop_head (on_output (record s { stdout_ok = false }) o accepted s))
      × IsTracking job (loop_head (on_output (record s { stderr_ok = false }) o accepted s))
unfolding on_output loop_head
on_output-IsTracking job s none accepted l v = ground arith
on_output-IsTracking job s (some (ok f)) accepted l v = ground arith
on_output-IsTracking job s (some (err e)) accepted l v = ground arith

on_kill-IsTracking :
    (job : Job) (s : Tracker) (o : Option KillRequest) (killed : Result (Unit {0}) IoError)
    (now : DateTime)
    → s.phase ≡ looping
    → IsTracking job s
    → IsTracking job (loop_head (on_kill o killed now s))
unfolding on_kill loop_head
on_kill-IsTracking job s none killed now l v = ground arith
on_kill-IsTracking job s (some req) (err e) now l v = ground arith
on_kill-IsTracking job s (some req) (ok u) now l v = ground arith

on_exit-IsTracking :
    (job : Job) (s : Tracker) (status : Result ProcessExit IoError) (now : DateTime)
    → s.phase ≡ looping
    → IsTracking job s
    → IsTracking job (loop_head (on_exit status now s))
unfolding on_exit loop_head
on_exit-IsTracking job s (ok status) now l v = ground arith
on_exit-IsTracking job s (err e) now l v = ground arith

body-IsTracking :
    (job : Job) (s : Tracker) (e : Select)
    → s.phase ≡ looping
    → IsTracking job s
    → IsTracking job (loop_head (body e s))
unfolding body
body-IsTracking job s (stdout_rx o accepted) l v = (on_output-IsTracking job s o accepted l v).0
body-IsTracking job s (stderr_rx o accepted) l v = (on_output-IsTracking job s o accepted l v).1
body-IsTracking job s (kill_rx o killed now) l v = on_kill-IsTracking job s o killed now l v
body-IsTracking job s (child_wait status now) l v = on_exit-IsTracking job s status now l v

finish-IsTracking :
    (job : Job) (s : Tracker) (accepted : Bool)
    → s.phase ≡ broken
    → IsTracking job s
    → IsTracking job (finish accepted s)
unfolding finish
finish-IsTracking job s accepted l v = ground arith

turn-IsTracking :
    (job : Job) (p : Phase) (e : Event) (s : Tracker)
    → s.phase ≡ p
    → IsTracking job s
    → IsTracking job (turn p e s)
unfolding turn
turn-IsTracking job looping (select e) s l v = elim (Bool-cases (enabled e s)) [
  | inl on ↦ rw on (body-IsTracking job s e l v)
  | inr off ↦ rw off v
]
turn-IsTracking job broken (epilogue accepted) s l v = finish-IsTracking job s accepted l v
turn-IsTracking job _ _ s l v = v

pub step-IsTracking :
    (job : Job) (s : Tracker) (e : Event) → IsTracking job s → IsTracking job (step s e)
unfolding step
step-IsTracking job s e v = turn-IsTracking job s.phase e s refl v

pub run-from-IsTracking :
    (job : Job) (s : Tracker) (es : List Event) → IsTracking job s → IsTracking job (run s es)
unfolding run
run-from-IsTracking job s [] v = v
run-from-IsTracking job s (e ∷ es) v =
    run-from-IsTracking job (step s e) es (step-IsTracking job s e v)

pub run-IsTracking : (job : Job) (es : List Event) → IsTracking job (run (track job) es)
run-IsTracking job es = run-from-IsTracking job (track job) es (track-IsTracking job)
