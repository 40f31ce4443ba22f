-- ===== src/Tracker/Answers.antt =====
-- What an answer to a kill request says of the job.
use rust_job_runner.Common.{
  ℕ, ◌≡◌, refl, Bool, true, false, Option, none, some, Result, ok, err, List, [], ◌∷◌, map, arith,
  is_some, All, All-append, Bool-cases, Option-cases, inl, inr,
}
use rust_job_runner.Types.{Job, ProcessExit, DateTime}
use rust_job_runner.Types.Life.{is_exited}
use rust_job_runner.Frames.{Frame, TrackerError, IoError}
use rust_job_runner.Tracker.{
  KillRequest, Phase, looping, broken, Tracker, Select, stdout_rx, stderr_rx, kill_rx, child_wait,
  Event, select, epilogue, track, ended_job, on_output, on_kill, on_exit, enabled, body, loop_head,
  finish, turn, step, run,
}
use rust_job_runner.Tracker.Invariant.{IsTracking, step-IsTracking, track-IsTracking}

-- An `Ok` shows the requester's job, exited, with its end time and who killed it.
abbrev pub IsAnswer : Job → ℕ × Result Job IoError → Type 0
IsAnswer job (i, err e) = Unit {0}
IsAnswer job (i, ok j) =
    (j.id ≡ job.id)
    × (is_exited j.state ≡ true)
    × (is_some j.ended_at ≡ true)
    × (is_some j.killed ≡ true)

ended-answers :
    (job j : Job) (reqs : List KillRequest)
    → j.id ≡ job.id
    → is_exited j.state ≡ true
    → is_some j.ended_at ≡ true
    → (j.killed ≡ none → reqs ≡ [])
    → All (IsAnswer job) (map (λ req. (req.tx, ok j)) reqs)
ended-answers job j [] i x e k = tt
ended-answers job j (req ∷ reqs) i x e k = elim (Option-cases j.killed) [
  | inl unkilled ↦ cc (k unkilled)
  | inr (who, killed) ↦ ((i, x, e, rw killed), ended-answers job j reqs i x e (λ unkilled. cc))
]

module _ (job : Job) where
  on_exit-IsAnswer :
      (s : Tracker) (status : Result ProcessExit IoError) (now : DateTime)
      → IsTracking job s
      → All (IsAnswer job) s.replies
      → All (IsAnswer job) (on_exit status now s).replies
  unfolding on_exit
  on_exit-IsAnswer s (err e) now v h = h
  on_exit-IsAnswer s (ok status) now v h = All-append _ s.replies _ h (
      ended-answers job (ended_job s.job status now) s.kill_reqs v.same_id refl refl v.killed_first)

  on_kill-IsAnswer :
      (s : Tracker) (req : Option KillRequest) (killed : Result (Unit {0}) IoError) (now : DateTime)
      → All (IsAnswer job) s.replies
      → All (IsAnswer job) (on_kill req killed now s).replies
  unfolding on_kill
  on_kill-IsAnswer s none killed now h = h
  on_kill-IsAnswer s (some req) (ok u) now h = h
  on_kill-IsAnswer s (some req) (err e) now h = All-append _ s.replies _ h (tt, tt)

  on_output-replies :
      (s : Tracker) (o : Option (Result Frame TrackerError)) (accepted : Bool)
      → ((on_output (record s { stdout_ok = false }) o accepted s).replies ≡ s.replies)
        × ((on_output (record s { stderr_ok = false }) o accepted s).replies ≡ s.replies)
  unfolding on_output
  on_output-replies s o accepted = ground arith

  body-IsAnswer :
      (s : Tracker) (e : Select)
      → IsTracking job s
      → All (IsAnswer job) s.replies
      → All (IsAnswer job) (body e s).replies
  unfolding body
  body-IsAnswer s (stdout_rx o accepted) v h = rw ((on_output-replies s o accepted).0) h
  body-IsAnswer s (stderr_rx o accepted) v h = rw ((on_output-replies s o accepted).1) h
  body-IsAnswer s (kill_rx req killed now) v h = on_kill-IsAnswer s req killed now h
  body-IsAnswer s (child_wait status now) v h = on_exit-IsAnswer s status now v h

  loop_head-replies : (s : Tracker) → (loop_head s).replies ≡ s.replies
  unfolding loop_head
  loop_head-replies s = ground arith

  turn-IsAnswer :
      (p : Phase) (e : Event) (s : Tracker)
      → IsTracking job s
      → All (IsAnswer job) s.replies
      → All (IsAnswer job) (turn p e s).replies
  unfolding turn finish
  turn-IsAnswer looping (select e) s v h = elim (Bool-cases (enabled e s)) [
    | inl on ↦ simp on (rw (loop_head-replies (body e s)) (body-IsAnswer s e v h))
    | inr off ↦ simp off h
  ]
  turn-IsAnswer broken (epilogue accepted) s v h = h
  turn-IsAnswer _ _ s v h = h

  run-from-IsAnswer :
      (s : Tracker) (es : List Event)
      → IsTracking job s
      → All (IsAnswer job) s.replies
      → All (IsAnswer job) (run s es).replies
  unfolding run step
  run-from-IsAnswer s [] v h = h
  run-from-IsAnswer s (e ∷ es) v h =
      run-from-IsAnswer (step s e) es (step-IsTracking job s e v) (turn-IsAnswer s.phase e s v h)

-- Every `Ok` that is sent to a kill request shows the job of the tracker, exited, with an end time
-- and with the record of a kill.
pub run-IsAnswer : (job : Job) (es : List Event) → All (IsAnswer job) (run (track job) es).replies
unfolding track
run-IsAnswer job es = run-from-IsAnswer job (track job) es (track-IsTracking job) tt
