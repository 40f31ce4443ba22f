-- ===== src/Tracker/Lifecycle.antt =====
-- The life of a job, as a step relation on its snapshot, and the tracker as one of its runs.
use rust_job_runner.Common.{
  ◌≡◌, ◌⊎◌, refl, ap, ◌∙◌, Bool, true, false, Option, none, some, Result, ok, err, is_some, arith,
  Bool-cases, inl, inr,
}
use rust_job_runner.Types.{User, Job, ProcessExit, DateTime}
use rust_job_runner.Types.Life.{is_running, is_exited}
use rust_job_runner.Frames.{Frame, TrackerError, IoError}
use rust_job_runner.Tracker.{
  KillRequest, Phase, looping, broken, Tracker, Select, stdout_rx, stderr_rx, kill_rx, child_wait,
  Event, select, epilogue, break_err, forward, ended_job, on_output, on_kill, on_exit, enabled,
  body, loop_head, finish, turn, step,
}
use rust_job_runner.Tracker.Invariant.{IsTracking}

-- One step of a job. A kill may come again, with another user and time; an exit comes once, from the
-- running state.
pub data Next (j k : Job) : Type 0 where
  stays : k ≡ j → Next j k
  kills :
      (user : User) (now : DateTime)
      → k ≡ record j { killed = some (record { killed_at = now; user = user }) }
      → Next j k
  exits :
      (status : ProcessExit) (now : DateTime)
      → is_running j.state ≡ true
      → j.ended_at ≡ none
      → k ≡ ended_job j status now
      → Next j k

pub data Later (j : Job) : Job → Type 0 where
  same : Later j j
  further : {k l : Job} → Later j k → Next k l → Later j l

pub Later-trans : {j k l : Job} → Later j k → Later k l → Later j l
Later-trans p same = p
Later-trans p (further q n) = further (Later-trans p q) n

-- What a reader of two snapshots can rely on.
pub record IsLater (j k : Job) : Type 0 where
  pub same_id : k.id ≡ j.id
  pub same_user : k.user ≡ j.user
  pub same_start : k.started_at ≡ j.started_at
  -- an exit is final
  pub final : is_exited j.state ≡ true → (k.state ≡ j.state) × (k.ended_at ≡ j.ended_at)
  -- a kill is not taken back
  pub killed_still : is_some j.killed ≡ true → is_some k.killed ≡ true

Next-IsLater : {i j k : Job} → IsLater i j → Next j k → IsLater i k
Next-IsLater v (stays e) = ground arith
Next-IsLater v (kills user now e) = ground arith
Next-IsLater v (exits status now r n e) = ground arith

pub Later-IsLater : {j k : Job} → Later j k → IsLater j k
Later-IsLater same = record {
  same_id = refl;
  same_user = refl;
  same_start = refl;
  final = λ _. (refl, refl);
  killed_still = λ h. h;
}
Later-IsLater (further p n) = Next-IsLater (Later-IsLater p) n

-- The state stays that of the start until the exit.
abbrev pub KeepsState : Job → Job → Type 0
KeepsState j k = (k.state ≡ j.state) ⊎ (is_exited k.state ≡ true)

Next-KeepsState : (i : Job) {j k : Job} → KeepsState i j → Next j k → KeepsState i k
Next-KeepsState i v (stays e) = ground arith
Next-KeepsState i v (kills user now e) = ground arith
Next-KeepsState i v (exits status now r n e) = inr (ground arith)

pub Later-KeepsState : {j k : Job} → Later j k → KeepsState j k
Later-KeepsState same = inl refl
Later-KeepsState {j} (further p n) = Next-KeepsState j (Later-KeepsState p) n

loop_head-job : (s : Tracker) → (loop_head s).job ≡ s.job
unfolding loop_head
loop_head-job s = ground arith

on_output-job :
    (c s : Tracker) (o : Option (Result Frame TrackerError)) (accepted : Bool)
    → c.job ≡ s.job
    → (on_output c o accepted s).job ≡ s.job
unfolding on_output forward break_err
on_output-job c s none accepted e = e
on_output-job c s (some (ok f)) true e = refl
on_output-job c s (some (ok f)) false e = refl
on_output-job c s (some (err x)) accepted e = refl

on_kill-Next :
    (s : Tracker) (o : Option KillRequest) (killed : Result (Unit {0}) IoError) (now : DateTime)
    → Next s.job (on_kill o killed now s).job
unfolding on_kill
on_kill-Next s none killed now = stays refl
on_kill-Next s (some req) (err e) now = stays refl
on_kill-Next s (some req) (ok u) now = kills req.user now refl

on_exit-Next :
    (s : Tracker) (status : Result ProcessExit IoError) (now : DateTime)
    → is_running s.job.state ≡ true
    → s.job.ended_at ≡ none
    → Next s.job (on_exit status now s).job
unfolding on_exit break_err
on_exit-Next s (ok status) now r n = exits status now r n refl
on_exit-Next s (err e) now r n = stays refl

-- The tracker of a job that was started moves its snapshot along the relation.
module _ (job : Job) (running : is_running job.state ≡ true) (not_ended : job.ended_at ≡ none) where
  body-Next :
      (s : Tracker) (e : Select) → enabled e s ≡ true → IsTracking job s → Next s.job (body e s).job
  unfolding body
  body-Next s (stdout_rx o accepted) on v = stays (on_output-job _ s o accepted refl)
  body-Next s (stderr_rx o accepted) on v = stays (on_output-job _ s o accepted refl)
  body-Next s (kill_rx o killed now) on v = on_kill-Next s o killed now
  body-Next s (child_wait status now) on v =
      let (state, ended) = v.running_yet on in
      on_exit-Next s status now (ap is_running state ∙ running) (ended ∙ not_ended)

  turn-Next : (p : Phase) (s : Tracker) (e : Event) → IsTracking job s → Next s.job (turn p e s).job
  unfolding turn finish
  turn-Next looping s (select e) v = elim (Bool-cases (enabled e s)) [
    | inl on ↦ rw (on, loop_head-job (body e s)) (body-Next s e on v)
    | inr off ↦ rw off (stays refl)
  ]
  turn-Next broken s (epilogue accepted) v = stays refl
  turn-Next _ s _ v = stays refl

  pub step-Next : (s : Tracker) (e : Event) → IsTracking job s → Next s.job (step s e).job
  unfolding step
  step-Next s e v = turn-Next s.phase s e v
