-- ===== src/Grpc/Panics.antt =====
-- When the conversion of a job into a message panics.
use rust_job_runner.Common.{
  String, ◌≡◌, ◌≢◌, ◌⊎◌, refl, sym, ap, ◌∙◌, Bool, true, Option, none, some, Result, ok, inl, inr,
  Option-cases, is_some, lookup,
}
use mathlib.Core.Option
use rust_job_runner.Types.{
  OsString, Ctx, Job, JobId, JobState, running, exited, ExitStatus, DateTime,
}
use rust_job_runner.Spawn.{returned, panicked}
use rust_job_runner.Tracker.{Tracker}
use rust_job_runner.Tracker.Requests.{Waited, arrived}
use rust_job_runner.Tracker.Requests
use rust_job_runner.Frames.{IoError}
use rust_job_runner.Coord.{Error, Memory, kill_result}
use rust_job_runner.Coord.Access.{owner_served}
use rust_job_runner.Pb.{Timestamp, PsRequest, KillRequest}
use rust_job_runner.Pb
use rust_job_runner.Grpc.Requests.{Request}
use rust_job_runner.Grpc.Convert.{to_state, with_state, to_killed, to_job}
use rust_job_runner.Grpc.Service.{Env, memory_coordinator, reply}
use rust_job_runner.Grpc.Service
use rust_job_runner.Grpc.Guard.{valid-ps, valid-kill}

abbrev pub state_of : Pb.State → JobState
state_of (Pb.State.running r) = running (record { pid = r.pid })
state_of (Pb.State.exited x) = exited (record { code = some x.exit_code })
state_of (Pb.State.crashed c) = exited (record { code = none })

to_state-cases :
    (state : JobState)
    → ((status : ExitStatus) × (state ≡ exited status)
        × (status.code ≡ none)
        × (to_state state ≡ panicked))
      ⊎ ((s : Pb.State) × (to_state state ≡ returned s) × (state_of s ≡ state))
unfolding to_state
to_state-cases (running pid) = inr (Pb.State.running (record { pid = pid.pid }), refl, refl)
to_state-cases (exited status) = elim (Option-cases status.code) [
  | inl missing ↦ inl (status, refl, missing, rw missing refl)
  | inr (code, there) ↦ inr (
    Pb.State.exited (record { exit_code = code }),
    rw there refl,
    λ i. exited (record { code = sym there i }),
  )
]

-- The message shows the job.
abbrev pub IsShownAs : Job → Pb.Job → Type 0
IsShownAs job m =
    (m.id ≡ job.id.value)
    × (m.owner ≡ some (record { id = job.user.id }))
    × (is_some m.ended_at ≡ is_some job.ended_at)
    × (is_some m.killed ≡ is_some job.killed)
    × ((s : Pb.State) × (m.state ≡ some s) × (state_of s ≡ job.state))

-- The job has exited without an exit code: on Unix, by a signal.
abbrev pub HasNoCode : Job → Type 0
HasNoCode job = (status : ExitStatus) × (job.state ≡ exited status) × (status.code ≡ none)

is_some-map : {A B : Type 0} (f : A → B) (o : Option A) → is_some (Option.map f o) ≡ is_some o
is_some-map f none = refl
is_some-map f (some a) = refl

kill_result-taken :
    (id : JobId) (accepted : Bool) (answer : Waited (Result Job IoError)) (j : Job)
    → accepted ≡ true
    → answer ≡ arrived (ok j)
    → kill_result id (Requests.kill accepted answer) ≡ ok j
unfolding kill_result Requests.kill
kill_result-taken id accepted answer j e e' = rw (e, e') refl

module _ (timestamp : DateTime → Timestamp) where
  -- The conversion of a job panics exactly when the job has exited without an exit code; any other
  -- job becomes a message that shows its id, owner and state, and whether it has ended and was killed.
  pub to_job-cases :
      (job : Job)
      → (HasNoCode job × (to_job timestamp job ≡ panicked))
        ⊎ ((m : Pb.Job) × (to_job timestamp job ≡ returned m) × IsShownAs job m)
  unfolding to_job
  to_job-cases job = elim (to_state-cases job.state) [
    | inl (status, is, missing, e) ↦ inl ((status, is, missing), rw e refl)
    | inr (s, e, same) ↦ inr (
      with_state timestamp job s,
      rw e refl,
      (
        refl,
        refl,
        is_some-map timestamp job.ended_at,
        is_some-map (to_killed timestamp) job.killed,
        (s, refl, same),
      ),
    )
  ]

  no_code-panics : (job : Job) → HasNoCode job → to_job timestamp job ≡ panicked
  unfolding to_job
  no_code-panics job (status, is, missing) = rw (is, missing) refl

  reply-panics :
      {R : Type 0} (response : Pb.Job → R) (r : Result Job Error) (job : Job)
      → r ≡ ok job
      → HasNoCode job
      → reply timestamp response (returned r) ≡ panicked
  unfolding reply
  reply-panics response r job e n = rw (e, no_code-panics job n) refl

  -- Over the coordinator in memory, `ps` of a job that has exited without an exit code panics in the
  -- handler when its owner asks, and so does the owner's `kill` that the tracker takes and answers with
  -- such a job: the caller gets neither the job nor a status of the program's.
  no_code_unshown :
      {Rx : Type 0} (env : Env Rx) (os : String → OsString) (m : Memory) (ctx : Ctx) (t : Tracker)
      (j : Job) (p : Request PsRequest) (k : Request KillRequest)
      → (p.ctx ≡ some ctx) × (p.message.job_id ≢ "")
      → (k.ctx ≡ some ctx) × (k.message.job_id ≢ "")
      → lookup p.message.job_id m.jobs ≡ some t
      → lookup k.message.job_id m.jobs ≡ some t
      → t.job.user.id ≡ ctx.user.id
      → HasNoCode t.job
      → (env.accepted ≡ true) × (env.answer ≡ arrived (ok j))
      → HasNoCode j
      → (Service.ps (memory_coordinator env) os timestamp m p ≡ (m, panicked))
        × (Service.kill (memory_coordinator env) os timestamp m k ≡ (m, panicked))
  no_code_unshown env os m ctx t j p k v w e e' o n (taken, answer) n' =
      let served = owner_served m ctx in
      let shown =
        (served (record { value = p.message.job_id }) t env.accepted env.rx env.answer e o).0 in
      let killed =
        (served (record { value = k.message.job_id }) t env.accepted env.rx env.answer e' o).2 in
      (
        valid-ps (memory_coordinator env) os timestamp m ctx p v
            ∙ ap (λ r. (m, r)) (reply-panics _ _ t.job shown n),
        valid-kill (memory_coordinator env) os timestamp m ctx k w
            ∙ ap (λ r. (m, r))
                (reply-panics _ _ j (killed ∙ kill_result-taken _ _ _ j taken answer) n'),
      )
