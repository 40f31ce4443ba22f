-- ===== src/Grpc/Service.antt =====
-- src/grpc.rs: `GrpcStoreImpl`, over any coordinator.
use rust_job_runner.Common.{String, Bool, some, Result, ok, err, ◌>>=◌, ◌>>◌, map}
use rust_job_runner.Types.{OsString, Ctx, JobSpec, Job, JobId, DateTime}
use rust_job_runner.Types.Spec
use rust_job_runner.Frames.{IoError}
use rust_job_runner.Spawn.{Outcome, returned, panicked, TokioChild}
use rust_job_runner.Spawn
use rust_job_runner.Tracker.Requests.{Waited}
use rust_job_runner.Coord.{Error, Memory}
use rust_job_runner.Coord
use rust_job_runner.Pb.{
  Timestamp, SpawnRequest, SpawnResponse, LogsRequest, PsRequest, PsResponse, KillRequest,
  KillResponse,
}
use rust_job_runner.Pb
use rust_job_runner.Grpc.Status.{Status, from_error}
use rust_job_runner.Grpc.Requests.{
  Request, get_ctx, validate_spawn, validate_logs, validate_ps, validate_kill,
}
use rust_job_runner.Grpc.Convert.{map_outcome, to_job}

-- The trait `Coordinator`, over a state that a call may change. A call may also panic.
pub record Coordinator (S Rx : Type 0) : Type 0 where
  pub spawn : S → Ctx → JobSpec → S × Outcome (Result Job Error)
  pub logs : S → Ctx → JobId → S × Outcome (Result Rx Error)
  pub ps : S → Ctx → JobId → S × Outcome (Result Job Error)
  pub kill : S → Ctx → JobId → S × Outcome (Result Job Error)

-- What `MemoryCoordinator` meets during one call: see Coord.
pub record Env (Rx : Type 0) : Type 0 where
  pub new_id : JobId
  pub launch : Spawn.Command → Result Spawn.Process IoError
  pub now : DateTime
  pub accepted : Bool
  pub rx : Waited Rx
  pub answer : Waited (Result Job IoError)

-- `impl Coordinator for MemoryCoordinator`
abbrev pub memory_coordinator : {Rx : Type 0} → Env Rx → Coordinator Memory Rx
memory_coordinator e = record {
  spawn =
      λ m ctx spec. Coord.spawn m ctx e.new_id (Spawn.spawn e.launch (Spawn.opts_new spec)) e.now;
  logs = λ m ctx id. (m, returned (Coord.logs m ctx id e.accepted e.rx));
  ps = λ m ctx id. (m, returned (Coord.ps m ctx id));
  kill = λ m ctx id. (m, returned (Coord.kill m ctx id e.accepted e.answer));
}

-- The context and the message, if the request is authenticated and valid.
unfoldable pub front :
    {A : Type 0} → (A → Result (Unit {0}) Status) → Request A → Result (Ctx × A) Status
front validate req = do ctx ← get_ctx req; validate req.message; ok (ctx, req.message)

-- Nothing is asked of the coordinator for a request that fails in front of it.
unfoldable pub guarded :
    {S A R : Type 0}
    → S
    → Result (Ctx × A) Status
    → (Ctx → A → S × Outcome (Result R Status))
    → S × Outcome (Result R Status)
guarded s (err e) call = (s, returned (err e))
guarded s (ok (ctx, a)) call = call ctx a

-- `.map(…).map(Response::new).map_err(…)` on what the coordinator gives.
unfoldable pub reply :
    {R : Type 0}
    → (DateTime → Timestamp)
    → (Pb.Job → R)
    → Outcome (Result Job Error)
    → Outcome (Result R Status)
reply timestamp response panicked = panicked
reply timestamp response (returned (err e)) = returned (err (from_error e))
reply timestamp response (returned (ok job)) =
    map_outcome (λ j. ok (response j)) (to_job timestamp job)

-- The reply stream of `logs` is what Stream makes of the receiver.
unfoldable pub log_reply : {Rx : Type 0} → Outcome (Result Rx Error) → Outcome (Result Rx Status)
log_reply panicked = panicked
log_reply (returned (err e)) = returned (err (from_error e))
log_reply (returned (ok rx)) = returned (ok rx)

-- `os` turns a `String` into an `OsString`.
module _ {S Rx : Type 0} (C : Coordinator S Rx) (os : String → OsString)
    (timestamp : DateTime → Timestamp) where
  abbrev with_reply :
      {R : Type 0} → (Pb.Job → R) → S × Outcome (Result Job Error) → S × Outcome (Result R Status)
  with_reply response (s, out) = (s, reply timestamp response out)

  abbrev pub spec_of : SpawnRequest → JobSpec
  spec_of r = Spec.args (Spec.new (os r.name)) (map os r.args)

  unfoldable pub spawn : S → Request SpawnRequest → S × Outcome (Result SpawnResponse Status)
  unfolding front guarded
  spawn s req =
      guarded s (front validate_spawn req)
        λ ctx r. with_reply (λ j. record { job = some j }) (C.spawn s ctx (spec_of r))

  abbrev with_log_reply : S × Outcome (Result Rx Error) → S × Outcome (Result Rx Status)
  with_log_reply (s, out) = (s, log_reply out)

  unfoldable pub logs : S → Request LogsRequest → S × Outcome (Result Rx Status)
  unfolding front guarded
  logs s req =
      guarded s (front validate_logs req)
        λ ctx r. with_log_reply (C.logs s ctx (record { value = r.job_id }))

  unfoldable pub ps : S → Request PsRequest → S × Outcome (Result PsResponse Status)
  unfolding front guarded
  ps s req =
      guarded s (front validate_ps req) λ ctx r.
        with_reply (λ j. record { job = some j }) (C.ps s ctx (record { value = r.job_id }))

  unfoldable pub kill : S → Request KillRequest → S × Outcome (Result KillResponse Status)
  unfolding front guarded
  kill s req = guarded s (front validate_kill req) λ ctx r.
      with_reply (λ j. record { job = some j }) (C.kill s ctx (record { value = r.job_id }))
