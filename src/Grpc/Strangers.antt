-- ===== src/Grpc/Strangers.antt =====
-- What a caller over the wire learns of a job that it does not own.
use rust_job_runner.Common.{String, ◌≡◌, ◌≢◌, refl, ap, ◌∙◌, some, Result, err}
use rust_job_runner.Types.{OsString, Ctx, Job, JobId, DateTime}
use rust_job_runner.Spawn.{Outcome, returned}
use rust_job_runner.Coord.{Error, job_not_found, Memory}
use rust_job_runner.Coord.Access.{IsStranger, stranger_blocked}
use rust_job_runner.Pb
use rust_job_runner.Pb.{Timestamp, LogsRequest, PsRequest, KillRequest}
use rust_job_runner.Grpc.Status.{Status, status, not_found, from_error}
use rust_job_runner.Grpc.Requests.{Request}
use rust_job_runner.Grpc.Service.{Env, memory_coordinator, reply, log_reply}
use rust_job_runner.Grpc.Service
use rust_job_runner.Grpc.Guard.{valid-logs, valid-ps, valid-kill}

-- The answer for a job that does not exist.
abbrev pub IsUnknown : {R : Type 0} → Memory → Memory × Outcome (Result R Status) → Type 0
IsUnknown m out = out ≡ (m, returned (err (status not_found "job not found")))

module _ {Rx : Type 0} (env : Env Rx) (os : String → OsString)
    (timestamp : DateTime → Timestamp) where
  reply-job_not_found :
      {R : Type 0} (response : Pb.Job → R) (r : Result Job Error) (id : JobId)
      → r ≡ err (job_not_found id)
      → reply timestamp response (returned r) ≡ returned (err (status not_found "job not found"))
  unfolding reply from_error
  reply-job_not_found response r id e = rw e refl

  -- For a caller who asks for the logs, the state or the kill of a job that it does not own, and for
  -- one who asks for a job that does not exist, the reply is the same status in all three calls:
  -- not found, with the same text. The table of jobs stays. The caller is known, and the ids are not
  -- empty.
  pub stranger_told_nothing :
      (m : Memory) (ctx : Ctx) (l : Request LogsRequest) (p : Request PsRequest)
      (k : Request KillRequest)
      → (l.ctx ≡ some ctx) × (l.message.job_id ≢ "")
      → (p.ctx ≡ some ctx) × (p.message.job_id ≢ "")
      → (k.ctx ≡ some ctx) × (k.message.job_id ≢ "")
      → IsStranger m ctx (record { value = l.message.job_id })
      → IsStranger m ctx (record { value = p.message.job_id })
      → IsStranger m ctx (record { value = k.message.job_id })
      → IsUnknown m (Service.logs (memory_coordinator env) os timestamp m l)
        × IsUnknown m (Service.ps (memory_coordinator env) os timestamp m p)
        × IsUnknown m (Service.kill (memory_coordinator env) os timestamp m k)
  unfolding log_reply from_error
  stranger_told_nothing m ctx l p k v w x a b c =
      let logs =
        stranger_blocked m ctx (record { value = l.message.job_id }) env.accepted env.rx env.answer
          a in
      let seen =
        stranger_blocked m ctx (record { value = p.message.job_id }) env.accepted env.rx env.answer
          b in
      let killed =
        stranger_blocked m ctx (record { value = k.message.job_id }) env.accepted env.rx env.answer
          c in
      let C = memory_coordinator env in
      (
        valid-logs C os timestamp m ctx l v ∙ ap (λ r. (m, log_reply (returned r))) logs.1,
        valid-ps C os timestamp m ctx p w ∙ ap (λ r. (m, r)) (reply-job_not_found _ _ _ seen.0),
        valid-kill C os timestamp m ctx k x ∙ ap (λ r. (m, r)) (reply-job_not_found _ _ _ killed.2),
      )
