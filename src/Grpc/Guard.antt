-- ===== src/Grpc/Guard.antt =====
-- What a request must bring before the coordinator is asked.
use rust_job_runner.Common.{String, ◌≡◌, ◌≢◌, refl, none, some, Result, err, arith, eq_iff}
use rust_job_runner.Types.{OsString, Ctx, DateTime}
use rust_job_runner.Spawn.{Outcome, returned}
use rust_job_runner.Pb.{Timestamp, SpawnRequest, LogsRequest, PsRequest, KillRequest}
use rust_job_runner.Grpc.Status.{Status, status, unauthenticated, invalid_argument}
use rust_job_runner.Grpc.Requests.{
  Request, get_ctx, validate_spawn, validate_logs, validate_ps, validate_kill,
}
use rust_job_runner.Grpc.Service.{Coordinator, front, guarded, spec_of, reply, log_reply}
use rust_job_runner.Grpc.Service

module _ {S Rx : Type 0} (C : Coordinator S Rx) (os : String → OsString)
    (timestamp : DateTime → Timestamp) where
  abbrev pub IsRefused : {R : Type 0} → S → S × Outcome (Result R Status) → Status → Type 0
  IsRefused s out e = out ≡ (s, returned (err e))

  -- A request without a context is refused as unauthenticated, whatever it asks for; the coordinator
  -- is not called and its state stays.
  pub no_ctx-IsRefused :
      (s : S) (q : Request SpawnRequest) (l : Request LogsRequest) (p : Request PsRequest)
      (k : Request KillRequest)
      → q.ctx ≡ none
      → l.ctx ≡ none
      → p.ctx ≡ none
      → k.ctx ≡ none
      → let e = status unauthenticated "no ctx found" in
        IsRefused s (Service.spawn C os timestamp s q) e
        × IsRefused s (Service.logs C os timestamp s l) e
        × IsRefused s (Service.ps C os timestamp s p) e
        × IsRefused s (Service.kill C os timestamp s k) e
  unfolding Service.spawn Service.logs Service.ps Service.kill get_ctx
  no_ctx-IsRefused s q l p k a b c d = (rw a, rw b, rw c, rw d)

  -- A request with a context but no program name, or no job id, is refused as an invalid argument,
  -- with the coordinator not called.
  pub invalid-IsRefused :
      (s : S) (ctx : Ctx) (q : Request SpawnRequest) (l : Request LogsRequest)
      (p : Request PsRequest) (k : Request KillRequest)
      → (q.ctx ≡ some ctx) × (q.message.name ≡ "")
      → (l.ctx ≡ some ctx) × (l.message.job_id ≡ "")
      → (p.ctx ≡ some ctx) × (p.message.job_id ≡ "")
      → (k.ctx ≡ some ctx) × (k.message.job_id ≡ "")
      → let e = status invalid_argument "job id required" in
        IsRefused s (Service.spawn C os timestamp s q) (status invalid_argument "name required")
        × IsRefused s (Service.logs C os timestamp s l) e
        × IsRefused s (Service.ps C os timestamp s p) e
        × IsRefused s (Service.kill C os timestamp s k) e
  unfolding Service.spawn Service.logs Service.ps Service.kill get_ctx validate_spawn validate_logs
      validate_ps validate_kill
  invalid-IsRefused s ctx q l p k (a, x) (b, y) (c, z) (d, w) =
      (rw (a, x) refl, rw (b, y) refl, rw (c, z) refl, rw (d, w) refl)

  -- A valid request from a known caller is answered with what the coordinator says to that caller.
  pub valid-spawn :
      (s : S) (ctx : Ctx) (q : Request SpawnRequest)
      → (q.ctx ≡ some ctx) × (q.message.name ≢ "")
      → let out = C.spawn s ctx (spec_of C os timestamp q.message) in
        Service.spawn C os timestamp s q
        ≡ (out.0, reply timestamp (λ j. record { job = some j }) out.1)
  unfolding Service.spawn get_ctx validate_spawn
  valid-spawn s ctx q (a, x) = ground (arith, eq_iff q.message.name "")

  pub valid-logs :
      (s : S) (ctx : Ctx) (l : Request LogsRequest)
      → (l.ctx ≡ some ctx) × (l.message.job_id ≢ "")
      → let out = C.logs s ctx (record { value = l.message.job_id }) in
        Service.logs C os timestamp s l ≡ (out.0, log_reply out.1)
  unfolding Service.logs get_ctx validate_logs
  valid-logs s ctx l (a, x) = ground (arith, eq_iff l.message.job_id "")

  pub valid-ps :
      (s : S) (ctx : Ctx) (p : Request PsRequest)
      → (p.ctx ≡ some ctx) × (p.message.job_id ≢ "")
      → let out = C.ps s ctx (record { value = p.message.job_id }) in
        Service.ps C os timestamp s p
        ≡ (out.0, reply timestamp (λ j. record { job = some j }) out.1)
  unfolding Service.ps get_ctx validate_ps
  valid-ps s ctx p (a, x) = ground (arith, eq_iff p.message.job_id "")

  pub valid-kill :
      (s : S) (ctx : Ctx) (k : Request KillRequest)
      → (k.ctx ≡ some ctx) × (k.message.job_id ≢ "")
      → let out = C.kill s ctx (record { value = k.message.job_id }) in
        Service.kill C os timestamp s k
        ≡ (out.0, reply timestamp (λ j. record { job = some j }) out.1)
  unfolding Service.kill get_ctx validate_kill
  valid-kill s ctx k (a, x) = ground (arith, eq_iff k.message.job_id "")
