-- ===== src/Wire/Stub.antt =====
-- src/pb/jobs.rs: `StoreClient`, over a channel: whether it is ready, and the response that it gives
-- to a body under a path.
use Prim.Native.String.{◌++◌}
use rust_job_runner.Common.{String, Result, ◌>>◌, map_err}
use rust_job_runner.Pb.{
  SpawnRequest, SpawnResponse, LogsRequest, PsRequest, PsResponse, KillRequest, KillResponse,
}
use rust_job_runner.Grpc.Status.{Status, status, unknown}
use rust_job_runner.Wire.{Message, Codec, Response, Tonic}

pub record Channel (B Rx : Type 0) : Type 0 where
  pub ready : Result (Unit {0}) String
  pub exchange : String → B → Response B Rx

module _ {B Rx : Type 0} {C : Codec B} (T : Tonic B Rx C) (channel : Channel B Rx) where
  -- `self.inner.ready()`, with its `map_err`
  unfoldable pub ready : Result (Unit {0}) Status
  ready = map_err (λ e. status unknown ("Service was not ready: " ++ e)) channel.ready

  abbrev unary : {A R : Type 0} → String → Message B A → Message B R → A → Result R Status
  unary path m n a = T.receive n (channel.exchange path (m.encode a))

  unfoldable pub spawn : SpawnRequest → Result SpawnResponse Status
  unfolding ready
  spawn r = ready >> unary "/jobs.Store/Spawn" C.spawn_request C.spawn_response r

  unfoldable pub logs : LogsRequest → Result Rx Status
  unfolding ready
  logs r = ready >> T.receive_stream (channel.exchange "/jobs.Store/Logs" (C.logs_request.encode r))

  unfoldable pub ps : PsRequest → Result PsResponse Status
  unfolding ready
  ps r = ready >> unary "/jobs.Store/Ps" C.ps_request C.ps_response r

  unfoldable pub kill : KillRequest → Result KillResponse Status
  unfolding ready
  kill r = ready >> unary "/jobs.Store/Kill" C.kill_request C.kill_response r
