-- ===== src/Wire/Server.antt =====
-- src/pb/jobs.rs: `StoreServer`, which finds the method of a request by its path, behind the
-- interceptor that `with_interceptor` puts in front of it.
use rust_job_runner.Common.{ℕ, Option, none, some, Result, str_eq, if◌then◌else◌}
use rust_job_runner.Spawn.{Outcome}
use rust_job_runner.Pb.{
  SpawnRequest, SpawnResponse, LogsRequest, PsRequest, PsResponse, KillRequest, KillResponse,
}
use rust_job_runner.Grpc.Status.{Status, status, unimplemented}
use rust_job_runner.Grpc.Requests.{Request}
use rust_job_runner.Wire.{Codec, Http, Response, failed, Limits, Tonic}

-- The trait `Store`, over a state that a call may change.
pub record Store (S Rx : Type 0) : Type 0 where
  pub spawn : S → Request SpawnRequest → S × Outcome (Result SpawnResponse Status)
  pub logs : S → Request LogsRequest → S × Outcome (Result Rx Status)
  pub ps : S → Request PsRequest → S × Outcome (Result PsResponse Status)
  pub kill : S → Request KillRequest → S × Outcome (Result KillResponse Status)

-- `StoreServer`. `Encodings` is tonic's `EnabledCompressionEncodings`.
pub record StoreServer (Encodings T : Type 0) : Type 0 where
  pub inner : T
  pub accept_compression_encodings : Encodings
  pub send_compression_encodings : Encodings
  pub max_decoding_message_size : Option ℕ
  pub max_encoding_message_size : Option ℕ

module _ {Encodings Encoding T : Type 0} (no_encodings : Encodings)
    (enable : Encodings → Encoding → Encodings) where
  -- `from_arc`, and `new`
  unfoldable pub new : T → StoreServer Encodings T
  new inner = record {
    inner = inner;
    accept_compression_encodings = no_encodings;
    send_compression_encodings = no_encodings;
    max_decoding_message_size = none;
    max_encoding_message_size = none;
  }

  unfoldable pub accept_compressed : StoreServer Encodings T → Encoding → StoreServer Encodings T
  accept_compressed s e = record s {
    accept_compression_encodings = enable s.accept_compression_encodings e;
  }

  unfoldable pub send_compressed : StoreServer Encodings T → Encoding → StoreServer Encodings T
  send_compressed s e = record s {
    send_compression_encodings = enable s.send_compression_encodings e;
  }

  unfoldable pub set_max_decoding : StoreServer Encodings T → ℕ → StoreServer Encodings T
  set_max_decoding s limit = record s { max_decoding_message_size = some limit }

  unfoldable pub set_max_encoding : StoreServer Encodings T → ℕ → StoreServer Encodings T
  set_max_encoding s limit = record s { max_encoding_message_size = some limit }

-- The configuration that a method's `tonic::server::Grpc` gets. Compression is left to tonic.
abbrev pub limits : {Encodings T : Type 0} → StoreServer Encodings T → Limits
limits s = record {
  max_decoding_message_size = s.max_decoding_message_size;
  max_encoding_message_size = s.max_encoding_message_size;
}

module _ {B Rx S Encodings : Type 0} {C : Codec B} (T : Tonic B Rx C)
    (server : StoreServer Encodings (Store S Rx)) where
  -- The arms of the `match` on the path.
  abbrev pub call_spawn : S → Http B → S × Response B Rx
  call_spawn = T.unary (limits server) C.spawn_request C.spawn_response server.inner.spawn

  abbrev pub call_logs : S → Http B → S × Response B Rx
  call_logs = T.server_streaming (limits server) C.logs_request server.inner.logs

  abbrev pub call_ps : S → Http B → S × Response B Rx
  call_ps = T.unary (limits server) C.ps_request C.ps_response server.inner.ps

  abbrev pub call_kill : S → Http B → S × Response B Rx
  call_kill = T.unary (limits server) C.kill_request C.kill_response server.inner.kill

  -- `Service::call`
  unfoldable pub call : S → Http B → S × Response B Rx
  call s req =
      if str_eq req.path "/jobs.Store/Spawn"
      then call_spawn s req
      else if str_eq req.path "/jobs.Store/Logs"
      then call_logs s req
      else if str_eq req.path "/jobs.Store/Ps"
      then call_ps s req
      else if str_eq req.path "/jobs.Store/Kill"
      then call_kill s req
      else (s, failed (status unimplemented ""))

  -- `with_interceptor`
  unfoldable pub serve :
      (Request (Unit {0}) → Result (Request (Unit {0})) Status) → S → Http B → S × Response B Rx
  unfolding call
  serve interceptor = T.intercepted interceptor call
