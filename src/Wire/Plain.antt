-- ===== src/Wire/Plain.antt =====
-- A network that carries the messages as they are: a concrete `Tonic` with the behaviour promised.
use rust_job_runner.Common.{◌≤◌, ◌≡◌, refl, true, Result, ok, err, leb, arith, if◌then◌else◌}
use rust_job_runner.Spawn.{Outcome, returned, panicked}
use rust_job_runner.Pb.{
  SpawnRequest, SpawnResponse, LogsRequest, PsRequest, PsResponse, KillRequest, KillResponse,
}
use rust_job_runner.Grpc.Status.{Status, status, internal, unknown}
use rust_job_runner.Grpc.Requests.{Request}
use rust_job_runner.Wire.{
  Message, Codec, Http, Response, message, stream, failed, Limits, Tonic, decode_limit, request_of,
  respond, given,
}

pub data Body : Type 0 where
  spawn_request : SpawnRequest → Body
  spawn_response : SpawnResponse → Body
  logs_request : LogsRequest → Body
  ps_request : PsRequest → Body
  ps_response : PsResponse → Body
  kill_request : KillRequest → Body
  kill_response : KillResponse → Body

abbrev unread : {A : Type 0} → Result A Status
unread = err (status internal "failed to decode Protobuf message")

abbrev read_spawn_request : Body → Result SpawnRequest Status
read_spawn_request (spawn_request r) = ok r
read_spawn_request _ = unread

abbrev read_spawn_response : Body → Result SpawnResponse Status
read_spawn_response (spawn_response r) = ok r
read_spawn_response _ = unread

abbrev read_logs_request : Body → Result LogsRequest Status
read_logs_request (logs_request r) = ok r
read_logs_request _ = unread

abbrev read_ps_request : Body → Result PsRequest Status
read_ps_request (ps_request r) = ok r
read_ps_request _ = unread

abbrev read_ps_response : Body → Result PsResponse Status
read_ps_response (ps_response r) = ok r
read_ps_response _ = unread

abbrev read_kill_request : Body → Result KillRequest Status
read_kill_request (kill_request r) = ok r
read_kill_request _ = unread

abbrev read_kill_response : Body → Result KillResponse Status
read_kill_response (kill_response r) = ok r
read_kill_response _ = unread

-- Every body counts as 64 bytes.
abbrev pub plain_codec : Codec Body
plain_codec = record {
  size = λ b. 64;
  spawn_request = record {
    encode = spawn_request;
    decode = read_spawn_request;
    decode-encode = λ a. refl;
  };
  spawn_response = record {
    encode = spawn_response;
    decode = read_spawn_response;
    decode-encode = λ a. refl;
  };
  logs_request = record {
    encode = logs_request;
    decode = read_logs_request;
    decode-encode = λ a. refl;
  };
  ps_request = record { encode = ps_request; decode = read_ps_request; decode-encode = λ a. refl };
  ps_response = record {
    encode = ps_response;
    decode = read_ps_response;
    decode-encode = λ a. refl;
  };
  kill_request = record {
    encode = kill_request;
    decode = read_kill_request;
    decode-encode = λ a. refl;
  };
  kill_response = record {
    encode = kill_response;
    decode = read_kill_response;
    decode-encode = λ a. refl;
  };
}

module _ {Rx S : Type 0} where
  -- A method on a decoded message.
  abbrev on_message :
      {A R : Type 0}
      → (R → Response Body Rx)
      → (S → Request A → S × Outcome (Result R Status))
      → S
      → Http Body
      → Result A Status
      → S × Response Body Rx
  on_message good method s h (err e) = (s, failed e)
  on_message good method s h (ok a) =
      let (t, out) = method s (request_of h a) in (t, respond good out)

  abbrev plain_call :
      {A R : Type 0}
      → (R → Response Body Rx)
      → Limits
      → Message Body A
      → (S → Request A → S × Outcome (Result R Status))
      → S
      → Http Body
      → S × Response Body Rx
  plain_call good l m method s h =
      let served = on_message good method s h (m.decode h.body) in
      if leb 64 (decode_limit l.max_decoding_message_size)
      then served
      else (s, failed (status internal "message too large"))

  pub plain_call_lem :
      {A R : Type 0} (good : R → Response Body Rx) (l : Limits) (m : Message Body A)
      (method : S → Request A → S × Outcome (Result R Status)) (s : S) (h : Http Body) (a : A)
      → h.body ≡ m.encode a
      → 64 ≤ decode_limit l.max_decoding_message_size
      → let (t, out) = method s (request_of h a) in
        plain_call good l m method s h ≡ (t, respond good out)
  plain_call_lem good l m method s h a e small =
      let within : leb 64 (decode_limit l.max_decoding_message_size) ≡ true = ground arith in
      rw (within, e, m.decode-encode a) refl

  abbrev plain_intercepted :
      (S → Http Body → S × Response Body Rx)
      → S
      → Http Body
      → Result (Request (Unit {0})) Status
      → S × Response Body Rx
  plain_intercepted call s h (err e) = (s, failed e)
  plain_intercepted call s h (ok q) = call s (record h { peer_certs = q.peer_certs; ctx = q.ctx })

abbrev pub broken : Status
broken = status unknown "h2 protocol error"

abbrev plain_receive : {Rx R : Type 0} → Message Body R → Response Body Rx → Result R Status
plain_receive m (message b) = m.decode b
plain_receive m (failed e) = err e
plain_receive m _ = err broken

abbrev plain_receive_stream : {Rx : Type 0} → Response Body Rx → Result Rx Status
plain_receive_stream (stream rx) = ok rx
plain_receive_stream (failed e) = err e
plain_receive_stream _ = err broken

pub plain_respond :
    (Rx : Type 0) {R : Type 0} (m : Message Body R) (out : Outcome (Result R Status))
    → plain_receive {Rx = Rx} m (respond (λ r. message (m.encode r)) out) ≡ given broken out
plain_respond Rx m panicked = refl
plain_respond Rx m (returned (err e)) = refl
plain_respond Rx m (returned (ok r)) = m.decode-encode r

pub plain_respond_stream :
    {Rx : Type 0} (out : Outcome (Result Rx Status))
    → plain_receive_stream (respond stream out) ≡ given broken out
plain_respond_stream panicked = refl
plain_respond_stream (returned (err e)) = refl
plain_respond_stream (returned (ok r)) = refl

abbrev pub plain : (Rx : Type 0) → Tonic Body Rx plain_codec
plain Rx = record {
  unary = λ l m n method s h. plain_call (λ r. message (n.encode r)) l m method s h;
  server_streaming = λ l m method s h. plain_call stream l m method s h;
  intercepted = λ i call s h. plain_intercepted call s h (i (request_of h tt));
  broken = broken;
  receive = λ m. plain_receive m;
  receive_stream = plain_receive_stream;
  unary_call = λ l m n method s h a e small free. plain_call_lem _ l m method s h a e small;
  server_streaming_call =
      λ l m method s h a e small free. plain_call_lem _ l m method s h a e small;
  intercepted_ok = λ i call s h q e. rw e refl;
  intercepted_err = λ i call s h x e. rw e refl;
  receive_respond = λ n out small. plain_respond Rx n out;
  receive_stream_respond = plain_respond_stream;
}
