-- ===== src/Wire.antt =====
-- What tonic and prost do between src/pb/jobs.rs and the network, as an interface: the program only
-- calls them, and `Tonic` states what their documentation promises of the calls that it makes.
pub mod Server
pub mod Stub
pub mod Config
pub mod Served
pub mod Passage
pub mod Callers
pub mod Journey
pub mod OwnerLogs
pub mod Seen
pub mod Commands
pub mod OwnerSees
pub mod Unseen
pub mod Plain
pub mod Tests
mod LogsTests
mod SeesTests
mod UnseenTests
use rust_job_runner.Common.{ℕ, ◌≤◌, String, ◌≡◌, Option, none, some, Result, ok, err, List}
use rust_job_runner.Types.{Ctx}
use rust_job_runner.Frames.{Bytes}
use rust_job_runner.Spawn.{Outcome, returned, panicked}
use rust_job_runner.Pb.{
  SpawnRequest, SpawnResponse, LogsRequest, PsRequest, PsResponse, KillRequest, KillResponse,
}
use rust_job_runner.Grpc.Status.{Status}
use rust_job_runner.Grpc.Requests.{Request}

-- The prost encoding of a type of messages, into bodies `B`.
pub record Message (B A : Type 0) : Type 0 where
  pub encode : A → B
  pub decode : B → Result A Status
  pub decode-encode : (a : A) → decode (encode a) ≡ ok a

-- The messages of the service that go in one piece, and the length of a body in bytes.
pub record Codec (B : Type 0) : Type 0 where
  pub size : B → ℕ
  pub spawn_request : Message B SpawnRequest
  pub spawn_response : Message B SpawnResponse
  pub logs_request : Message B LogsRequest
  pub ps_request : Message B PsRequest
  pub ps_response : Message B PsResponse
  pub kill_request : Message B KillRequest
  pub kill_response : Message B KillResponse

-- An HTTP request as the server meets it: its path, its body, and what its extensions hold.
pub record Http (B : Type 0) : Type 0 where
  pub path : String
  pub body : B
  pub peer_certs : Option (List Bytes)
  pub ctx : Option Ctx

-- An HTTP response: a message, a stream of them, a status in the headers, or a connection that ends
-- because the handler has panicked.
pub data Response (B Rx : Type 0) : Type 0 where
  message : B → Response B Rx
  stream : Rx → Response B Rx
  failed : Status → Response B Rx
  aborted : Response B Rx

-- The limits on the size of a message, where `none` is tonic's default.
pub record Limits : Type 0 where
  pub max_decoding_message_size : Option ℕ
  pub max_encoding_message_size : Option ℕ

-- The default is 4 MB to decode.
abbrev pub decode_limit : Option ℕ → ℕ
decode_limit none = 4194304
decode_limit (some limit) = limit

abbrev pub request_of : {B A : Type 0} → Http B → A → Request A
request_of h a = record { peer_certs = h.peer_certs; ctx = h.ctx; message = a }

-- The response for what a method gives.
abbrev pub respond :
    {B Rx R : Type 0} → (R → Response B Rx) → Outcome (Result R Status) → Response B Rx
respond good (returned (ok r)) = good r
respond good (returned (err e)) = failed e
respond good panicked = aborted

-- What a stub gives for what a method gives; `broken` is the status of a connection that ends.
abbrev pub given : {R : Type 0} → Status → Outcome (Result R Status) → Result R Status
given broken (returned r) = r
given broken panicked = err broken

pub record Tonic (B Rx : Type 0) (C : Codec B) : Type 1 where
  -- `tonic::server::Grpc`, on a method that may change a state
  pub unary :
      {S A R : Type 0}
      → Limits
      → Message B A
      → Message B R
      → (S → Request A → S × Outcome (Result R Status))
      → S
      → Http B
      → S × Response B Rx
  pub server_streaming :
      {S A : Type 0}
      → Limits
      → Message B A
      → (S → Request A → S × Outcome (Result Rx Status))
      → S
      → Http B
      → S × Response B Rx
  -- `InterceptedService`
  pub intercepted :
      {S : Type 0}
      → (Request (Unit {0}) → Result (Request (Unit {0})) Status)
      → (S → Http B → S × Response B Rx)
      → S
      → Http B
      → S × Response B Rx
  -- what `tonic::client::Grpc` makes of a response
  pub broken : Status
  pub receive : {R : Type 0} → Message B R → Response B Rx → Result R Status
  pub receive_stream : Response B Rx → Result Rx Status
  -- A message within the limit is decoded, and the method's answer is sent.
  pub unary_call :
      {S A R : Type 0} (l : Limits) (m : Message B A) (n : Message B R)
      (method : S → Request A → S × Outcome (Result R Status)) (s : S) (h : Http B) (a : A)
      → h.body ≡ m.encode a
      → C.size h.body ≤ decode_limit l.max_decoding_message_size
      → l.max_encoding_message_size ≡ none
      → let (t, out) = method s (request_of h a) in
        unary l m n method s h ≡ (t, respond (λ r. message (n.encode r)) out)
  pub server_streaming_call :
      {S A : Type 0} (l : Limits) (m : Message B A)
      (method : S → Request A → S × Outcome (Result Rx Status)) (s : S) (h : Http B) (a : A)
      → h.body ≡ m.encode a
      → C.size h.body ≤ decode_limit l.max_decoding_message_size
      → l.max_encoding_message_size ≡ none
      → let (t, out) = method s (request_of h a) in
        server_streaming l m method s h ≡ (t, respond stream out)
  -- The interceptor gets the request without its message.
  pub intercepted_ok :
      {S : Type 0} (i : Request (Unit {0}) → Result (Request (Unit {0})) Status)
      (call : S → Http B → S × Response B Rx) (s : S) (h : Http B) (q : Request (Unit {0}))
      → i (request_of h tt) ≡ ok q
      → intercepted i call s h ≡ call s (record h { peer_certs = q.peer_certs; ctx = q.ctx })
  pub intercepted_err :
      {S : Type 0} (i : Request (Unit {0}) → Result (Request (Unit {0})) Status)
      (call : S → Http B → S × Response B Rx) (s : S) (h : Http B) (e : Status)
      → i (request_of h tt) ≡ err e
      → intercepted i call s h ≡ (s, failed e)
  -- The client decodes a message within the default limit.
  pub receive_respond :
      {R : Type 0} (n : Message B R) (out : Outcome (Result R Status))
      → ((r : R) → out ≡ returned (ok r) → C.size (n.encode r) ≤ decode_limit none)
      → receive n (respond (λ r. message (n.encode r)) out) ≡ given broken out
  pub receive_stream_respond :
      (out : Outcome (Result Rx Status)) → receive_stream (respond stream out) ≡ given broken out
