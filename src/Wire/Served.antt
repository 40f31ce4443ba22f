-- ===== src/Wire/Served.antt =====
-- A call of the client's stub that reaches the server's method, or does not.
use rust_job_runner.Common.{
  ◌≤◌, ◌≡◌, refl, ◌∙◌, String, Option, none, some, Result, ok, List, [], ◌∷◌,
}
use rust_job_runner.Frames.{Bytes}
use rust_job_runner.Spawn.{Outcome, returned}
use rust_job_runner.Pb.{SpawnRequest, LogsRequest, PsRequest, KillRequest}
use rust_job_runner.Grpc.Status.{Status}
use rust_job_runner.Grpc.Requests.{Request, server_interceptor, set_ctx}
use rust_job_runner.Grpc.Auth.{server_interceptor-passes}
use rust_job_runner.Wire.{
  Message, Codec, Http, message, stream, Tonic, respond, request_of, decode_limit,
}
use rust_job_runner.Wire.Server.{Store, StoreServer, limits, call, serve}
use rust_job_runner.Wire.Stub.{Channel}

-- A request as it comes from the network: only the interceptor gives it a context.
abbrev pub incoming : {B : Type 0} → Option (List Bytes) → String → B → Http B
incoming certs path body = record { path = path; body = body; peer_certs = certs; ctx = none }

-- The request that a method gets from a caller with one certificate.
abbrev pub from_caller : {A : Type 0} → Bytes → String → A → Request A
from_caller cert subject a = record {
  peer_certs = some (cert ∷ []);
  ctx = some (record { user = record { id = subject } });
  message = a;
}

module _ {B Rx S Encodings : Type 0} {C : Codec B} (T : Tonic B Rx C)
    (server : StoreServer Encodings (Store S Rx)) (parse : Bytes → Result String String) where
  -- The channel of a client with these certificates to the server in the state `s`.
  abbrev pub channel_to : S → Option (List Bytes) → Channel B Rx
  channel_to s certs = record {
    ready = ok tt;
    exchange =
        λ path body. (serve T server (server_interceptor parse) s (incoming certs path body)).1;
  }

  -- The body is within the limit of the server, which has none for its answers.
  abbrev pub Fits : B → Type 0
  Fits b =
      (C.size b ≤ decode_limit server.max_decoding_message_size)
      × (server.max_encoding_message_size ≡ none)

  -- An answer is within the default limit of the client.
  abbrev pub Answers : {R : Type 0} → Message B R → Outcome (Result R Status) → Type 0
  Answers {R} n out = (r : R) → out ≡ returned (ok r) → C.size (n.encode r) ≤ decode_limit none

  -- The interceptor knows the caller.
  serve-known :
      (s : S) (path : String) (body : B) (cert : Bytes) (subject : String)
      → parse cert ≡ ok subject
      → serve T server (server_interceptor parse) s (incoming (some (cert ∷ [])) path body)
        ≡ call T server s (record {
          path = path;
          body = body;
          peer_certs = some (cert ∷ []);
          ctx = some (record { user = record { id = subject } });
        })
  unfolding serve set_ctx
  serve-known s path body cert subject read =
      let h = incoming (some (cert ∷ [])) path body in
      T.intercepted_ok (server_interceptor parse) (call T server) s h _
        (server_interceptor-passes parse (request_of h tt) subject (cert, refl, read))

  -- A request of a known caller, as the routes see it.
  abbrev known : Bytes → String → String → B → Http B
  known cert subject path body = record {
    path = path;
    body = body;
    peer_certs = some (cert ∷ []);
    ctx = some (record { user = record { id = subject } });
  }

  unary-served :
      {A R : Type 0} (s : S) (path : String) (m : Message B A) (n : Message B R)
      (method : S → Request A → S × Outcome (Result R Status)) (cert : Bytes) (subject : String)
      (a : A)
      → parse cert ≡ ok subject
      → Fits (m.encode a)
      → (let h = known cert subject path (m.encode a) in
          call T server s h ≡ T.unary (limits server) m n method s h)
      → let (t, out) = method s (from_caller cert subject a) in
        serve T server (server_interceptor parse) s (incoming (some (cert ∷ [])) path (m.encode a))
        ≡ (t, respond (λ r. message (n.encode r)) out)
  unary-served s path m n method cert subject a read (fits, free) route =
      serve-known s path (m.encode a) cert subject read
      ∙ route
      ∙ T.unary_call (limits server) m n method s _ a refl fits free

  pub spawn-served :
      (s : S) (cert : Bytes) (subject : String) (r : SpawnRequest)
      → parse cert ≡ ok subject
      → Fits (C.spawn_request.encode r)
      → let (t, out) = server.inner.spawn s (from_caller cert subject r) in
        serve T server
          (server_interceptor parse)
          s
          (incoming (some (cert ∷ [])) "/jobs.Store/Spawn" (C.spawn_request.encode r))
        ≡ (t, respond (λ r. message (C.spawn_response.encode r)) out)
  unfolding call
  spawn-served s cert subject r read fits =
      unary-served s "/jobs.Store/Spawn" C.spawn_request C.spawn_response server.inner.spawn cert
        subject r read fits refl

  pub logs-served :
      (s : S) (cert : Bytes) (subject : String) (r : LogsRequest)
      → parse cert ≡ ok subject
      → Fits (C.logs_request.encode r)
      → let (t, out) = server.inner.logs s (from_caller cert subject r) in
        serve T server
          (server_interceptor parse)
          s
          (incoming (some (cert ∷ [])) "/jobs.Store/Logs" (C.logs_request.encode r))
        ≡ (t, respond stream out)
  unfolding call
  logs-served s cert subject r read (fits, free) =
      serve-known s "/jobs.Store/Logs" (C.logs_request.encode r) cert subject read
      ∙ T.server_streaming_call (limits server) C.logs_request server.inner.logs s _ r refl fits
          free

  pub ps-served :
      (s : S) (cert : Bytes) (subject : String) (r : PsRequest)
      → parse cert ≡ ok subject
      → Fits (C.ps_request.encode r)
      → let (t, out) = server.inner.ps s (from_caller cert subject r) in
        serve T server
          (server_interceptor parse)
          s
          (incoming (some (cert ∷ [])) "/jobs.Store/Ps" (C.ps_request.encode r))
        ≡ (t, respond (λ r. message (C.ps_response.encode r)) out)
  unfolding call
  ps-served s cert subject r read fits =
      unary-served s "/jobs.Store/Ps" C.ps_request C.ps_response server.inner.ps cert subject r read
        fits refl

  pub kill-served :
      (s : S) (cert : Bytes) (subject : String) (r : KillRequest)
      → parse cert ≡ ok subject
      → Fits (C.kill_request.encode r)
      → let (t, out) = server.inner.kill s (from_caller cert subject r) in
        serve T server
          (server_interceptor parse)
          s
          (incoming (some (cert ∷ [])) "/jobs.Store/Kill" (C.kill_request.encode r))
        ≡ (t, respond (λ r. message (C.kill_response.encode r)) out)
  unfolding call
  kill-served s cert subject r read fits =
      unary-served s "/jobs.Store/Kill" C.kill_request C.kill_response server.inner.kill cert
        subject r read fits refl
