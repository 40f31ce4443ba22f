-- ===== src/Wire/Passage.antt =====
-- A call of the client's stub that reaches the server's method, or does not.
use rust_job_runner.Common.{
  ◌≡◌, ap, ◌∙◌, String, Option, none, some, Result, ok, err, List, [], ◌∷◌, arith,
}
use rust_job_runner.Frames.{Bytes}
use rust_job_runner.Spawn.{returned}
use rust_job_runner.Pb.{SpawnRequest, LogsRequest, PsRequest, KillRequest}
use rust_job_runner.Grpc.Status.{Status}
use rust_job_runner.Grpc.Requests.{server_interceptor}
use rust_job_runner.Wire.{Codec, failed, Tonic, given}
use rust_job_runner.Wire.Server.{Store, StoreServer, call, serve}
use rust_job_runner.Wire.Stub.{Channel}
use rust_job_runner.Wire.Stub
use rust_job_runner.Wire.Served.{
  incoming, from_caller, channel_to, Fits, Answers, spawn-served, logs-served, ps-served,
  kill-served,
}

module _ {B Rx S Encodings : Type 0} {C : Codec B} (T : Tonic B Rx C)
    (server : StoreServer Encodings (Store S Rx)) (parse : Bytes → Result String String) where
  pub spawn-passes :
      (s : S) (cert : Bytes) (subject : String) (r : SpawnRequest)
      → parse cert ≡ ok subject
      → Fits T server parse (C.spawn_request.encode r)
      → let out = (server.inner.spawn s (from_caller cert subject r)).1 in
        Answers T server parse C.spawn_response out
        → Stub.spawn T (channel_to T server parse s (some (cert ∷ []))) r ≡ given T.broken out
  unfolding Stub.spawn
  spawn-passes s cert subject r read fits small =
      ap (λ o. T.receive C.spawn_response o.1)
        (spawn-served T server parse s cert subject r read fits)
      ∙ T.receive_respond C.spawn_response _ small

  pub logs-passes :
      (s : S) (cert : Bytes) (subject : String) (r : LogsRequest)
      → parse cert ≡ ok subject
      → Fits T server parse (C.logs_request.encode r)
      → let out = (server.inner.logs s (from_caller cert subject r)).1 in
        Stub.logs T (channel_to T server parse s (some (cert ∷ []))) r ≡ given T.broken out
  unfolding Stub.logs
  logs-passes s cert subject r read fits =
      ap (λ o. T.receive_stream o.1) (logs-served T server parse s cert subject r read fits)
      ∙ T.receive_stream_respond _

  pub ps-passes :
      (s : S) (cert : Bytes) (subject : String) (r : PsRequest)
      → parse cert ≡ ok subject
      → Fits T server parse (C.ps_request.encode r)
      → let out = (server.inner.ps s (from_caller cert subject r)).1 in
        Answers T server parse C.ps_response out
        → Stub.ps T (channel_to T server parse s (some (cert ∷ []))) r ≡ given T.broken out
  unfolding Stub.ps
  ps-passes s cert subject r read fits small =
      ap (λ o. T.receive C.ps_response o.1) (ps-served T server parse s cert subject r read fits)
      ∙ T.receive_respond C.ps_response _ small

  pub kill-passes :
      (s : S) (cert : Bytes) (subject : String) (r : KillRequest)
      → parse cert ≡ ok subject
      → Fits T server parse (C.kill_request.encode r)
      → let out = (server.inner.kill s (from_caller cert subject r)).1 in
        Answers T server parse C.kill_response out
        → Stub.kill T (channel_to T server parse s (some (cert ∷ []))) r ≡ given T.broken out
  unfolding Stub.kill
  kill-passes s cert subject r read fits small =
      ap (λ o. T.receive C.kill_response o.1)
        (kill-served T server parse s cert subject r read fits)
      ∙ T.receive_respond C.kill_response _ small

  -- What a caller with one readable certificate gets from the client's stub is, for each of the four
  -- calls, what the server's method gives to a request with the certificate's subject as its context,
  -- if the bodies are within the limits: each stub's path is routed to the method of its name, and
  -- nothing is lost between the two.
  stub-passes :
      (s : S) (cert : Bytes) (subject : String) (q : SpawnRequest) (l : LogsRequest) (p : PsRequest)
      (k : KillRequest)
      → parse cert ≡ ok subject
      → Fits T server parse (C.spawn_request.encode q)
        × Fits T server parse (C.logs_request.encode l)
        × Fits T server parse (C.ps_request.encode p)
        × Fits T server parse (C.kill_request.encode k)
      → let spawned = (server.inner.spawn s (from_caller cert subject q)).1 in
        let shown = (server.inner.ps s (from_caller cert subject p)).1 in
        let killed = (server.inner.kill s (from_caller cert subject k)).1 in
        Answers T server parse C.spawn_response spawned
        → Answers T server parse C.ps_response shown
        → Answers T server parse C.kill_response killed
        → let channel = channel_to T server parse s (some (cert ∷ [])) in
          (Stub.spawn T channel q ≡ given T.broken spawned)
          × (Stub.logs T channel l
              ≡ given T.broken (server.inner.logs s (from_caller cert subject l)).1)
          × (Stub.ps T channel p ≡ given T.broken shown)
          × (Stub.kill T channel k ≡ given T.broken killed)
          × ((serve T server
                (server_interceptor parse)
                s
                (incoming (some (cert ∷ [])) "/jobs.Store/Spawn" (C.spawn_request.encode q))).0
              ≡ (server.inner.spawn s (from_caller cert subject q)).0)
  stub-passes s cert subject q l p k read (fq, fl, fp, fk) aq shown ak = (
    spawn-passes s cert subject q read fq aq,
    logs-passes s cert subject l read fl,
    ps-passes s cert subject p read fp shown,
    kill-passes s cert subject k read fk ak,
    ap (λ o. o.0) (spawn-served T server parse s cert subject q read fq),
  )

  refused :
      (s : S) (certs : Option (List Bytes)) (e : Status)
      → server_interceptor parse (record { peer_certs = certs; ctx = none; message = tt }) ≡ err e
      → (path : String) (body : B)
      → serve T server (server_interceptor parse) s (incoming certs path body) ≡ (s, failed e)
  unfolding serve
  refused s certs e h path body =
      T.intercepted_err (server_interceptor parse) (call T server) s (incoming certs path body) e h

  -- A caller whom the interceptor turns away gets its status from each of the four calls of the stub;
  -- no method of the server is called, so that its state stays, whatever the path and the body.
  pub stub-turned_away :
      (s : S) (certs : Option (List Bytes)) (e : Status) (q : SpawnRequest) (l : LogsRequest)
      (p : PsRequest) (k : KillRequest)
      → server_interceptor parse (record { peer_certs = certs; ctx = none; message = tt }) ≡ err e
      → let channel = channel_to T server parse s certs in
        (Stub.spawn T channel q ≡ err e)
        × (Stub.logs T channel l ≡ err e)
        × (Stub.ps T channel p ≡ err e)
        × (Stub.kill T channel k ≡ err e)
        × ((path : String) (body : B)
            → (serve T server (server_interceptor parse) s (incoming certs path body)).0 ≡ s)
  unfolding Stub.spawn Stub.logs Stub.ps Stub.kill
  stub-turned_away s certs e q l p k h =
      let turned = refused s certs e h in
      (
        ap (λ o. T.receive C.spawn_response o.1) (turned "/jobs.Store/Spawn" _)
            ∙ T.receive_respond C.spawn_response (returned (err e)) (λ r x. absurd (ground arith)),
        ap (λ o. T.receive_stream o.1) (turned "/jobs.Store/Logs" _)
            ∙ T.receive_stream_respond (returned (err e)),
        ap (λ o. T.receive C.ps_response o.1) (turned "/jobs.Store/Ps" _)
            ∙ T.receive_respond C.ps_response (returned (err e)) (λ r x. absurd (ground arith)),
        ap (λ o. T.receive C.kill_response o.1) (turned "/jobs.Store/Kill" _)
            ∙ T.receive_respond C.kill_response (returned (err e)) (λ r x. absurd (ground arith)),
        λ path body. ap (λ o. o.0) (turned path body),
      )
