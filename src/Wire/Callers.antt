-- ===== src/Wire/Callers.antt =====
-- src/grpc.rs, `run_server`, and src/bin/client.rs: the whole way from a command of the client to the
-- table of jobs and back.
use rust_job_runner.Common.{
  ◌≤◌, ◌≡◌, ◌≢◌, refl, ap, ◌∙◌, String, Option, none, some, Result, ok, err, List, [], ◌∷◌, arith,
}
use rust_job_runner.Types.{Ctx, OsString, DateTime}
use rust_job_runner.Frames.{Bytes}
use rust_job_runner.Spawn.{Outcome, returned}
use rust_job_runner.Pb.{Timestamp}
use rust_job_runner.Coord.{Memory}
use rust_job_runner.Coord.Access.{IsStranger}
use rust_job_runner.Grpc.Status.{Status, status, not_found, unauthenticated}
use rust_job_runner.Grpc.Auth.{IsUnknown, server_interceptor-TurnsAway}
use rust_job_runner.Grpc.Requests.{server_interceptor}
use rust_job_runner.Grpc.Service.{Coordinator, Env, memory_coordinator, spec_of}
use rust_job_runner.Grpc.Service
use rust_job_runner.Grpc.Strangers.{stranger_told_nothing}
use rust_job_runner.Client.{Shown, stop, println, play, main, must_ok}
use rust_job_runner.Client
use rust_job_runner.Client.Replies.{main-stop}
use rust_job_runner.Wire.{Message, Codec, Tonic, given}
use rust_job_runner.Wire.Server.{Store, StoreServer, new, serve}
use rust_job_runner.Wire.Stub.{Channel}
use rust_job_runner.Wire.Stub
use rust_job_runner.Wire.Served.{channel_to, incoming, from_caller, Fits, Answers}
use rust_job_runner.Wire.Passage.{logs-passes, ps-passes, kill-passes, stub-turned_away}

-- `impl Store for GrpcStoreImpl`
abbrev pub grpc_store :
    {S Rx : Type 0} → Coordinator S Rx → (String → OsString) → (DateTime → Timestamp) → Store S Rx
grpc_store C os timestamp = record {
  spawn = Service.spawn C os timestamp;
  logs = Service.logs C os timestamp;
  ps = Service.ps C os timestamp;
  kill = Service.kill C os timestamp;
}

abbrev pub map_ok : {A B E : Type 0} → (A → B) → Result A E → Result B E
map_ok f (ok a) = ok (f a)
map_ok f (err e) = err e

must_ok-stop :
    {A : Type 0} {r : Result A Status} {e : Status} (next : A → Shown)
    → r ≡ err e
    → must_ok r next ≡ stop (Client.exited 1 e)
unfolding must_ok
must_ok-stop next h = rw h refl

-- `no_encodings` is tonic's default; `messages` is what a reader of the stream is given, with what
-- the writes of the client give.
module _ {B Rx Encodings : Type 0} {C : Codec B} (T : Tonic B Rx C) (no_encodings : Encodings)
    (parse : Bytes → Result String String) (os : String → OsString)
    (timestamp : DateTime → Timestamp) (messages : Rx → List Client.Message) where
  -- The server as `run_server` sets it up, over any coordinator.
  abbrev pub server_of : {S : Type 0} → Coordinator S Rx → StoreServer Encodings (Store S Rx)
  server_of D = new no_encodings (λ e (x : Unit {0}). e) (grpc_store D os timestamp)

  -- The stub of a client with these certificates, connected to the server in the state `s`.
  abbrev pub connected_to : {S : Type 0} → Coordinator S Rx → S → Option (List Bytes) → Client.Store
  connected_to D s certs =
      let channel = channel_to T (server_of D) parse s certs in
      record {
        spawn = Stub.spawn T channel;
        logs = λ r. map_ok messages (Stub.logs T channel r);
        ps = Stub.ps T channel;
        kill = Stub.kill T channel;
      }

  -- The server over the table of jobs.
  abbrev pub server : Env Rx → StoreServer Encodings (Store Memory Rx)
  server env = server_of (memory_coordinator env)

  abbrev pub connected : Env Rx → Memory → Option (List Bytes) → Client.Store
  connected env = connected_to (memory_coordinator env)

  -- A body within the default limit.
  abbrev pub IsSmall : B → Type 0
  IsSmall b = C.size b ≤ 4194304

  pub within-Fits :
      {S : Type 0} (D : Coordinator S Rx) (b : B) → IsSmall b → Fits T (server_of D) parse b
  unfolding new
  within-Fits D b small = (small, refl)

  pub small-Fits : (env : Env Rx) (b : B) → IsSmall b → Fits T (server env) parse b
  small-Fits env = within-Fits (memory_coordinator env)

  pub failed-Answers :
      {R : Type 0} (env : Env Rx) {m : Memory} (n : Message B R)
      {out : Memory × Outcome (Result R Status)} {e : Status}
      → out ≡ (m, returned (err e))
      → Answers T (server env) parse n out.1
  failed-Answers env n h r x = absurd (ground arith)

  -- The client of a caller who asks for the logs, the state or the kill of a job that it does not own,
  -- or that does not exist, ends with exit code 1 in all three commands and prints nothing but, in its
  -- log, one and the same status, that of a job that is not found. The caller's
  -- certificate can be read, the id is not empty, and the requests are within tonic's limit.
  pub stranger-exits :
      (env : Env Rx) (m : Memory) (cert : Bytes) (subject id : String)
      → parse cert ≡ ok subject
      → id ≢ ""
      → IsStranger m (record { user = record { id = subject } }) (record { value = id })
      → IsSmall (C.logs_request.encode (record { job_id = id }))
      → IsSmall (C.ps_request.encode (record { job_id = id }))
      → IsSmall (C.kill_request.encode (record { job_id = id }))
      → let store = connected env m (some (cert ∷ [])) in
        let e = status not_found "job not found" in
        (main store (Client.logs id) ≡ stop (Client.exited 1 e))
        × (main store (Client.ps id) ≡ stop (Client.exited 1 e))
        × (main store (Client.kill id) ≡ stop (Client.exited 1 e))
  unfolding main new
  stranger-exits env m cert subject id read n out a b c =
      let ctx : Ctx = record { user = record { id = subject } } in
      let (logs, shown, killed) =
        stranger_told_nothing env os timestamp m ctx
          (from_caller cert subject (record { job_id = id }))
          (from_caller cert subject (record { job_id = id }))
          (from_caller cert subject (record { job_id = id })) (refl, n) (refl, n) (refl, n) out out
          out in
      (
        must_ok-stop play (
            ap (map_ok messages) (
              logs-passes T (server env) parse m cert subject _ read (small-Fits env _ a)
              ∙ ap (λ o. given T.broken o.1) logs)),
        must_ok-stop _ (
            ps-passes T (server env) parse m cert subject _ read (small-Fits env _ b)
              (failed-Answers env C.ps_response shown)
            ∙ ap (λ o. given T.broken o.1) shown),
        must_ok-stop _ (
            kill-passes T (server env) parse m cert subject _ read (small-Fits env _ c)
              (failed-Answers env C.kill_response killed)
            ∙ ap (λ o. given T.broken o.1) killed),
      )

  -- A caller that does not show exactly one certificate that can be read gets no further than the
  -- interceptor: all four commands of its client end with exit code 1 and print nothing but, in their
  -- log, one and the same status, whose code is `Unauthenticated`, whatever the table holds and whatever
  -- is asked for; and no request of such a caller changes the table.
  pub unknown-exits :
      (env : Env Rx) (m : Memory) (certs : Option (List Bytes)) (cmd id : String)
      (args : List String)
      → IsUnknown parse certs
      → let store = connected env m certs in
        (e : Status) × (e.code ≡ unauthenticated)
        × (main store (Client.run cmd args) ≡ stop (Client.exited 1 e))
        × (main store (Client.logs id) ≡ stop (Client.exited 1 e))
        × (main store (Client.ps id) ≡ stop (Client.exited 1 e))
        × (main store (Client.kill id) ≡ stop (Client.exited 1 e))
        × ((path : String) (body : B)
            → (serve T (server env) (server_interceptor parse) m (incoming certs path body)).0 ≡ m)
  unknown-exits env m certs cmd id args h =
      let (e, away, code) =
        server_interceptor-TurnsAway parse (record { peer_certs = certs; ctx = none; message = tt })
          h in
      let (q, l, p, k, same) = stub-turned_away T (server env) parse m certs e _ _ _ _ away in
      let (r, s, t, u) =
        main-stop (connected env m certs) cmd id args e e e e q (ap (map_ok messages) l) p k in
      (e, code, r, s, t, u, same)
