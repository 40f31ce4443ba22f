-- ===== src/Wire/Journey.antt =====
-- The way of a job from the command that starts it to the command that shows it.
use rust_job_runner.Common.{
  ℕ, ◌≡◌, ◌≢◌, refl, ap, ◌∙◌, sym, subst, String, none, some, Result, ok, List, [], ◌∷◌, lookup,
  All,
}
use Prim.Native.String.{◌++◌}
use rust_job_runner.Types.Life.{started}
use rust_job_runner.Types.{Ctx, OsString, DateTime, Job, running}
use rust_job_runner.Frames.{Bytes}
use rust_job_runner.Spawn.{Outcome, returned, TokioChild}
use rust_job_runner.Spawn
use rust_job_runner.Pb.{Timestamp, SpawnRequest, PsRequest, SpawnResponse, PsResponse}
use rust_job_runner.Pb
use rust_job_runner.Coord.{Memory}
use rust_job_runner.Coord
use rust_job_runner.Coord.{Error, empty}
use rust_job_runner.Coord.Spawned.{spawn-started}
use rust_job_runner.Coord.History.{Call, spawns, history, after, and_then, history-and_then}
use rust_job_runner.Coord.Later.{Spares, ps-Later}
use rust_job_runner.Tracker.Lifecycle.{Later, KeepsState, Later-KeepsState}
use rust_job_runner.Wire.Seen.{shown_as, shown_answer}
use rust_job_runner.Wire.Commands.{ps-shows}
use rust_job_runner.Grpc.Requests.{show_usize, server_interceptor}
use rust_job_runner.Grpc.Status.{Status}
use rust_job_runner.Grpc.Convert.{to_job, to_state, with_state}
use rust_job_runner.Grpc.Service.{Env, memory_coordinator, spec_of, reply}
use rust_job_runner.Grpc.Service
use rust_job_runner.Grpc.Guard.{valid-spawn}
use rust_job_runner.Client.{Shown, stop, println, main, must_ok, with_job, print_job}
use rust_job_runner.Client
use rust_job_runner.Wire.{Message, Codec, Tonic, given}
use rust_job_runner.Wire.Served.{incoming, from_caller, spawn-served, Fits, Answers}
use rust_job_runner.Wire.Server.{Store, StoreServer, new, serve}
use rust_job_runner.Wire.Passage.{spawn-passes}
use rust_job_runner.Wire.Callers.{server, connected, IsSmall, small-Fits}

module _ {B Rx Encodings : Type 0} {C : Codec B} (T : Tonic B Rx C) (no_encodings : Encodings)
    (parse : Bytes → Result String String) (os : String → OsString)
    (timestamp : DateTime → Timestamp) (messages : Rx → List Client.Message) where
  abbrev pub host : Env Rx → StoreServer Encodings (Store Memory Rx)
  host = server T no_encodings parse os timestamp messages

  -- The client of the owner of a certificate.
  abbrev pub client : Env Rx → Memory → Bytes → Client.Store
  client env m cert = connected T no_encodings parse os timestamp messages env m (some (cert ∷ []))

  abbrev pub Small : B → Type 0
  Small = IsSmall T no_encodings parse os timestamp messages

  fits : (env : Env Rx) (b : B) → Small b → Fits T (host env) parse b
  fits = small-Fits T no_encodings parse os timestamp messages

  known-Answers :
      {R : Type 0} (env : Env Rx) (n : Message B R) {out : Outcome (Result R Status)} {a : R}
      → out ≡ returned (ok a)
      → Small (n.encode a)
      → Answers T (host env) parse n out
  known-Answers {R} env n {out} {a} e small r x =
      let same : a ≡ r = cc in subst (λ r. Small (n.encode r)) same small

  abbrev pub running_state : ℕ → Pb.State
  running_state pid = Pb.State.running (record { pid = pid })

  -- The reply to a call that gives a running job.
  running-reply :
      {R : Type 0} (response : Pb.Job → R) (job : Job) (pid : ℕ)
      → job.state ≡ running (record { pid = pid })
      → reply timestamp response (returned (ok job))
        ≡ returned (ok (response (with_state timestamp job (running_state pid))))
  unfolding reply to_job to_state
  running-reply response job pid e = simp e refl

  run-prints :
      (store : Client.Store) (cmd : String) (args : List String) (job : Job) (pid : ℕ)
      → store.spawn (record { name = cmd; args = args })
        ≡ ok (record { job = some (with_state timestamp job (running_state pid)) })
      → main store (Client.run cmd args) ≡ println job.id.value
  unfolding main must_ok with_job with_state
  run-prints store cmd args job pid e = rw e refl

  -- The job that the command of this caller starts, as the client gets it.
  abbrev pub started_job : Env Rx → String → TokioChild → Job
  started_job env subject child =
      started env.new_id (record { id = subject }) (record { pid = child.pid }) env.now

  abbrev pub started_message : Env Rx → String → TokioChild → Pb.Job
  started_message env subject child =
      with_state timestamp (started_job env subject child) (running_state child.pid)

  -- The table behind the request of `run`.
  abbrev pub after_run : Env Rx → Memory → Bytes → SpawnRequest → Memory
  after_run env m cert q =
      (serve T (host env) (server_interceptor parse) m
        (incoming (some (cert ∷ [])) "/jobs.Store/Spawn" (C.spawn_request.encode q))).0

  spawn-reply :
      (env : Env Rx) (m : Memory) (cert : Bytes) (subject : String) (q : SpawnRequest)
      (child : TokioChild)
      → q.name ≢ ""
      → lookup env.new_id.value m.jobs ≡ none
      → Spawn.spawn env.launch (Spawn.opts_new (spec_of (memory_coordinator env) os timestamp q))
        ≡ returned (ok child)
      → let ctx : Ctx = record { user = record { id = subject } } in
        Service.spawn (memory_coordinator env) os timestamp m (from_caller cert subject q) ≡ (
          (Coord.spawn m ctx env.new_id (returned (ok child)) env.now).0,
          returned (ok (record { job = some (started_message env subject child) })),
        )
  unfolding started
  spawn-reply env m cert subject q child named fresh launched =
      let ctx : Ctx = record { user = record { id = subject } } in
      let (out, shown) = spawn-started m ctx env.new_id child env.now fresh in
      let after = (Coord.spawn m ctx env.new_id (returned (ok child)) env.now).0 in
      valid-spawn (memory_coordinator env) os timestamp m ctx (from_caller cert subject q)
        (refl, named)
      ∙ ap
          (λ c. (
            (Coord.spawn m ctx env.new_id c env.now).0,
            reply timestamp (λ j. record { job = some j })
                (Coord.spawn m ctx env.new_id c env.now).1,
          ))
          launched
      ∙ ap (λ r. (after, reply timestamp (λ j. record { job = some j }) r)) out
      ∙ ap (λ r. (after, r)) (running-reply _ (started_job env subject child) child.pid refl)

  -- What `ps` makes of this job, as the handler replies it.
  abbrev pub ps_reply : Result Job Error → Outcome (Result PsResponse Status)
  ps_reply r = reply timestamp (λ j. record { job = some j }) (returned r)

  -- The command `ps` of the owner, once the coordinator shows the job.
  ps-tells :
      (env : Env Rx) (m : Memory) (cert : Bytes) (subject id : String) (job : Job)
      → parse cert ≡ ok subject
      → id ≢ ""
      → Coord.ps m (record { user = record { id = subject } }) (record { value = id }) ≡ ok job
      → Small (C.ps_request.encode (record { job_id = id }))
      → Answers T (host env) parse C.ps_response (ps_reply (ok job))
      → main (client env m cert) (Client.ps id) ≡ shown_as T.broken job.state
  ps-tells env m cert subject id job read named shown small answers =
      ps-shows T no_encodings parse os timestamp messages (memory_coordinator env) m cert subject
        read id named small
        (subst (λ r. Answers T (host env) parse C.ps_response (ps_reply r)) (sym shown) answers)
      ∙ ap (λ r. shown_answer T.broken (λ j. shown_as T.broken j.state) (returned r)) shown

  -- Let a caller with a readable certificate run a command behind any history of the server. If the
  -- process is launched, the client prints the id of the new job. If the same caller asks `ps` for that
  -- id at once, its client prints that the job is running, with the pid of the process. If it asks later,
  -- behind any spawns by any users under other ids and any rounds of the tasks of all jobs, its client
  -- tells the state of a snapshot further in the life of this job, which is still the running state with
  -- this pid, or an exit. The id is fresh, neither it nor the command is empty, and the bodies are within
  -- tonic's limit.
  pub run-then-ps :
      (env : Env Rx) (before later : List Call) (cert : Bytes) (subject cmd : String)
      (args : List String) (child : TokioChild)
      → parse cert ≡ ok subject
      → cmd ≢ ""
      → env.new_id.value ≢ ""
      → lookup env.new_id.value (history empty before).jobs ≡ none
      → All (Spares env.new_id) later
      → let m = history empty before in
        let ctx : Ctx = record { user = record { id = subject } } in
        let q : SpawnRequest = record { name = cmd; args = args } in
        let p : PsRequest = record { job_id = env.new_id.value } in
        let job = started_job env subject child in
        let j = started_message env subject child in
        let behind = history (after_run env m cert q) later in
        Spawn.spawn env.launch (Spawn.opts_new (spec_of (memory_coordinator env) os timestamp q))
          ≡ returned (ok child)
        → Small (C.spawn_request.encode q)
        → Small (C.ps_request.encode p)
        → Small (C.spawn_response.encode (record { job = some j }))
        → Small (C.ps_response.encode (record { job = some j }))
        → Answers T (host env) parse C.ps_response (ps_reply (Coord.ps behind ctx env.new_id))
        → (main (client env m cert) (Client.run cmd args) ≡ println env.new_id.value)
          × (main (client env (after_run env m cert q) cert) (Client.ps env.new_id.value)
              ≡ println ("Running pid=" ++ show_usize child.pid))
          × ((k : Job) × (main (client env behind cert) (Client.ps env.new_id.value)
                ≡ shown_as T.broken k.state)
              × Later job k
              × KeepsState job k)
  unfolding new started after
  run-then-ps env before later cert subject cmd args child read named has_id fresh spare launched a
        b c d e =
      let m = history empty before in
      let q : SpawnRequest = record { name = cmd; args = args } in
      let ctx : Ctx = record { user = record { id = subject } } in
      let job = started_job env subject child in
      let call = spawns ctx env.new_id (returned (ok child)) env.now in
      let spawned = spawn-reply env m cert subject q child named fresh launched in
      let same : after_run env m cert q ≡ history empty (and_then before call) =
        ap (λ o. o.0) (spawn-served T (host env) parse m cert subject q read (fits env _ a))
        ∙ ap (λ o. o.0) spawned
        ∙ sym (history-and_then empty before call) in
      let shown : Coord.ps (after_run env m cert q) ctx env.new_id ≡ ok job =
        ap (λ t. Coord.ps t ctx env.new_id) (same ∙ history-and_then empty before call)
        ∙ (spawn-started m ctx env.new_id child env.now fresh).1 in
      let (k, found, p, _) =
        ps-Later (and_then before call) later ctx env.new_id job
          (ap (λ t. Coord.ps t ctx env.new_id) (sym same) ∙ shown) spare in
      let found' = ap (λ t. Coord.ps (history t later) ctx env.new_id) same ∙ found in
      (
        run-prints (client env m cert) cmd args job child.pid (
            spawn-passes T (host env) parse m cert subject q read (fits env _ a)
              (known-Answers env C.spawn_response (ap (λ o. o.1) spawned) c)
            ∙ ap (λ o. given T.broken o.1) spawned),
        ps-tells env (after_run env m cert q) cert subject env.new_id.value job read has_id shown b
            (known-Answers env C.ps_response (running-reply _ job child.pid refl) d),
        (
          k,
          ps-tells env (history (after_run env m cert q) later) cert subject env.new_id.value k read
              has_id found' b
              (subst (λ r. Answers T (host env) parse C.ps_response (ps_reply r)) found' e),
          p,
          Later-KeepsState p,
        ),
      )
