-- ===== src/Wire/Unseen.antt =====
-- What a user's client shows of what other users do, over the whole way to the table and back.
use rust_job_runner.Common.{
  ◌≡◌, ◌≢◌, sym, ap, subst, ◌∙◌, String, none, some, lookup, Result, ok, List, [], ◌∷◌,
}
use rust_job_runner.Types.{Ctx, OsString, DateTime, Job}
use rust_job_runner.Frames.{Bytes}
use rust_job_runner.Spawn.{Outcome, returned}
use rust_job_runner.Spawn
use rust_job_runner.Pb.{Timestamp, SpawnRequest}
use rust_job_runner.Coord.{Error, empty}
use rust_job_runner.Coord
use rust_job_runner.Coord.History.{Call, history}
use rust_job_runner.Coord.Purged.{purged, HasNewIds, answers-purged}
use rust_job_runner.Coord.FreeIds.{spawn-purged}
use rust_job_runner.Grpc.Service.{Env, memory_coordinator, reply, spec_of}
use rust_job_runner.Client.{play, main}
use rust_job_runner.Client
use rust_job_runner.Wire.{Codec, Tonic}
use rust_job_runner.Wire.Served.{Answers}
use rust_job_runner.Wire.Seen.{shown_as, started_as, shown_answer}
use rust_job_runner.Wire.Commands.{run-shows, logs-shows, ps-shows, kill-shows}
use rust_job_runner.Wire.Callers.{server, connected, IsSmall}

module _ {B Rx Encodings : Type 0} {C : Codec B} (T : Tonic B Rx C) (no_encodings : Encodings)
    (parse : Bytes → Result String String) (os : String → OsString)
    (timestamp : DateTime → Timestamp) (messages : Rx → List Client.Message) where
  -- The client of the caller with this certificate, behind a history of the server.
  abbrev pub client_behind : Env Rx → List Call → Bytes → Client.Store
  client_behind env cs cert =
      connected T no_encodings parse os timestamp messages env (history empty cs) (some (cert ∷ []))

  -- The answers of the coordinator whose replies are within the limit.
  abbrev pub SpawnFits : Env Rx → Outcome (Result Job Error) → Type 0
  SpawnFits env out =
      Answers T (server T no_encodings parse os timestamp messages env) parse C.spawn_response
        (reply timestamp (λ j. record { job = some j }) out)

  abbrev pub PsFits : Env Rx → Result Job Error → Type 0
  PsFits env r =
      Answers T (server T no_encodings parse os timestamp messages env) parse C.ps_response
        (reply timestamp (λ j. record { job = some j }) (returned r))

  abbrev pub KillFits : Env Rx → Result Job Error → Type 0
  KillFits env r =
      Answers T (server T no_encodings parse os timestamp messages env) parse C.kill_response
        (reply timestamp (λ j. record { job = some j }) (returned r))

  -- Let the server run from its start through any spawns by any users and any rounds of the tasks of
  -- the jobs, where each spawn comes with an id that is not in use. Then what a user's client shows for
  -- `run`, and for `logs`, `ps` and `kill` of any id, of the user's own jobs and of all others, is the
  -- same as if no other user had spawned anything, for the same launch of the process, the same new id,
  -- which is not in use, and the same answers of the tasks to the requests. The user's certificate can
  -- be read, neither the program's name nor the id is empty, and the requests and the replies are within
  -- tonic's limit.
  pub others_unseen :
      (env : Env Rx) (cs : List Call) (cert : Bytes) (subject cmd id : String) (args : List String)
      → parse cert ≡ ok subject
      → cmd ≢ ""
      → id ≢ ""
      → HasNewIds empty cs
      → lookup env.new_id.value (history empty cs).jobs ≡ none
      → IsSmall T no_encodings parse os timestamp messages
          (C.spawn_request.encode (record { name = cmd; args = args }))
      → IsSmall T no_encodings parse os timestamp messages
          (C.logs_request.encode (record { job_id = id }))
      → IsSmall T no_encodings parse os timestamp messages
          (C.ps_request.encode (record { job_id = id }))
      → IsSmall T no_encodings parse os timestamp messages
          (C.kill_request.encode (record { job_id = id }))
      → let ctx : Ctx = record { user = record { id = subject } } in
        let m = history empty cs in
        let D = memory_coordinator env in
        SpawnFits env
          (D.spawn m ctx (spec_of D os timestamp (record { name = cmd; args = args }))).1
        → PsFits env (Coord.ps m ctx (record { value = id }))
        → KillFits env (Coord.kill m ctx (record { value = id }) env.accepted env.answer)
        → let seen = client_behind env cs cert in
          let alone = client_behind env (purged ctx cs) cert in
          (main seen (Client.run cmd args) ≡ main alone (Client.run cmd args))
          × (main seen (Client.logs id) ≡ main alone (Client.logs id))
          × (main seen (Client.ps id) ≡ main alone (Client.ps id))
          × (main seen (Client.kill id) ≡ main alone (Client.kill id))
  others_unseen env cs cert subject cmd id args read has_cmd named new free z a b c spawned shown
        killed =
      let ctx : Ctx = record { user = record { id = subject } } in
      let D = memory_coordinator env in
      let m = history empty cs in
      let n = history empty (purged ctx cs) in
      let (same_ps, same_logs, same_kill) =
        answers-purged ctx cs (record { value = id }) env.accepted env.rx env.answer new in
      let q : SpawnRequest = record { name = cmd; args = args } in
      let same_spawn =
        spawn-purged ctx cs env.new_id
          (Spawn.spawn env.launch (Spawn.opts_new (spec_of D os timestamp q))) env.now free in
      (
        run-shows T no_encodings parse os timestamp messages D m cert subject read cmd args has_cmd
              z spawned
            ∙ ap (shown_answer T.broken (λ job. started_as T.broken job.id.value job.state))
                same_spawn
            ∙ sym (
                run-shows T no_encodings parse os timestamp messages D n cert subject read cmd args
                  has_cmd z (subst (SpawnFits env) same_spawn spawned)),
        logs-shows T no_encodings parse os timestamp messages D m cert subject read id named a
            ∙ ap (λ r. shown_answer T.broken (λ rx. play (messages rx)) (returned r)) same_logs
            ∙ sym (
                logs-shows T no_encodings parse os timestamp messages D n cert subject read id named
                  a),
        ps-shows T no_encodings parse os timestamp messages D m cert subject read id named b shown
            ∙ ap (λ r. shown_answer T.broken (λ job. shown_as T.broken job.state) (returned r))
                same_ps
            ∙ sym (
                ps-shows T no_encodings parse os timestamp messages D n cert subject read id named b
                  (subst (PsFits env) same_ps shown)),
        kill-shows T no_encodings parse os timestamp messages D m cert subject read id named c
              killed
            ∙ ap (λ r. shown_answer T.broken (λ job. shown_as T.broken job.state) (returned r))
                same_kill
            ∙ sym (
                kill-shows T no_encodings parse os timestamp messages D n cert subject read id named
                  c (subst (KillFits env) same_kill killed)),
      )
