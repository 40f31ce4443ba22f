-- ===== src/Wire/Commands.antt =====
-- What the commands of a client with a readable certificate show of the answers of a coordinator, over
-- the whole way there and back.

use rust_job_runner.Common.{
  ◌≡◌, ◌≢◌, refl, sym, ap, subst, ◌∙◌, String, some, Result, ok, List, [], ◌∷◌,
}
use rust_job_runner.Types.{Ctx, OsString, DateTime}
use rust_job_runner.Frames.{Bytes}
use rust_job_runner.Pb.{Timestamp, SpawnRequest, SpawnResponse, LogsRequest, PsRequest, KillRequest}
use rust_job_runner.Grpc.Service.{Coordinator, reply, spec_of}
use rust_job_runner.Grpc.Guard.{valid-spawn, valid-logs, valid-ps, valid-kill}
use rust_job_runner.Client.{Shown, stop, println, play, main, must_ok, with_job, printed, print_job}
use rust_job_runner.Client
use rust_job_runner.Wire.{Codec, Tonic, given}
use rust_job_runner.Wire.Served.{from_caller, Fits, Answers}
use rust_job_runner.Wire.Server.{Store, StoreServer, new}
use rust_job_runner.Wire.Passage.{spawn-passes, logs-passes, ps-passes, kill-passes}
use rust_job_runner.Wire.Callers.{server_of, connected_to, map_ok, IsSmall, within-Fits}
use rust_job_runner.Wire.Seen.{
  shown_as, started_as, shown_answer, state-answer, id-answer, plays-answer,
}

module _ {B Rx Encodings : Type 0} {C : Codec B} (T : Tonic B Rx C) (no_encodings : Encodings)
    (parse : Bytes → Result String String) (os : String → OsString)
    (timestamp : DateTime → Timestamp) (messages : Rx → List Client.Message) {S : Type 0}
    (D : Coordinator S Rx) (s : S) (cert : Bytes) (subject : String)
    (read : parse cert ≡ ok subject) where
  abbrev pub host : StoreServer Encodings (Store S Rx)
  host = server_of T no_encodings parse os timestamp messages D

  abbrev pub client : Client.Store
  client = connected_to T no_encodings parse os timestamp messages D s (some (cert ∷ []))

  abbrev pub caller : Ctx
  caller = record { user = record { id = subject } }

  abbrev pub Small : B → Type 0
  Small = IsSmall T no_encodings parse os timestamp messages

  fits : (b : B) → Small b → Fits T host parse b
  fits = within-Fits T no_encodings parse os timestamp messages D

  -- The reply to `spawn`, as the client's stub has it.
  pub spawn-replies :
      (q : SpawnRequest)
      → q.name ≢ ""
      → let made =
          reply {R = SpawnResponse} timestamp
            (λ j. record { job = some j })
            (D.spawn s caller (spec_of D os timestamp q)).1 in
        Small (C.spawn_request.encode q)
        → Answers T host parse C.spawn_response made
        → client.spawn q ≡ given T.broken made
  unfolding new
  spawn-replies q named small answers =
      let made =
        ap (λ o. o.1)
          (valid-spawn D os timestamp s caller (from_caller cert subject q) (refl, named)) in
      spawn-passes T host parse s cert subject q read (fits _ small)
        (subst (Answers T host parse C.spawn_response) (sym made) answers)
      ∙ ap (given T.broken) made

  pub run-shows :
      (cmd : String) (args : List String)
      → cmd ≢ ""
      → let q : SpawnRequest = record { name = cmd; args = args } in
        let out = (D.spawn s caller (spec_of D os timestamp q)).1 in
        Small (C.spawn_request.encode q)
        → Answers T host parse C.spawn_response (reply timestamp (λ j. record { job = some j }) out)
        → main client (Client.run cmd args)
          ≡ shown_answer T.broken (λ job. started_as T.broken job.id.value job.state) out
  unfolding main
  run-shows cmd args named small answers =
      ap (λ r. must_ok r (λ a. with_job a.job (λ j. println j.id)))
        (spawn-replies (record { name = cmd; args = args }) named small answers)
      ∙ id-answer timestamp T.broken _ (λ r. r.job) (λ j. refl) _

  pub logs-shows :
      (id : String)
      → id ≢ ""
      → Small (C.logs_request.encode (record { job_id = id }))
      → main client (Client.logs id)
        ≡ shown_answer T.broken
            (λ rx. play (messages rx))
            (D.logs s caller (record { value = id })).1
  unfolding main new
  logs-shows id named small =
      let l : LogsRequest = record { job_id = id } in
      ap (λ r. must_ok (map_ok messages r) play)
        (logs-passes T host parse s cert subject l read (fits _ small)
          ∙ ap (λ o. given T.broken o.1)
              (valid-logs D os timestamp s caller (from_caller cert subject l) (refl, named)))
      ∙ plays-answer timestamp T.broken messages _

  pub ps-shows :
      (id : String)
      → id ≢ ""
      → let out = (D.ps s caller (record { value = id })).1 in
        Small (C.ps_request.encode (record { job_id = id }))
        → Answers T host parse C.ps_response (reply timestamp (λ j. record { job = some j }) out)
        → main client (Client.ps id)
          ≡ shown_answer T.broken (λ job. shown_as T.broken job.state) out
  unfolding main new
  ps-shows id named small answers =
      let p : PsRequest = record { job_id = id } in
      let made =
        ap (λ o. o.1)
          (valid-ps D os timestamp s caller (from_caller cert subject p) (refl, named)) in
      ap (λ r. must_ok r (λ a. with_job a.job (λ j. printed (print_job j))))
        (ps-passes T host parse s cert subject p read (fits _ small)
            (subst (Answers T host parse C.ps_response) (sym made) answers)
          ∙ ap (given T.broken) made)
      ∙ state-answer timestamp T.broken _ (λ r. r.job) (λ j. refl) _

  pub kill-shows :
      (id : String)
      → id ≢ ""
      → let out = (D.kill s caller (record { value = id })).1 in
        Small (C.kill_request.encode (record { job_id = id }))
        → Answers T host parse C.kill_response (reply timestamp (λ j. record { job = some j }) out)
        → main client (Client.kill id)
          ≡ shown_answer T.broken (λ job. shown_as T.broken job.state) out
  unfolding main new
  kill-shows id named small answers =
      let k : KillRequest = record { job_id = id } in
      let made =
        ap (λ o. o.1)
          (valid-kill D os timestamp s caller (from_caller cert subject k) (refl, named)) in
      ap (λ r. must_ok r (λ a. with_job a.job (λ j. printed (print_job j))))
        (kill-passes T host parse s cert subject k read (fits _ small)
            (subst (Answers T host parse C.kill_response) (sym made) answers)
          ∙ ap (given T.broken) made)
      ∙ state-answer timestamp T.broken _ (λ r. r.job) (λ j. refl) _

  -- The client of a caller whose certificate can be read shows in each of its four commands exactly
  -- what the coordinator, whichever it is, answers to that caller: `run` the id of the job, `ps` and
  -- `kill` its state, `logs` what the stream gives. An error of the coordinator, a panic in it, and a
  -- job that has exited without an exit code are the client's exit code 1, with the status in its log
  -- that the error is turned into, or that of a broken connection. The name of the program and
  -- the ids are not empty, and the requests and the replies are within tonic's limit.
  pub main-shows :
      (cmd : String) (args : List String) (l p k : String)
      → cmd ≢ ""
      → l ≢ ""
      → p ≢ ""
      → k ≢ ""
      → let q : SpawnRequest = record { name = cmd; args = args } in
        let started = (D.spawn s caller (spec_of D os timestamp q)).1 in
        let shown = (D.ps s caller (record { value = p })).1 in
        let killed = (D.kill s caller (record { value = k })).1 in
        Small (C.spawn_request.encode q)
        → Small (C.logs_request.encode (record { job_id = l }))
        → Small (C.ps_request.encode (record { job_id = p }))
        → Small (C.kill_request.encode (record { job_id = k }))
        → Answers T host parse C.spawn_response
            (reply timestamp (λ j. record { job = some j }) started)
        → Answers T host parse C.ps_response (reply timestamp (λ j. record { job = some j }) shown)
        → Answers T host parse C.kill_response
            (reply timestamp (λ j. record { job = some j }) killed)
        → (main client (Client.run cmd args)
            ≡ shown_answer T.broken (λ job. started_as T.broken job.id.value job.state) started)
          × (main client (Client.logs l)
              ≡ shown_answer T.broken
                  (λ rx. play (messages rx))
                  (D.logs s caller (record { value = l })).1)
          × (main client (Client.ps p)
              ≡ shown_answer T.broken (λ job. shown_as T.broken job.state) shown)
          × (main client (Client.kill k)
              ≡ shown_answer T.broken (λ job. shown_as T.broken job.state) killed)
  main-shows cmd args l p k has_cmd has_l has_p has_k a b c d e f g = (
    run-shows cmd args has_cmd a e,
    logs-shows l has_l b,
    ps-shows p has_p c f,
    kill-shows k has_k d g,
  )
