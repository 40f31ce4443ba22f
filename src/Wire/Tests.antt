-- ===== src/Wire/Tests.antt =====
-- Clients of a server with one job, over the network of Plain.
use rust_job_runner.Common.{
  ℕ, String, ◌≡◌, ◌≢◌, refl, none, some, Result, ok, err, List, [], ◌∷◌, arith, lookup, insert, inr,
  eq_iff, All, ◌≤◌, true, ◌==◌, if◌then◌else◌,
}
use rust_job_runner.Types.{OsString, DateTime, Job, exited_with}
use rust_job_runner.Types.Life.{started}
use rust_job_runner.Common.Int.{pos}
use rust_job_runner.Frames.{Bytes}
use rust_job_runner.Spawn.{returned, TokioChild}
use rust_job_runner.Spawn
use rust_job_runner.Tracker.{track, select, child_wait}
use rust_job_runner.Tracker.Requests.{arrived}
use rust_job_runner.Coord.{Memory, empty}
use rust_job_runner.Coord
use rust_job_runner.Coord.Access.{IsStranger}
use rust_job_runner.Pb.{Timestamp, SpawnRequest, LogsRequest, PsRequest, KillRequest}
use rust_job_runner.Grpc.Status.{Status, status, unauthenticated, not_found}
use rust_job_runner.Grpc.Auth.{IsUnknown}
use rust_job_runner.Grpc.Requests.{server_interceptor, show_usize}
use rust_job_runner.Grpc.Service.{Env, memory_coordinator, spec_of}
use rust_job_runner.Client.{stop, println, main}
use rust_job_runner.Client
use rust_job_runner.Wire.{Tonic}
use rust_job_runner.Wire.Server.{Store, StoreServer, serve}
use rust_job_runner.Wire.Stub
use rust_job_runner.Wire.Plain.{Body, plain_codec, plain}
use rust_job_runner.Wire.Served.{incoming, channel_to}
use rust_job_runner.Wire.Passage.{stub-turned_away}
use rust_job_runner.Wire.Callers.{server, connected, stranger-exits, unknown-exits}
use rust_job_runner.Wire.Journey.{after_run, started_job, run-then-ps}
use rust_job_runner.Wire.Seen.{shown_as}
use rust_job_runner.Tracker.Lifecycle.{Later, KeepsState}
use rust_job_runner.Coord.History.{Call, spawns, tracker_turn, after, history}
use rust_job_runner.Coord.Later.{Spares}

abbrev pub parse : Bytes → Result String String
parse [] = err "empty"
parse (b ∷ bs) = if b == 98 then ok "CN=bob" else ok "CN=ann"

abbrev pub ann_cert : Bytes
ann_cert = 97 ∷ []

abbrev bob_cert : Bytes
bob_cert = 98 ∷ []

abbrev pub os : String → OsString
os s = []

abbrev pub timestamp : DateTime → Timestamp
timestamp t = record { seconds = pos t; nanos = 0 }

abbrev child : TokioChild
child = record {
  child = record { id = some 77; stdout = none; stderr = none };
  pid = 77;
  stdout = some 4;
  stderr = some 5;
}

abbrev pub env : Env ℕ
env = record {
  new_id = record { value = "j2" };
  launch = λ c. ok (record { id = some 77; stdout = some 4; stderr = some 5 });
  now = 9;
  accepted = true;
  rx = arrived 8;
  answer = arrived (err "no child");
}

-- The job of ann.
abbrev pub table : Memory
table = record {
  jobs =
      (
        "j1",
        track
            (started (record { value = "j1" }) (record { id = "CN=ann" }) (record { pid = 12 }) 5),
      )
      ∷ [];
}

abbrev pub messages : ℕ → List Client.Message
messages rx = []

abbrev pub net : Tonic Body ℕ plain_codec
net = plain ℕ

abbrev host : StoreServer (Unit {0}) (Store Memory ℕ)
host = server net tt parse os timestamp messages env

abbrev spawn_request : SpawnRequest
spawn_request = record { name = "sleep"; args = "60" ∷ [] }

abbrev ps_request : PsRequest
ps_request = record { job_id = "j1" }

abbrev logs_request : LogsRequest
logs_request = record { job_id = "j1" }

abbrev kill_request : KillRequest
kill_request = record { job_id = "j1" }

pub within : 64 ≤ 4194304
within = omega arith

no_cert_refused :
    server_interceptor parse (record { peer_certs = none; ctx = none; message = tt })
    ≡ err (status unauthenticated "mtls required")
unfolding server_interceptor
no_cert_refused = refl

stub-turned_away_example :
    let channel = channel_to net host parse table none in
    let e = status unauthenticated "mtls required" in
    (Stub.spawn net channel spawn_request ≡ err e)
    × (Stub.logs net channel logs_request ≡ err e)
    × (Stub.ps net channel ps_request ≡ err e)
    × (Stub.kill net channel kill_request ≡ err e)
    × ((path : String) (body : Body)
        → (serve net host (server_interceptor parse) table (incoming none path body)).0 ≡ table)
stub-turned_away_example =
    stub-turned_away net host parse table none (status unauthenticated "mtls required")
      spawn_request logs_request ps_request kill_request no_cert_refused

no_cert-IsUnknown : IsUnknown parse none
no_cert-IsUnknown cert subject e = absurd (ground arith)

unknown-exits_example :
    let store = connected net tt parse os timestamp messages env table none in
    (e : Status) × (e.code ≡ unauthenticated)
    × (main store (Client.run "sleep" []) ≡ stop (Client.exited 1 e))
    × (main store (Client.logs "j1") ≡ stop (Client.exited 1 e))
    × (main store (Client.ps "j1") ≡ stop (Client.exited 1 e))
    × (main store (Client.kill "j1") ≡ stop (Client.exited 1 e))
    × ((path : String) (body : Body)
        → (serve net host (server_interceptor parse) table (incoming none path body)).0 ≡ table)
unknown-exits_example =
    unknown-exits net tt parse os timestamp messages env table none "sleep" "j1" []
      no_cert-IsUnknown

bob-IsStranger :
    IsStranger table (record { user = record { id = "CN=bob" } }) (record { value = "j1" })
unfolding track started lookup
bob-IsStranger = inr (_, refl, λ e. absurd (ground (arith, eq_iff "CN=ann" "CN=bob")))

abbrev pub j1 : String
j1 = "j1"

pub j1_named : j1 ≢ ""
j1_named e = absurd (ground (arith, eq_iff "j1" ""))

stranger-exits_example :
    let store = connected net tt parse os timestamp messages env table (some (bob_cert ∷ [])) in
    let e = status not_found "job not found" in
    (main store (Client.logs "j1") ≡ stop (Client.exited 1 e))
    × (main store (Client.ps "j1") ≡ stop (Client.exited 1 e))
    × (main store (Client.kill "j1") ≡ stop (Client.exited 1 e))
stranger-exits_example =
    stranger-exits net tt parse os timestamp messages env table bob_cert "CN=bob" "j1" refl j1_named
      bob-IsStranger within within within

abbrev j2 : String
j2 = "j2"

j2_named : j2 ≢ ""
j2_named e = absurd (ground (arith, eq_iff j2 ""))

abbrev pub sleep : String
sleep = "sleep"

pub sleep_named : sleep ≢ ""
sleep_named e = absurd (ground (arith, eq_iff sleep ""))

launched :
    Spawn.spawn env.launch
      (Spawn.opts_new (spec_of (memory_coordinator env) os timestamp spawn_request))
    ≡ returned (ok child)
unfolding Spawn.spawn Spawn.opts_new
launched = refl

-- Ann has spawned a job before; later bob spawns one, and the new job of ann exits.
abbrev before : List Call
before =
    spawns (record { user = record { id = "CN=ann" } }) (record { value = "j1" })
      (returned (ok child)) 5
    ∷ []

abbrev later : List Call
later =
    spawns (record { user = record { id = "CN=bob" } }) (record { value = "j3" })
      (returned (ok child)) 10
    ∷ tracker_turn "j2" (select (child_wait (ok (exited_with (pos 0))) 12))
    ∷ []

later-Spares : All (Spares env.new_id) later
later-Spares = (refl, (tt, tt))

j2_fresh : lookup "j2" (history empty before).jobs ≡ none
unfolding lookup history after Coord.spawn empty insert started track
j2_fresh = refl

abbrev table_after : Memory
table_after =
    after_run net tt parse os timestamp messages env (history empty before) ann_cert spawn_request

abbrev store_of : Memory → Client.Store
store_of m = connected net tt parse os timestamp messages env m (some (ann_cert ∷ []))

abbrev new_job : Job
new_job = started_job net tt parse os timestamp messages env "CN=ann" child

run-then-ps_example :
    (main (store_of (history empty before)) (Client.run "sleep" ("60" ∷ [])) ≡ println "j2")
    × (main (store_of table_after) (Client.ps "j2") ≡ println "Running pid=77")
    × ((k : Job) × (main (store_of (history table_after later)) (Client.ps "j2")
          ≡ shown_as net.broken k.state)
        × Later new_job k
        × KeepsState new_job k)
unfolding show_usize
run-then-ps_example =
    run-then-ps net tt parse os timestamp messages env before later ann_cert "CN=ann" "sleep"
      ("60" ∷ []) child refl sleep_named j2_named j2_fresh later-Spares launched within within
      within within (λ r e. within)
