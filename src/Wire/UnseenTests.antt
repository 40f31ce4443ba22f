-- ===== src/Wire/UnseenTests.antt =====
-- Two users of a server, over the network of Plain.
use rust_job_runner.Common.{ℕ, ◌≡◌, refl, none, ok, List, [], ◌∷◌, lookup, insert}
use rust_job_runner.Spawn.{returned}
use rust_job_runner.Coord.{empty, spawn}
use rust_job_runner.Coord.History.{Call, spawns, after, history}
use rust_job_runner.Coord.Purged.{purged, HasNewIds}
use rust_job_runner.Coord.Tests.{ann, bob, j1 as ann_id, j2, child}
use rust_job_runner.Grpc.Service.{Env}
use rust_job_runner.Client.{main}
use rust_job_runner.Client
use rust_job_runner.Wire.Unseen.{client_behind, others_unseen}
use rust_job_runner.Wire.Tests.{
  parse, ann_cert, os, timestamp, env, messages, net, j1, j1_named, sleep_named, within,
}

-- Bob and ann start one job each.
abbrev both : List Call
both = spawns bob j2 (returned (ok child)) 4 ∷ spawns ann ann_id (returned (ok child)) 5 ∷ []

abbrev alone : List Call
alone = spawns ann ann_id (returned (ok child)) 5 ∷ []

both_new : HasNewIds empty both
unfolding empty spawn after lookup insert
both_new = (refl, (refl, tt))

abbrev third : Env ℕ
third = record env { new_id = record { value = "j3" } }

third_free : lookup "j3" (history empty both).jobs ≡ none
unfolding empty spawn history after lookup insert
third_free = refl

others_unseen_example :
    let seen = client_behind net tt parse os timestamp messages third both ann_cert in
    let unseen = client_behind net tt parse os timestamp messages third alone ann_cert in
    (main seen (Client.run "sleep" []) ≡ main unseen (Client.run "sleep" []))
    × (main seen (Client.logs j1) ≡ main unseen (Client.logs j1))
    × (main seen (Client.ps j1) ≡ main unseen (Client.ps j1))
    × (main seen (Client.kill j1) ≡ main unseen (Client.kill j1))
unfolding purged
others_unseen_example =
    others_unseen net tt parse os timestamp messages third both ann_cert "CN=ann" "sleep" j1 [] refl
      sleep_named j1_named both_new third_free within within within within (λ r e. within)
      (λ r e. within) (λ r e. within)
