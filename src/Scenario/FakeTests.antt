-- ===== src/Scenario/FakeTests.antt =====
-- The test `spawn_simple` of src/grpc.rs, over the network of Plain.
use rust_job_runner.Common.{String, ◌≡◌, refl, Result, ok, err, [], ◌∷◌, str_eq, if◌then◌else◌}
use rust_job_runner.Frames.{Bytes}
use rust_job_runner.Spawn.{panicked}
use rust_job_runner.Client.{println, stop, main}
use rust_job_runner.Client
use rust_job_runner.Setup.Dial.{ClientTlsConfig}
use rust_job_runner.Wire.Plain.{plain, broken}
use rust_job_runner.Wire.Tests.{parse, ann_cert, os, timestamp, j1, j1_named, sleep_named, within}
use rust_job_runner.Wire.Commands.{main-shows}
use rust_job_runner.Scenario.Fake.{fake_coord, Test, spawn_simple}
use rust_job_runner.Scenario.Faked.{client_of}

-- The client's certificate is that of ann, and all other files hold the same.
abbrev read : String → Result Bytes String
read p = if str_eq p "data/tls/client1.pem" then ok ann_cert else ok (49 ∷ [])

abbrev debug : String → String
debug p = p

abbrev any_uri : String → Result String String
any_uri e = ok e

abbrev any_tls : String → ClientTlsConfig → Result (Unit {0}) String
any_tls e tls = ok tt

-- Only the endpoint of the server leads to it.
abbrev connects : Test (Unit {0}) → String → ClientTlsConfig → Result Client.Store String
connects test endpoint tls =
    if str_eq endpoint "https://127.0.0.1:5000"
    then ok (client_of (plain (Unit {0})) tt parse os timestamp (λ rx. []) 7 tls.identity.cert)
    else err "connection refused"

-- The test panics when its client finds no server.
elsewhere : spawn_simple read debug any_uri any_tls connects 7 "127.0.0.1:5001" ≡ panicked
unfolding spawn_simple
elsewhere = refl

main-shows_example :
    let store = client_of (plain (Unit {0})) tt parse os timestamp (λ rx. []) 7 ann_cert in
    (main store (Client.run "sleep" []) ≡ println "job-id")
    × (main store (Client.logs j1) ≡ stop (Client.exited 1 broken))
    × (main store (Client.ps j1) ≡ stop (Client.exited 1 broken))
    × (main store (Client.kill j1) ≡ stop (Client.exited 1 broken))
main-shows_example =
    main-shows (plain (Unit {0})) tt parse os timestamp (λ rx. []) (fake_coord 7) tt ann_cert
      "CN=ann" refl "sleep" [] j1 j1 j1 sleep_named j1_named j1_named j1_named within within within
      within (λ r e. within) (λ r e. within) (λ r e. within)
