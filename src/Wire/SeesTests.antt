-- ===== src/Wire/SeesTests.antt =====
-- The owner of a job that runs asks for it and kills it, over the network of Plain.
use rust_job_runner.Common.{◌≡◌, refl, true, some, ok, [], ◌∷◌, lookup}
use rust_job_runner.Common.Int.{pos}
use rust_job_runner.Types.{Job, exited}
use rust_job_runner.Types.Life.{started}
use rust_job_runner.Tracker.{track}
use rust_job_runner.Tracker.Requests.{arrived}
use rust_job_runner.Grpc.Requests.{show_usize}
use rust_job_runner.Client.{println, main}
use rust_job_runner.Client
use rust_job_runner.Client.Show.{show_i32}
use rust_job_runner.Wire.Callers.{connected}
use rust_job_runner.Wire.OwnerSees.{owner-sees}
use rust_job_runner.Wire.Tests.{
  parse, ann_cert, os, timestamp, env, table, messages, net, j1, j1_named, within,
}

abbrev runs : Job
runs = started (record { value = "j1" }) (record { id = "CN=ann" }) (record { pid = 12 }) 5

abbrev ended : Job
ended = record runs { state = exited (record { code = some (pos 3) }) }

found : lookup j1 table.jobs ≡ some (track runs)
unfolding lookup
found = refl

runs_of_ann : runs.user.id ≡ "CN=ann"
unfolding started
runs_of_ann = refl

tracked_of_ann : (track runs).job.user.id ≡ "CN=ann"
unfolding track started
tracked_of_ann = refl

owner-sees_example :
    let store =
      connected net tt parse os timestamp messages
        (record env { accepted = true; answer = arrived (ok ended) })
        table
        (some (ann_cert ∷ [])) in
    (main store (Client.ps j1) ≡ println "Running pid=12")
    × (main store (Client.kill j1) ≡ println "Exited code=3")
unfolding show_usize show_i32 track started
owner-sees_example =
    owner-sees net tt parse os timestamp messages
      (record env { accepted = true; answer = arrived (ok ended) }) table ann_cert "CN=ann" j1
      (track runs) refl j1_named found tracked_of_ann within within (λ r e. within) (λ r e. within)
