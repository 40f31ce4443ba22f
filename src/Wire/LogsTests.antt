-- ===== src/Wire/LogsTests.antt =====
-- The owner of a job that is over reads its output, over the network of Plain.
use rust_job_runner.Common.{◌≡◌, refl, true, some, err, [], ◌∷◌, ◌++◌, length, lookup}
use rust_job_runner.Frames.{FrameEvent}
use rust_job_runner.Channel.{Bounded}
use rust_job_runner.Relay.{Relay}
use rust_job_runner.Tracker.Requests.{arrived, elapsed}
use rust_job_runner.Runtime.{request}
use rust_job_runner.Runtime
use rust_job_runner.Coord.{Memory}
use rust_job_runner.Grpc.Service.{Env}
use rust_job_runner.Client.{done, main}
use rust_job_runner.Client
use rust_job_runner.Client.Demux.{HasShown}
use rust_job_runner.Client.Tests.{outs, errs, outs_fit, errs_fit, tracked}
use rust_job_runner.Client.TaskTests.{
  queues, port, waits, drained, all_tasks, rounds_made, over, all_tasks-trace,
  rounds_made-IsSchedule, over_clean, rounds_made_out, rounds_made_errs,
}
use rust_job_runner.Wire.{Tonic}
use rust_job_runner.Wire.Plain.{Body, plain_codec, plain}
use rust_job_runner.Wire.Callers.{connected}
use rust_job_runner.Wire.OwnerLogs.{stream_of_relay, owner-HasShown}
use rust_job_runner.Wire.Tests.{parse, ann_cert, os, timestamp, j1, j1_named, within}

abbrev net : Tonic Body (Relay (Bounded FrameEvent)) plain_codec
net = plain (Relay (Bounded FrameEvent))

abbrev env : Env (Relay (Bounded FrameEvent))
env = record {
  new_id = record { value = "j2" };
  launch = λ c. err "not found";
  now = 30;
  accepted = true;
  rx = elapsed;
  answer = elapsed;
}

abbrev table : Memory
table = record { jobs = (j1, over.tracker) ∷ [] }

found : lookup j1 table.jobs ≡ some over.tracker
unfolding lookup
found = refl

owner-HasShown_example :
    let plays = stream_of_relay queues "closed" (length over.tracker.sent) in
    (r : Relay (Bounded FrameEvent)) × ((Runtime.step queues port drained
        (request waits)).bcast.detached
      ≡ drained.bcast.detached ++ r ∷ [])
    × HasShown
        (main
          (connected net tt parse os timestamp plays
            (record env { accepted = true; rx = arrived r })
            table
            (some (ann_cert ∷ [])))
          (Client.logs j1))
        (104 ∷ 105 ∷ 33 ∷ [])
        (63 ∷ [])
        done
owner-HasShown_example =
    owner-HasShown queues net tt parse os timestamp tracked "closed" outs errs all_tasks rounds_made
      waits env table ann_cert j1 all_tasks-trace rounds_made-IsSchedule over_clean outs_fit
      errs_fit rounds_made_out rounds_made_errs refl refl j1_named found within
