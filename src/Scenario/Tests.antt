-- ===== src/Scenario/Tests.antt =====
-- The tests of src/proc/coord.rs at one run each.
use rust_job_runner.Common.{◌≡◌, refl, map, none, some, List, [], ◌∷◌, ◌++◌, lookup, insert, All}
use rust_job_runner.Common.Int.{pos}
use rust_job_runner.Types.{Job, exited}
use rust_job_runner.Types.Life.{started}
use rust_job_runner.Frames.{frame, eof}
use rust_job_runner.Tracker.{step, track}
use rust_job_runner.Coord.{empty, get_tracker, spawn, ps}
use rust_job_runner.Coord.History.{Call, after, history}
use rust_job_runner.Coord.Later.{Spares}
use rust_job_runner.Coord.Tests.{ann, j1, ann_job, two_calls, more_calls, shown, more_calls_spare}
use rust_job_runner.Client.Tests.{outs, errs, outs_fit, errs_fit, hi, what, bang, tracked}
use rust_job_runner.Client.TaskTests.{
  queues, all_tasks, rounds_made, over, all_tasks-trace, rounds_made-IsSchedule, over_clean,
  rounds_made_out, rounds_made_errs,
}
use rust_job_runner.Scenario.{no_output, panics, returns, consume, wait_on_job}
use rust_job_runner.Scenario.Awaited.{polls, HasWaited, wait-HasWaited}
use rust_job_runner.Scenario.Demuxed.{given_to, HasDemuxed, run-demuxed}

demuxed :
    consume no_output (map some (frame hi ∷ frame what ∷ frame bang ∷ eof ∷ []))
    ≡ returns (record { out = 104 ∷ 105 ∷ 33 ∷ []; errs = 63 ∷ [] })
unfolding consume
demuxed = refl

-- The relay disappears before the end.
cut_off : consume no_output (some (frame hi) ∷ none ∷ []) ≡ panics
unfolding consume
cut_off = refl

run-demuxed_example :
    All
      (λ r. HasDemuxed over.tracker.sent (104 ∷ 105 ∷ 33 ∷ []) (63 ∷ []) (given_to queues r))
      (over.bcast.relays ++ over.bcast.detached)
run-demuxed_example =
    run-demuxed queues tracked outs errs all_tasks rounds_made all_tasks-trace
      rounds_made-IsSchedule over_clean outs_fit errs_fit rounds_made_out rounds_made_errs

-- The first poll comes too early.
abbrev between : List (List Call)
between = [] ∷ more_calls ∷ []

between_spare : All (All (Spares j1)) between
between_spare = (tt, (more_calls_spare, tt))

abbrev ended : Job
ended = record ann_job { ended_at = some 9; state = exited (record { code = some (pos 0) }) }

awaited : wait_on_job (polls (history empty two_calls) ann j1 between) ≡ returns ended
unfolding wait_on_job ps history after spawn empty get_tracker step track lookup insert started
awaited = refl

wait-HasWaited_example : HasWaited ann_job (polls (history empty two_calls) ann j1 between)
wait-HasWaited_example = wait-HasWaited two_calls between ann j1 ann_job shown between_spare
