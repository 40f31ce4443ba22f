-- ===== src/Runtime/Tests.antt =====
-- A run of all tasks of a job, over bounded queues.
use rust_job_runner.Common.{◌≡◌, refl, true, none, some, ok, List, [], ◌∷◌, ◌++◌, All, suc, length}
use rust_job_runner.Common.Int.{pos}
use rust_job_runner.Types.{Job, running, exited_with}
use rust_job_runner.Frames.{FrameEvent, frame, eof, stdout, stderr}
use rust_job_runner.Channel.{Bounded, bounded, Mpsc}
use rust_job_runner.Relay.{Relay, FrameRequest, Turn, deliver, client_reads}
use rust_job_runner.Relay.Progress.{rounds}
use rust_job_runner.Tracker.{complete}
use rust_job_runner.Tracker
use rust_job_runner.Broadcast
use rust_job_runner.Relay
use rust_job_runner.Output.{frame_new}
use rust_job_runner.Broadcast.Port.{RelayPort}
use rust_job_runner.Broadcast.Clients.{relay_port, IsServed}
use rust_job_runner.Runtime.{
  Runtime, Step, wake, receive, request, held, output, exit, end, start, step, run,
}
use rust_job_runner.Runtime.Flow.{run-IsLinked}
use rust_job_runner.Runtime.Link.{IsLinked}
use rust_job_runner.Runtime.Played.{run-IsPlayed}
use rust_job_runner.Runtime.Drained.{receives, run-replays}

abbrev queues : Mpsc FrameEvent
queues = bounded FrameEvent

abbrev port : RelayPort (Relay (Bounded FrameEvent)) FrameRequest
port = relay_port queues

abbrev job : Job
job = record {
  id = record { value = "j1" };
  user = record { id = "CN=ann" };
  killed = none;
  started_at = 5;
  ended_at = none;
  state = running (record { pid = 77 });
}

abbrev hello : FrameEvent
hello = frame (record { kind = stdout; bs = 104 ∷ 105 ∷ [] })

abbrev waits : FrameRequest
waits = record { waiting = true }

-- A line, a client that reads it, and the end, of which the broadcaster has seen nothing yet. The
-- fourth step finds no frame.
abbrev whole_run : List (Step FrameRequest Turn)
whole_run =
    request waits
    ∷ wake (output stdout (some (ok (104 ∷ 105 ∷ []))))
    ∷ receive
    ∷ receive
    ∷ held 0 deliver
    ∷ held 0 client_reads
    ∷ wake (output stdout none)
    ∷ wake (exit (ok (exited_with (pos 0))) 9)
    ∷ wake (output stderr none)
    ∷ wake end
    ∷ []

abbrev final : Runtime (Bounded FrameEvent) (Relay (Bounded FrameEvent))
final = run queues port (start queues port job) whole_run

whole_run_over : final.tracker.phase ≡ complete
unfolding run step start Tracker.track Broadcast.turn Broadcast.new Relay.start Tracker.step
whole_run_over = refl

whole_run_sent : final.tracker.sent ≡ hello ∷ eof ∷ []
unfolding run step start Tracker.track Broadcast.turn Broadcast.new Relay.start Tracker.step
    frame_new
whole_run_sent = refl

run-IsLinked_example : IsLinked queues port final
run-IsLinked_example = run-IsLinked queues port job whole_run

run-IsPlayed_example :
    All (IsServed queues final.tracker.sent) (final.bcast.relays ++ final.bcast.detached)
run-IsPlayed_example = run-IsPlayed queues job whole_run

abbrev drained : Runtime (Bounded FrameEvent) (Relay (Bounded FrameEvent))
drained = run queues port final (receives (suc (length final.frames.items)))

run-replays_example :
    (r : Relay (Bounded FrameEvent)) × ((step queues port drained (request waits)).bcast.detached
      ≡ drained.bcast.detached ++ r ∷ [])
    × ((rounds queues (length final.tracker.sent) r).taken ≡ final.tracker.sent)
run-replays_example = run-replays queues job whole_run waits whole_run_over refl
