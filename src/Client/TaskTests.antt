-- ===== src/Client/TaskTests.antt =====
-- A run of all tasks of a job, and a client that comes when it is over.
use rust_job_runner.Common.{◌≡◌, refl, true, none, some, ok, List, [], ◌∷◌, length, suc}
use rust_job_runner.Common.Int.{pos}
use rust_job_runner.Types.{exited_with}
use rust_job_runner.Frames.{FrameEvent, stdout, stderr}
use rust_job_runner.Output.{consume}
use rust_job_runner.Output.Stream.{stream_of}
use rust_job_runner.Tracker.{stdout_rx, stderr_rx, child_wait, Event, select, track, run}
use rust_job_runner.Tracker
use rust_job_runner.Tracker.Passed.{IsSchedule}
use rust_job_runner.Channel.{Bounded, bounded, Mpsc}
use rust_job_runner.Relay.{Relay, FrameRequest, Turn, deliver}
use rust_job_runner.Relay
use rust_job_runner.Broadcast
use rust_job_runner.Broadcast.Port.{RelayPort}
use rust_job_runner.Broadcast.Clients.{relay_port}
use rust_job_runner.Output.{frame_new}
use rust_job_runner.Runtime.{Runtime, Step, wake, receive, request, held, output, exit, end, start}
use rust_job_runner.Runtime
use rust_job_runner.Runtime.Trace.{trace}
use rust_job_runner.Runtime.Drained.{receives}
use rust_job_runner.Client.EndToEnd.{from_stdout, from_stderr, to_the_end}
use rust_job_runner.Broadcast.System
use rust_job_runner.Client.Tests.{outs, errs, hi, what, bang, tracked}

abbrev pub queues : Mpsc FrameEvent
queues = bounded FrameEvent

abbrev pub port : RelayPort (Relay (Bounded FrameEvent)) FrameRequest
port = relay_port queues

abbrev pub waits : FrameRequest
waits = record { waiting = true }

-- One client reads along; the third output finds no room, and is tried again behind a receive.
abbrev pub all_tasks : List (Step FrameRequest Turn)
all_tasks =
    wake (output stdout (some (ok (104 ∷ 105 ∷ []))))
    ∷ request waits
    ∷ wake (exit (ok (exited_with (pos 0))) 9)
    ∷ wake (output stderr (some (ok (63 ∷ []))))
    ∷ wake (output stdout (some (ok (33 ∷ []))))
    ∷ receive
    ∷ held 0 deliver
    ∷ wake (output stdout (some (ok (33 ∷ []))))
    ∷ wake (output stderr none)
    ∷ wake (output stdout none)
    ∷ receive
    ∷ wake end
    ∷ []

abbrev pub rounds_made : List Event
rounds_made =
    select (stdout_rx (some (ok hi)) true)
    ∷ select (child_wait (ok (exited_with (pos 0))) 9)
    ∷ select (stderr_rx (some (ok what)) true)
    ∷ select (stdout_rx (some (ok bang)) true)
    ∷ select (stderr_rx none true)
    ∷ select (stdout_rx none true)
    ∷ []

pub all_tasks-trace :
    trace queues port (start queues port tracked) all_tasks ≡ to_the_end rounds_made
unfolding run start track Runtime.step Tracker.step Broadcast.turn Broadcast.new Relay.start
    frame_new System.step
all_tasks-trace = refl

pub rounds_made-IsSchedule : IsSchedule (track tracked) (to_the_end rounds_made)
unfolding track Tracker.step
rounds_made-IsSchedule = (refl, (refl, (refl, (refl, (refl, (refl, (tt, tt)))))))

abbrev pub over : Runtime (Bounded FrameEvent) (Relay (Bounded FrameEvent))
over = Runtime.run queues port (start queues port tracked) all_tasks

pub over_clean : over.tracker.loop_err ≡ none
unfolding Runtime.run start track Runtime.step Tracker.step Broadcast.turn Broadcast.new Relay.start
    frame_new System.step
over_clean = refl

pub rounds_made_out : from_stdout rounds_made ≡ (consume stdout (stream_of outs)).0
unfolding consume
rounds_made_out = refl

pub rounds_made_errs : from_stderr rounds_made ≡ (consume stderr (stream_of errs)).0
unfolding consume
rounds_made_errs = refl

abbrev pub drained : Runtime (Bounded FrameEvent) (Relay (Bounded FrameEvent))
drained = Runtime.run queues port over (receives (suc (length over.frames.items)))
