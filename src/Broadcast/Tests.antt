-- ===== src/Broadcast/Tests.antt =====
-- Runs of the broadcaster with relays over bounded queues.
use rust_job_runner.Common.{
  ◌≡◌, refl, true, false, none, some, List, [], ◌∷◌, ◌++◌, map, All, not, ◌&&◌,
}
use rust_job_runner.Frames.{FrameEvent, frame, eof, stdout}
use rust_job_runner.Channel.{Bounded, bounded}
use rust_job_runner.Relay.{
  FrameRequest, Turn, receive, deliver, client_reads, client_leaves, Relay, looping,
}
use rust_job_runner.Relay
use rust_job_runner.Broadcast.Port.{RelayPort}
use rust_job_runner.Broadcast.{frame_rx, req_rx, new, turn, retain}
use rust_job_runner.Broadcast.System.{Event, step, broadcaster, held_acts, run}
use rust_job_runner.Broadcast.Buffer.{received, HasBranch, frames_end, requests_end, run-looping}
use rust_job_runner.Relay.Progress.{rounds}
use rust_job_runner.Broadcast.CaughtUp.{run-rounds}
use rust_job_runner.Broadcast.Clients.{relay_port, IsServed, run-IsServed}

abbrev port : RelayPort (Relay (Bounded FrameEvent)) FrameRequest
port = relay_port (bounded FrameEvent)

abbrev hello : FrameEvent
hello = frame (record { kind = stdout; bs = 104 ∷ 105 ∷ [] })

-- A client joins behind the first frame; a second one leaves before the end.
abbrev two_clients : List (Event FrameRequest Turn)
two_clients =
    broadcaster (frame_rx (some hello))
    ∷ broadcaster (req_rx (some (record { waiting = true })))
    ∷ held_acts 0 deliver
    ∷ held_acts 0 client_reads
    ∷ broadcaster (req_rx (some (record { waiting = true })))
    ∷ held_acts 1 client_leaves
    ∷ held_acts 1 deliver
    ∷ broadcaster (frame_rx (some eof))
    ∷ held_acts 0 receive
    ∷ held_acts 0 deliver
    ∷ held_acts 0 client_reads
    ∷ broadcaster (frame_rx none)
    ∷ []

two_clients_read :
    map (λ r. r.taken) (run port new two_clients).detached ≡ [] ∷ (hello ∷ eof ∷ []) ∷ []
unfolding run step turn new Relay.start Relay.accept Relay.release Relay.turn retain
two_clients_read = refl

run-IsServed_example :
    All
      (IsServed (bounded FrameEvent) (received port two_clients))
      ((run port new two_clients).relays ++ (run port new two_clients).detached)
run-IsServed_example = run-IsServed (bounded FrameEvent) two_clients

run-looping_example :
    ((run port new two_clients).looping
      ≡ not (frames_end port two_clients && requests_end port two_clients))
    × HasBranch port (run port new two_clients)
run-looping_example = run-looping port two_clients

-- A client that has joined behind the first frame.
abbrev joined : List (Event FrameRequest Turn)
joined =
    broadcaster (frame_rx (some hello))
    ∷ broadcaster (req_rx (some (record { waiting = true })))
    ∷ []

abbrev joined_relay : Relay (Bounded FrameEvent)
joined_relay = record {
  inbox = record { room = 1023; items = []; handles = 2; hung_up = false };
  client = record { room = 1023; items = []; handles = 1; hung_up = false };
  frames = hello ∷ [];
  to_send = none;
  drain = false;
  phase = looping;
  attached = true;
  offered = hello ∷ [];
  taken = [];
}

joined_relays : (run port new joined).relays ≡ joined_relay ∷ []
unfolding run step turn new Relay.start retain
joined_relays = refl

run-rounds_example : (rounds (bounded FrameEvent) 1 joined_relay).taken ≡ hello ∷ []
run-rounds_example = run-rounds (bounded FrameEvent) joined [] [] joined_relay joined_relays refl

-- The job is over, and a client asks for its logs.
abbrev over : List (Event FrameRequest Turn)
over =
    broadcaster (frame_rx (some hello))
    ∷ broadcaster (frame_rx (some eof))
    ∷ broadcaster (frame_rx none)
    ∷ []

over_shut : (run port new over).frame_rx_ok ≡ false
unfolding run step turn new retain
over_shut = refl

over_open : (run port new over).req_rx_ok ≡ true
unfolding run step turn new retain
over_open = refl
