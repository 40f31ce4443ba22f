-- ===== src/Relay/Tests.antt =====
-- Runs of a relay over a bounded queue.
use rust_job_runner.Common.{◌≡◌, refl, true, false, none, [], ◌∷◌}
use rust_job_runner.Frames.{FrameEvent, frame, eof, stdout}
use rust_job_runner.Channel.{Bounded, bounded}
use rust_job_runner.Relay.{Relay, receive, deliver, client_reads, looping, turn, turns}
use rust_job_runner.Relay.Order.{IsOrdered}

abbrev hello : FrameEvent
hello = frame (record { kind = stdout; bs = 104 ∷ 105 ∷ [] })

abbrev playing : Relay (Bounded FrameEvent)
playing = record {
  inbox = record { room = 1023; items = eof ∷ []; handles = 2; hung_up = false };
  client = record { room = 1023; items = []; handles = 1; hung_up = false };
  frames = hello ∷ [];
  to_send = none;
  drain = false;
  phase = looping;
  attached = true;
  offered = hello ∷ eof ∷ [];
  taken = [];
}

playing-IsOrdered : IsOrdered (bounded FrameEvent) 1 playing
playing-IsOrdered = record {
  order = λ _. refl;
  heard = λ _. refl;
  fed = λ _. refl;
  owned = λ _. refl;
  shut = λ h. cc;
  left = λ h. cc;
  never_drains = λ h. cc;
  drain_unset = refl;
}

read_all :
    (turns
      (bounded FrameEvent)
      playing
      (receive ∷ deliver ∷ deliver ∷ client_reads ∷ client_reads ∷ [])).taken
    ≡ hello ∷ eof ∷ []
unfolding turns turn
read_all = refl
