-- ===== src/Runtime.antt =====
-- src/proc/coord.rs: the tasks of one job together, as `JobTracker::track` starts them: the tracker,
-- the channel of two frames, and the broadcaster with its relays.
pub mod Wakes
pub mod Link
pub mod Rounds
pub mod Flow
pub mod Turns
pub mod Trace
pub mod Played
pub mod Drained
mod Tests
use rust_job_runner.Common.{
  ℕ, Bool, true, false, ◌&&◌, Option, none, some, Result, ok, err, List, [], ◌∷◌, if◌then◌else◌,
}
use rust_job_runner.Types.{Job, ProcessExit, DateTime}
use rust_job_runner.Frames.{
  StreamKind, stdout, stderr, Frame, FrameEvent, frame, TrackerError, read_output, IoError, Bytes,
}
use rust_job_runner.Channel.{Recv, pending, closed, got, Send, full, refused, sent, Mpsc}
use rust_job_runner.Output.{frame_new}
use rust_job_runner.Tracker.{
  Phase, looping, broken, complete, KillRequest, Tracker, stdout_rx, stderr_rx, kill_rx, child_wait,
  select, epilogue, track, terminal,
}
use rust_job_runner.Tracker
use rust_job_runner.Broadcast.Port.{RelayPort}
use rust_job_runner.Broadcast.{Bcast, frame_rx, req_rx, new, turn}
use rust_job_runner.Broadcast.System.{broadcaster, held_acts, free_acts}
use rust_job_runner.Broadcast.System

-- What wakes the tracker. An output stream gives what its reader (Output) sends: the bytes of a
-- frame, a read error, or the end.
pub data Wake : Type 0 where
  output : StreamKind → Option (Result Bytes IoError) → Wake
  kill_request : Option KillRequest → Result (Unit {0}) IoError → DateTime → Wake
  exit : Result ProcessExit IoError → DateTime → Wake
  end : Wake

abbrev pub item : StreamKind → Option (Result Bytes IoError) → Option (Result Frame TrackerError)
item kind none = none
item kind (some (ok bs)) = some (ok (frame_new kind bs))
item kind (some (err e)) = some (err (read_output kind e))

-- The round of the tracker, given whether its send is `Ok`.
abbrev pub to_event : Bool → Wake → Tracker.Event
to_event accepted (output stdout o) = select (stdout_rx (item stdout o) accepted)
to_event accepted (output stderr o) = select (stderr_rx (item stderr o) accepted)
to_event accepted (kill_request req killed now) = select (kill_rx req killed now)
to_event accepted (exit status now) = select (child_wait status now)
to_event accepted end = epilogue accepted

abbrev pub stream_ok : StreamKind → Tracker → Bool
stream_ok stdout t = t.stdout_ok
stream_ok stderr t = t.stderr_ok

-- What the round sends to the broadcaster.
abbrev pub outgoing : Phase → Wake → Tracker → Option FrameEvent
outgoing looping (output kind (some (ok bs))) t =
    if stream_ok kind t then some (frame (frame_new kind bs)) else none
outgoing broken end t = some (terminal t.loop_err)
outgoing _ _ t = none

pub record Runtime (C R : Type 0) : Type 0 where
  pub tracker : Tracker
  pub frames : C
  pub bcast : Bcast R

-- A step of one of the tasks. `request` is a message on the channel of requests; the task of the
-- broadcaster keeps a sender of it, in `self`, so that its `recv` does not give `None`.
pub data Step (Req Act : Type 0) : Type 0 where
  wake : Wake → Step Req Act
  receive : Step Req Act
  request : Req → Step Req Act
  held : ℕ → Act → Step Req Act
  free : ℕ → Act → Step Req Act

module _ {R Req : Type 0} (M : Mpsc FrameEvent) (P : RelayPort R Req) where
  open M use {Chan, channel, drop_tx, drop_rx, send, recv}
  open P use {Act}

  -- `JobTracker::track`, and `FrameBroadcaster::start`
  unfoldable pub start : Job → Runtime Chan R
  start job = record { tracker = track job; frames = channel 2; bcast = new }

  -- `frame_tx` is dropped when `wait` returns, and `frame_rx` when `bcast` does.
  abbrev pub without_tx : Phase → Chan → Chan
  without_tx complete c = drop_tx c
  without_tx _ c = c

  abbrev pub without_rx : Bool → Chan → Chan
  without_rx true c = c
  without_rx false c = drop_rx c

  -- The tracker's round with the outcome of its send. With no room yet it waits.
  pub on_send : Wake → Runtime Chan R → Send Chan → Runtime Chan R
  on_send w s full = s
  on_send w s refused =
      let t = Tracker.step s.tracker (to_event false w) in
      record s { tracker = t; frames = without_tx t.phase s.frames }
  on_send w s (sent c) =
      let t = Tracker.step s.tracker (to_event true w) in
      record s { tracker = t; frames = without_tx t.phase c }

  pub on_wake : Wake → Runtime Chan R → Option FrameEvent → Runtime Chan R
  unfolding on_send
  on_wake w s none = record s { tracker = Tracker.step s.tracker (to_event true w) }
  on_wake w s (some ev) = on_send w s (send s.frames ev)

  -- The broadcaster's round with what its receiver gives.
  pub on_recv : Runtime Chan R → Recv Chan FrameEvent → Runtime Chan R
  on_recv s pending = s
  on_recv s closed =
      let b = turn P s.bcast (frame_rx none) in
      record s { bcast = b; frames = without_rx b.looping s.frames }
  on_recv s (got ev c) =
      let b = turn P s.bcast (frame_rx (some ev)) in
      record s { bcast = b; frames = without_rx b.looping c }

  pub on_receive : Runtime Chan R → Bool → Runtime Chan R
  unfolding on_recv
  on_receive s true = on_recv s (recv s.frames)
  on_receive s false = s

  pub on_request : Req → Runtime Chan R → Runtime Chan R
  on_request q s =
      let b = turn P s.bcast (req_rx (some q)) in
      record s { bcast = b; frames = without_rx b.looping s.frames }

  unfoldable pub step : Runtime Chan R → Step Req Act → Runtime Chan R
  unfolding on_wake on_receive on_request
  step s (wake w) = on_wake w s (outgoing s.tracker.phase w s.tracker)
  step s receive = on_receive s (s.bcast.looping && s.bcast.frame_rx_ok)
  step s (request q) = on_request q s
  step s (held i a) = record s { bcast = System.step P s.bcast (held_acts i a) }
  step s (free i a) = record s { bcast = System.step P s.bcast (free_acts i a) }

  unfoldable pub run : Runtime Chan R → List (Step Req Act) → Runtime Chan R
  run s [] = s
  run s (e ∷ es) = run (step s e) es
