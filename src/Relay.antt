-- ===== src/Relay.antt =====
-- src/proc/coord.rs: `FrameRelay`, the task that plays frames to one client of the logs API.
-- A relay has two channels: `inbox`, from the broadcaster, and `client`, to the reader of the logs.
pub mod Order
pub mod Delivery
pub mod Progress
mod Tests
use rust_job_runner.Common.{
  ℕ, Bool, true, false, Option, none, some, List, [], ◌∷◌, ◌++◌, if◌then◌else◌,
}
use rust_job_runner.Frames.{FrameEvent}
use rust_job_runner.Channel.{Recv, pending, closed, got, Send, full, refused, sent, Mpsc}

-- Where `relay` stands: in its select loop, in the drain after it, or returned.
pub data Phase : Type 0 where
  looping draining ended : Phase

-- The relay's task with its two channels. `attached` says that the client holds its receiver.
-- `offered` and `taken` are records of the past: what the relay was given, and what the client read.
pub record Relay (C : Type 0) : Type 0 where
  pub inbox : C
  pub client : C
  pub frames : List FrameEvent
  pub to_send : Option FrameEvent
  pub drain : Bool
  pub phase : Phase
  pub attached : Bool
  pub offered : List FrameEvent
  pub taken : List FrameEvent

-- `FrameRequest`: whether the other half of its oneshot still waits for the receiver.
pub record FrameRequest : Type 0 where
  pub waiting : Bool

-- A turn of the select loop or of the drain, or an action of the client.
pub data Turn : Type 0 where
  receive : Turn
  deliver : Turn
  client_reads : Turn
  client_leaves : Turn

abbrev pub channel_size : ℕ
channel_size = 1024

-- `if to_send.is_none() { to_send = frames.pop_front(); }`
unfoldable pub pop_front : Option FrameEvent → List FrameEvent → Option FrameEvent × List FrameEvent
pop_front (some ev) frames = (some ev, frames)
pop_front none [] = (none, [])
pop_front none (ev ∷ frames) = (some ev, frames)

module _ (M : Mpsc FrameEvent) where
  open M use {Chan, channel, clone_tx, drop_tx, drop_rx, try_send, send, recv}

  -- `FrameRelay::start`: `None` if the requester has gone. The task gets a clone of the relay, so
  -- two senders of the inbox live on: the caller's and the task's.
  unfoldable pub start : List FrameEvent → FrameRequest → Option (Relay Chan)
  start frames req =
      if req.waiting
      then some (record {
        inbox = clone_tx (channel channel_size);
        client = channel channel_size;
        frames = frames;
        to_send = none;
        drain = false;
        phase = looping;
        attached = true;
        offered = frames;
        taken = [];
      })
      else none

  -- `FrameRelay::accept`
  unfoldable pub accept : Relay Chan → FrameEvent → Relay Chan × Bool
  accept r ev = elim (try_send r.inbox ev) [
    | none ↦ (r, false)
    | some inbox ↦ (record r { inbox = inbox; offered = r.offered ++ ev ∷ [] }, true)
  ]

  -- The drop of the `FrameRelay` that the broadcaster holds.
  unfoldable pub release : Relay Chan → Relay Chan
  release r = record r { inbox = drop_tx r.inbox }

  -- `relay` returns: `self`, `frame_tx` and `frame_rx` are dropped.
  pub finish : Relay Chan → Relay Chan
  finish r = record r {
    phase = ended;
    inbox = drop_rx (drop_tx r.inbox);
    client = drop_tx r.client;
  }

  -- The head of each iteration.
  pub refill : Relay Chan → Relay Chan
  unfolding pop_front
  refill r =
      let (to_send, frames) = pop_front r.to_send r.frames in
      record r { to_send = to_send; frames = frames }

  -- The branch of `frame_rx.recv()`.
  pub on_recv : Relay Chan → Recv Chan FrameEvent → Relay Chan
  on_recv r pending = r
  on_recv r closed = record r { drain = true; phase = draining }
  on_recv r (got ev inbox) = record r { inbox = inbox; frames = r.frames ++ ev ∷ [] }

  -- The branch that sends `to_send`, on each outcome of the send.
  pub on_send : Relay Chan → Send Chan → Relay Chan
  unfolding finish
  on_send r full = r
  on_send r refused = finish r
  on_send r (sent client) = record r { client = client; to_send = none }

  -- `if to_send.is_some()`: the branch is off with nothing to send.
  pub try_deliver : Relay Chan → Option FrameEvent → Relay Chan
  unfolding on_send
  try_deliver r none = r
  try_deliver r (some ev) = on_send r (send r.client ev)

  -- One send of the drain. Its result is ignored.
  pub on_drain : Relay Chan → Send Chan → Relay Chan
  on_drain r full = r
  on_drain r refused = record r { to_send = none }
  on_drain r (sent client) = record r { client = client; to_send = none }

  -- `for frame in to_send.into_iter().chain(frames)`
  pub drain_next : Relay Chan → Option FrameEvent → Relay Chan
  unfolding on_drain finish
  drain_next r none = finish r
  drain_next r (some ev) = on_drain r (send r.client ev)

  pub task_turn : Phase → Turn → Relay Chan → Relay Chan
  unfolding refill on_recv try_deliver drain_next
  task_turn looping receive r = let r' = refill r in on_recv r' (recv r'.inbox)
  task_turn looping deliver r = let r' = refill r in try_deliver r' r'.to_send
  task_turn draining deliver r = let r' = refill r in drain_next r' r'.to_send
  task_turn _ _ r = r

  -- `records.recv()` in the reader of the logs.
  pub on_read : Relay Chan → Recv Chan FrameEvent → Relay Chan
  on_read r pending = r
  on_read r closed = r
  on_read r (got ev client) = record r { client = client; taken = r.taken ++ ev ∷ [] }

  pub client_turn : Bool → Turn → Relay Chan → Relay Chan
  unfolding on_read
  client_turn true client_reads r = on_read r (recv r.client)
  client_turn true client_leaves r = record r { client = drop_rx r.client; attached = false }
  client_turn _ _ r = r

  -- Who acts: the task or the client.
  unfoldable pub turn : Relay Chan → Turn → Relay Chan
  unfolding task_turn client_turn
  turn r receive = task_turn r.phase receive r
  turn r deliver = task_turn r.phase deliver r
  turn r client_reads = client_turn r.attached client_reads r
  turn r client_leaves = client_turn r.attached client_leaves r

  pub turns : Relay Chan → List Turn → Relay Chan
  turns r [] = r
  turns r (t ∷ ts) = turns (turn r t) ts
