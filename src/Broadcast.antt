-- ===== src/Broadcast.antt =====
-- src/proc/coord.rs: `FrameBroadcaster::bcast`, the task that buffers a job's frames and hands them
-- to the relays of its clients. What it uses of a relay is the interface `RelayPort` of Port.
pub mod Port
pub mod Streams
pub mod System
pub mod Clients
pub mod CaughtUp
pub mod Late
mod Tests
pub mod Buffer
use rust_job_runner.Common.{
  Bool, true, false, not, ◌&&◌, Option, none, some, List, [], ◌∷◌, ◌++◌, map, if◌then◌else◌,
}
use rust_job_runner.Frames.{FrameEvent}
use rust_job_runner.Broadcast.Port.{RelayPort}

-- The locals of `bcast`. `detached` holds the relays whose handle was dropped: their tasks live on.
pub record Bcast (R : Type 0) : Type 0 where
  pub frames : List FrameEvent
  pub relays : List R
  pub frame_rx_ok : Bool
  pub req_rx_ok : Bool
  pub looping : Bool
  pub detached : List R

-- The branch that `select!` takes, with what its `recv` gave.
pub data Select (Req : Type 0) : Type 0 where
  frame_rx : Option FrameEvent → Select Req
  req_rx : Option Req → Select Req

unfoldable pub new : {R : Type 0} → Bcast R
new = record {
  frames = [];
  relays = [];
  frame_rx_ok = true;
  req_rx_ok = true;
  looping = true;
  detached = [];
}

-- `if !frame_rx_ok && !req_rx_ok { break; }`
unfoldable pub loop_head : {R : Type 0} → Bcast R → Bcast R
loop_head s = if not s.frame_rx_ok && not s.req_rx_ok then record s { looping = false } else s

-- The `if` of a branch of `select!`.
abbrev pub enabled : {R Req : Type 0} → Bcast R → Select Req → Bool
enabled s (frame_rx ev) = s.frame_rx_ok
enabled s (req_rx req) = s.req_rx_ok

module _ {R Req : Type 0} (P : RelayPort R Req) where
  open P use {start, accept, release}

  -- The closure of `retain` at one relay, given what it makes of the later ones.
  pub retain_one : R × Bool → List R × List R → List R × List R
  retain_one (r, true) (kept, gone) = (r ∷ kept, gone)
  retain_one (r, false) (kept, gone) = (kept, release r ∷ gone)

  -- `relays.retain(|r| r.accept(ev.clone()))`: the relays kept, and those dropped.
  unfoldable pub retain : FrameEvent → List R → List R × List R
  unfolding retain_one
  retain ev [] = ([], [])
  retain ev (r ∷ rs) = retain_one (accept r ev) (retain ev rs)

  unfoldable pub on_frame : Bcast R → Option FrameEvent → Bcast R
  on_frame s none = record s {
    frame_rx_ok = false;
    relays = [];
    detached = s.detached ++ map release s.relays;
  }
  on_frame s (some ev) =
      let (kept, gone) = retain ev s.relays in
      record s { relays = kept; detached = s.detached ++ gone; frames = s.frames ++ ev ∷ [] }

  -- A new relay is tracked only while more frames may come.
  unfoldable pub track : Bcast R → Option R → Bcast R
  track s none = s
  track s (some relay) =
      if s.frame_rx_ok
      then record s { relays = s.relays ++ relay ∷ [] }
      else record s { detached = s.detached ++ release relay ∷ [] }

  unfoldable pub on_req : Bcast R → Option Req → Bcast R
  unfolding track
  on_req s none = record s { req_rx_ok = false }
  on_req s (some req) = track s (start s.frames req)

  unfoldable pub body : Bcast R → Select Req → Bcast R
  unfolding on_frame on_req
  body s (frame_rx ev) = on_frame s ev
  body s (req_rx req) = on_req s req

  -- One round of the loop. `select!` takes no branch whose `if` fails.
  unfoldable pub turn : Bcast R → Select Req → Bcast R
  unfolding body loop_head
  turn s e = if s.looping && enabled s e then loop_head (body s e) else s
