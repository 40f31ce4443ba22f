-- ===== src/Runtime/Rounds.antt =====
-- Rounds of the broadcaster while it serves requests: its loop goes on whatever comes.
use rust_job_runner.Common.{◌≡◌, true, false, none, some, [], ◌∷◌, ◌++◌, arith}
use rust_job_runner.Frames.{FrameEvent}
use rust_job_runner.Broadcast.Port.{RelayPort}
use rust_job_runner.Broadcast.{
  Bcast, frame_rx, req_rx, on_frame, on_req, track, body, loop_head, turn,
}

module _ {R Req : Type 0} (P : RelayPort R Req) where
  pub turn-frame-some :
      (b : Bcast R) (ev : FrameEvent)
      → b.looping ≡ true
      → b.req_rx_ok ≡ true
      → b.frame_rx_ok ≡ true
      → let d = turn P b (frame_rx (some ev)) in
        (d.looping ≡ true)
        × (d.req_rx_ok ≡ true)
        × (d.frame_rx_ok ≡ true)
        × (d.frames ≡ b.frames ++ ev ∷ [])
  unfolding turn body on_frame loop_head
  turn-frame-some b ev l q f = ground arith

  pub turn-frame-none :
      (b : Bcast R)
      → b.looping ≡ true
      → b.req_rx_ok ≡ true
      → b.frame_rx_ok ≡ true
      → let d = turn P b (frame_rx none) in
        (d.looping ≡ true) × (d.req_rx_ok ≡ true) × (d.frame_rx_ok ≡ false) × (d.frames ≡ b.frames)
  unfolding turn body on_frame loop_head
  turn-frame-none b l q f = ground arith

  pub turn-request :
      (b : Bcast R) (q : Req)
      → b.looping ≡ true
      → b.req_rx_ok ≡ true
      → let d = turn P b (req_rx (some q)) in
        (d.looping ≡ true)
        × (d.req_rx_ok ≡ true)
        × (d.frame_rx_ok ≡ b.frame_rx_ok)
        × (d.frames ≡ b.frames)
  unfolding turn body on_req track loop_head
  turn-request b q l r = ground arith
