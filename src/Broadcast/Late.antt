-- ===== src/Broadcast/Late.antt =====
-- A client that asks for the logs of a job that is over.
use rust_job_runner.Common.{
  ◌-◌, ◌≡◌, refl, ap, subst, ◌∙◌, true, false, some, List, [], ◌∷◌, ◌++◌, length, arith,
}
use rust_job_runner.Frames.{FrameEvent}
use rust_job_runner.Channel.{Mpsc}
use rust_job_runner.Relay.{Relay, FrameRequest, Turn, start, release}
use rust_job_runner.Relay.Order.{start-IsOrdered, release-IsOrdered}
use rust_job_runner.Relay.Delivery.{release-offered, release-taken}
use rust_job_runner.Relay.Progress.{rounds, rounds-taken}
use rust_job_runner.Broadcast.{Bcast, req_rx, new, track, turn}
use rust_job_runner.Broadcast.System.{Event, run}
use rust_job_runner.Broadcast.Buffer.{received, run-frames, run-looping}
use rust_job_runner.Broadcast.Clients.{relay_port}

module _ (M : Mpsc FrameEvent) where
  open M use {Chan}

  -- The relay that is started, and dropped by the broadcaster at once.
  started_relay :
      (frames : List FrameEvent) (req : FrameRequest)
      → req.waiting ≡ true
      → (r : Relay Chan) × (start M frames req ≡ some r) × (r.attached ≡ true)
  unfolding start
  started_relay frames req w = rw w (_, refl, refl)

  turn-late :
      (s : Bcast (Relay Chan)) (req : FrameRequest) (r : Relay Chan)
      → s.looping ≡ true
      → s.frame_rx_ok ≡ false
      → s.req_rx_ok ≡ true
      → start M s.frames req ≡ some r
      → (turn (relay_port M) s (req_rx (some req))).detached ≡ s.detached ++ release M r ∷ []
  unfolding turn track
  turn-late s req r l f q e = ground arith

  released-rounds :
      (frames : List FrameEvent) (req : FrameRequest) {r : Relay Chan}
      → start M frames req ≡ some r
      → r.attached ≡ true
      → (rounds M (length frames) (release M r)).taken ≡ frames
  unfolding release
  released-rounds frames req {r} e a =
      let (v, offered, taken) = start-IsOrdered M frames req e in
      let o = release-offered M r ∙ offered in
      let t = release-taken M r ∙ taken in
      let all = rounds-taken M 0 (release M r) (release-IsOrdered M 0 r v) a in
      let n : length (release M r).offered - length (release M r).taken ≡ length frames =
        omega (arith, ap length o, ap length t) in
      subst (λ k. (rounds M k (release M r)).taken ≡ (release M r).offered) n all ∙ o

  -- The relay of a request that comes behind the last frame.
  pub late-replays :
      (s : Bcast (Relay Chan)) (req : FrameRequest)
      → s.looping ≡ true
      → s.frame_rx_ok ≡ false
      → s.req_rx_ok ≡ true
      → req.waiting ≡ true
      → (r : Relay Chan) × ((turn (relay_port M) s (req_rx (some req))).detached
          ≡ s.detached ++ r ∷ [])
        × ((rounds M (length s.frames) r).taken ≡ s.frames)
  late-replays s req l f q w =
      let (r, e, a) = started_relay s.frames req w in
      (release M r, turn-late s req r l f q e, released-rounds s.frames req e a)

  -- After any run in which the tracker has ended its channel and the requests go on, a request whose
  -- sender still waits starts one more relay, which the broadcaster drops at once. If its client
  -- stays, one round of the relay for each event of the job is enough: the client has read all that
  -- the tracker sent.
  run-late :
      (es : List (Event FrameRequest Turn)) (req : FrameRequest)
      → let s = run (relay_port M) new es in
        s.frame_rx_ok ≡ false
        → s.req_rx_ok ≡ true
        → req.waiting ≡ true
        → (r : Relay Chan) × ((turn (relay_port M) s (req_rx (some req))).detached
            ≡ s.detached ++ r ∷ [])
          × ((rounds M (length s.frames) r).taken ≡ received (relay_port M) es)
  run-late es req f q w =
      let s = run (relay_port M) new es in
      let l : s.looping ≡ true = ground (arith, (run-looping (relay_port M) es).1) in
      let (r, starts, all) = late-replays s req l f q w in
      (r, starts, all ∙ run-frames (relay_port M) es)
