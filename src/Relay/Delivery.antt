-- ===== src/Relay/Delivery.antt =====
-- What the client of a relay has read, at any time and in the end.
use rust_job_runner.Common.{
  ℕ, ◌≡◌, refl, Bool, true, false, Option, [], ◌∷◌, ◌++◌, arith, Bool-cases, Option-cases, inl, inr,
}
use rust_job_runner.Frames.{FrameEvent}
use rust_job_runner.Channel.{Recv, Mpsc}
use rust_job_runner.Relay.{
  Phase, looping, draining, Relay, Turn, receive, deliver, client_reads, client_leaves, accept,
  release, on_recv, try_deliver, drain_next, on_read, task_turn, client_turn, refill, turn,
}
use rust_job_runner.Relay.Order.{IsPrefix, IsPrefix-append, IsOrdered, on_the_way, turn-IsOrdered}

module _ (M : Mpsc FrameEvent) where
  open M use {Chan, send, recv, try_send}

  abbrev SameStreams : Relay Chan → Relay Chan → Type 0
  SameStreams r s = (s.offered ≡ r.offered) × (s.taken ≡ r.taken)

  on_recv-same : (r : Relay Chan) (o : Recv Chan FrameEvent) → SameStreams r (on_recv M r o)
  unfolding on_recv
  on_recv-same r o = ground arith

  try_deliver-same : (r : Relay Chan) (o : Option FrameEvent) → SameStreams r (try_deliver M r o)
  unfolding try_deliver
  try_deliver-same r o = ground arith

  drain_next-same : (r : Relay Chan) (o : Option FrameEvent) → SameStreams r (drain_next M r o)
  unfolding drain_next
  drain_next-same r o = ground arith

  task_turn-same : (p : Phase) (t : Turn) (r : Relay Chan) → SameStreams r (task_turn M p t r)
  unfolding task_turn
  task_turn-same looping receive r = let r' = refill M r in on_recv-same r' (recv r'.inbox)
  task_turn-same looping deliver r = let r' = refill M r in try_deliver-same r' r'.to_send
  task_turn-same draining deliver r = let r' = refill M r in drain_next-same r' r'.to_send
  task_turn-same _ _ r = (refl, refl)

  client_turn-offered :
      (b : Bool) (t : Turn) (r : Relay Chan) → (client_turn M b t r).offered ≡ r.offered
  unfolding client_turn
  client_turn-offered true client_reads r = ground arith
  client_turn-offered true client_leaves r = refl
  client_turn-offered _ _ r = refl

  pub turn-offered : (r : Relay Chan) (t : Turn) → (turn M r t).offered ≡ r.offered
  unfolding turn
  turn-offered r receive = (task_turn-same r.phase receive r).0
  turn-offered r deliver = (task_turn-same r.phase deliver r).0
  turn-offered r client_reads = client_turn-offered r.attached client_reads r
  turn-offered r client_leaves = client_turn-offered r.attached client_leaves r

  read-taken :
      (r : Relay Chan) (o : Recv Chan FrameEvent)
      → (on_read M r o).attached ≡ false
      → r.attached ≡ true
      → (on_read M r o).taken ≡ r.taken
  unfolding on_read
  read-taken r o gone there = ground arith

  client_turn-taken :
      (b : Bool) (t : Turn) (r : Relay Chan)
      → r.attached ≡ b
      → (client_turn M b t r).attached ≡ false
      → (client_turn M b t r).taken ≡ r.taken
  unfolding client_turn
  client_turn-taken true client_reads r e gone = read-taken r (recv r.client) gone e
  client_turn-taken true client_leaves r e gone = refl
  client_turn-taken _ _ r e gone = refl

  -- Once the client is gone nothing more is read.
  turn-taken :
      (r : Relay Chan) (t : Turn) → (turn M r t).attached ≡ false → (turn M r t).taken ≡ r.taken
  unfolding turn
  turn-taken r receive gone = (task_turn-same r.phase receive r).1
  turn-taken r deliver gone = (task_turn-same r.phase deliver r).1
  turn-taken r client_reads gone = client_turn-taken r.attached client_reads r refl gone
  turn-taken r client_leaves gone = client_turn-taken r.attached client_leaves r refl gone

  -- Every turn of a relay that is in order keeps what its client has read a prefix of what the relay
  -- was offered, also when the client leaves.
  pub turn-IsPrefix :
      (n : ℕ) (r : Relay Chan) (t : Turn)
      → IsOrdered M n r
      → IsPrefix r.taken r.offered
      → IsPrefix (turn M r t).taken (turn M r t).offered
  turn-IsPrefix n r t v p = elim (Bool-cases (turn M r t).attached) [
    | inl there ↦ (on_the_way M (turn M r t), (turn-IsOrdered M n r t v).order there)
    | inr gone ↦ rw (turn-taken r t gone, turn-offered r t) p
  ]

  pub accept-IsPrefix :
      (r : Relay Chan) (ev : FrameEvent)
      → IsPrefix r.taken r.offered
      → IsPrefix (accept M r ev).0.taken (accept M r ev).0.offered
  unfolding accept
  accept-IsPrefix r ev p = elim (Option-cases (try_send r.inbox ev)) [
    | inl e ↦ rw (e, accept) p
    | inr (inbox, e) ↦ rw (e, accept) (IsPrefix-append r.taken r.offered (ev ∷ []) p)
  ]

  pub accept-true :
      (r : Relay Chan) (ev : FrameEvent)
      → (accept M r ev).1 ≡ true
      → (accept M r ev).0.offered ≡ r.offered ++ ev ∷ []
  unfolding accept
  accept-true r ev h = ground arith

  pub accept-false :
      (r : Relay Chan) (ev : FrameEvent)
      → (accept M r ev).1 ≡ false
      → (accept M r ev).0.offered ≡ r.offered
  unfolding accept
  accept-false r ev h = ground arith

  pub release-offered : (r : Relay Chan) → (release M r).offered ≡ r.offered
  unfolding release
  release-offered r = refl

  pub release-taken : (r : Relay Chan) → (release M r).taken ≡ r.taken
  unfolding release
  release-taken r = refl
