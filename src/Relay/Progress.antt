-- ===== src/Relay/Progress.antt =====
-- A client that stays gets everything: enough rounds of the task and the client leave nothing over.
use rust_job_runner.Common.{
  ℕ, zero, suc, ◌+◌, ◌-◌, ◌<◌, ◌≡◌, refl, sym, ap, subst, ◌∙◌, true, false, Option, none, some,
  List, [], ◌∷◌, ◌++◌, append-nil, arith, length, length-append, option_list,
}
use rust_job_runner.Frames.{FrameEvent}
use rust_job_runner.Channel.{Recv, pending, closed, got, Send, full, refused, sent, Mpsc}
use rust_job_runner.Relay.{
  Phase, Relay, looping, draining, ended, receive, deliver, client_reads, refill, on_recv, on_send,
  try_deliver, on_read, task_turn, client_turn, Turn, turn, turns,
}
use rust_job_runner.Relay.Order.{IsOrdered, backlog, on_the_way, turn-IsOrdered}

-- A prefix as long as the whole is the whole.
prefix-whole : (xs ys zs : List FrameEvent) → xs ++ ys ≡ zs → length xs ≡ length zs → xs ≡ zs
prefix-whole xs [] zs e h = sym (append-nil xs) ∙ e
prefix-whole xs (y ∷ ys) zs e h = absurd (omega (arith, ap length e, length-append xs (y ∷ ys), h))

module _ (M : Mpsc FrameEvent) where
  open M use {Chan, queue, senders, is_closed, send, recv}

  -- The loop runs, and the client holds its receiver.
  abbrev IsLive : Relay Chan → Type 0
  IsLive r = (r.phase ≡ looping) × (r.attached ≡ true)

  -- How many events the task itself holds.
  abbrev in_hand : Relay Chan → ℕ
  in_hand r = length (option_list r.to_send) + length r.frames

  -- What a turn leaves alone.
  abbrev IsKept : Relay Chan → Relay Chan → Type 0
  IsKept r s = IsLive s × (s.taken ≡ r.taken) × (s.offered ≡ r.offered)

  length-on_the_way :
      (r : Relay Chan)
      → length (queue r.client ++ (option_list r.to_send ++ (r.frames ++ queue r.inbox)))
        ≡ length (queue r.client) + (in_hand r + length (queue r.inbox))
  length-on_the_way r = omega (
    arith,
    length-append (queue r.client) (option_list r.to_send ++ (r.frames ++ queue r.inbox)),
    length-append (option_list r.to_send) (r.frames ++ queue r.inbox),
    length-append r.frames (queue r.inbox),
  )

  IsOrdered-length :
      (n : ℕ) (r : Relay Chan)
      → IsOrdered M n r
      → IsLive r
      → length r.offered
        ≡ length r.taken + (length (queue r.client) + (in_hand r + length (queue r.inbox)))
  IsOrdered-length n r v (l, a) =
      let e = subst (λ p. r.taken ++ (queue r.client ++ backlog M p r) ≡ r.offered) l (v.order a) in
      omega (
        arith,
        ap length e,
        length-append r.taken (queue r.client ++ backlog M looping r),
        length-on_the_way r,
      )

  refill-in_hand : (r : Relay Chan) → in_hand (refill M r) ≡ in_hand r
  unfolding refill
  refill-in_hand r = ground arith

  on_recv-in_hand :
      (r : Relay Chan) (o : Recv Chan FrameEvent)
      → recv r.inbox ≡ o
      → 0 < senders r.inbox
      → IsLive r
      → IsKept r (on_recv M r o)
        × ((on_recv M r o).client ≡ r.client)
        × (0 < in_hand r + length (queue r.inbox) → 0 < in_hand (on_recv M r o))
  unfolding on_recv
  on_recv-in_hand r pending e h v = ground (arith, M.recv_pending r.inbox e)
  on_recv-in_hand r closed e h v = absurd (omega (arith, (M.recv_closed r.inbox e).1, h))
  on_recv-in_hand r (got ev inbox) e h v = ground (arith, length-append r.frames (ev ∷ []))

  receive-in_hand :
      (n : ℕ) (r : Relay Chan)
      → IsOrdered M n r
      → IsLive r
      → IsKept r (turn M r receive)
        × ((turn M r receive).client ≡ r.client)
        × (0 < in_hand r + length (queue r.inbox) → 0 < in_hand (turn M r receive))
  unfolding turn task_turn refill
  receive-in_hand n r v (l, a) =
      let h : 0 < senders r.inbox = omega (arith, v.owned l) in
      let moved = on_recv-in_hand (refill M r) (recv r.inbox) refl h (l, a) in
      simp l (ground (arith, moved, refill-in_hand r))

  on_send-filled :
      (r : Relay Chan) (ev : FrameEvent) (o : Send Chan)
      → send r.client ev ≡ o
      → is_closed r.client ≡ false
      → IsLive r
      → IsKept r (on_send M r o) × (0 < length (queue (on_send M r o).client))
  unfolding on_send
  on_send-filled r ev full e h v = ground (arith, M.send_full r.client ev e)
  on_send-filled r ev refused e h v = ground (arith, M.send_refused r.client ev e)
  on_send-filled r ev (sent client) e h v =
      ground (arith, M.queue-send r.client ev e, length-append (queue r.client) (ev ∷ []))

  on_read-taken :
      (r : Relay Chan) (o : Recv Chan FrameEvent)
      → recv r.client ≡ o
      → 0 < length (queue r.client)
      → IsLive r
      → IsLive (on_read M r o)
        × ((on_read M r o).offered ≡ r.offered)
        × (length (on_read M r o).taken ≡ length r.taken + 1)
  unfolding on_read
  on_read-taken r pending e h v = ground (arith, M.recv_pending r.client e)
  on_read-taken r closed e h v = ground (arith, M.recv_closed r.client e)
  on_read-taken r (got ev client) e h v = ground (arith, length-append r.taken (ev ∷ []))

  refill-idle : (r : Relay Chan) → (refill M r).to_send ≡ none → in_hand r ≡ 0
  unfolding refill
  refill-idle r e = ground arith

  try_deliver-filled :
      (r : Relay Chan) (o : Option FrameEvent)
      → is_closed r.client ≡ false
      → IsLive r
      → (o ≡ none → 0 < length (queue r.client))
      → IsKept r (try_deliver M r o) × (0 < length (queue (try_deliver M r o).client))
  unfolding try_deliver
  try_deliver-filled r none h v some_left = ((v, refl, refl), some_left refl)
  try_deliver-filled r (some ev) h v some_left = on_send-filled r ev (send r.client ev) refl h v

  deliver-filled :
      (n : ℕ) (r : Relay Chan)
      → IsOrdered M n r
      → IsLive r
      → 0 < length (queue r.client) + in_hand r
      → IsKept r (turn M r deliver) × (0 < length (queue (turn M r deliver).client))
  unfolding turn task_turn refill
  deliver-filled n r v (l, a) h =
      let r' = refill M r in
      let moved =
        try_deliver-filled r' r'.to_send (v.heard a) (l, a)
          (λ e. omega (arith, refill-idle r e, h)) in
      simp l (ground (arith, moved))

  client_reads-taken :
      (r : Relay Chan)
      → IsLive r
      → 0 < length (queue r.client)
      → IsLive (turn M r client_reads)
        × ((turn M r client_reads).offered ≡ r.offered)
        × (length (turn M r client_reads).taken ≡ length r.taken + 1)
  unfolding turn client_turn
  client_reads-taken r (l, a) h =
      let read = on_read-taken r (recv r.client) refl h (l, a) in simp a (ground (arith, read))

  -- One round: the task looks at its inbox, sends, and the client reads.
  abbrev round : List Turn
  round = receive ∷ deliver ∷ client_reads ∷ []

  -- While something is on its way, a round brings the client one event further.
  round-taken :
      (n : ℕ) (r : Relay Chan)
      → IsOrdered M n r
      → IsLive r
      → length r.taken < length r.offered
      → IsOrdered M n (turns M r round)
        × IsLive (turns M r round)
        × ((turns M r round).offered ≡ r.offered)
        × (length (turns M r round).taken ≡ length r.taken + 1)
  unfolding turns
  round-taken n r v live h =
      let r1 = turn M r receive in
      let r2 = turn M r1 deliver in
      let v1 = turn-IsOrdered M n r receive v in
      let v2 = turn-IsOrdered M n r1 deliver v1 in
      let ((live1, t1, o1), c1, hand) = receive-in_hand n r v live in
      let left1 : 0 < length (queue r1.client) + in_hand r1 =
        ground (arith, IsOrdered-length n r v live, c1, hand) in
      let ((live2, t2, o2), filled) = deliver-filled n r1 v1 live1 left1 in
      let (live3, o3, t3) = client_reads-taken r2 live2 filled in
      (
        turn-IsOrdered M n r2 client_reads v2,
        live3,
        o3 ∙ o2 ∙ o1,
        omega (arith, t3, ap length t2, ap length t1),
      )

  -- `k` rounds.
  abbrev pub rounds : ℕ → Relay Chan → Relay Chan
  rounds zero r = r
  rounds (suc k) r = rounds k (turns M r round)

  taken-rounds :
      (k n : ℕ) (r : Relay Chan)
      → IsOrdered M n r
      → IsLive r
      → length r.taken + k ≡ length r.offered
      → ((rounds k r).taken ≡ r.offered) × ((rounds k r).offered ≡ r.offered)
  taken-rounds zero n r v live h =
      (prefix-whole r.taken (on_the_way M r) r.offered (v.order live.1) (omega (arith, h)), refl)
  taken-rounds (suc k) n r v live h =
      let (v', live', o, t) = round-taken n r v live (omega (arith, h)) in
      let (done, same) =
        taken-rounds k n (turns M r round) v' live' (omega (arith, t, ap length o, h)) in
      (done ∙ o, same ∙ o)

  attached-looping :
      (n : ℕ) (r : Relay Chan) (p : Phase)
      → r.phase ≡ p
      → IsOrdered M n r
      → r.attached ≡ true
      → p ≡ looping
  attached-looping n r looping e v a = refl
  attached-looping n r draining e v a = absurd (v.never_drains e)
  attached-looping n r ended e v a = absurd (ground (arith, v.left e))

  -- From every state of a relay that is in order, if the client stays, then as many rounds as events
  -- are not yet read are enough: the client has read all that the relay was offered.
  pub rounds-taken :
      (n : ℕ) (r : Relay Chan)
      → IsOrdered M n r
      → r.attached ≡ true
      → (rounds (length r.offered - length r.taken) r).taken ≡ r.offered
  rounds-taken n r v a =
      let live : IsLive r = (attached-looping n r r.phase refl v a, a) in
      (taken-rounds (length r.offered - length r.taken) n r v live
        (omega (arith, IsOrdered-length n r v live))).0
