-- ===== src/Relay/Order.antt =====
-- What a relay has been offered reaches its client in order, with nothing lost and nothing twice.
use rust_job_runner.Common.{
  ℕ, ◌+◌, ◌≡◌, ◌≢◌, refl, sym, ap, ◌∙◌, Bool, true, false, Option, none, some, List, [], ◌∷◌, ◌++◌,
  append-nil, append_assoc, list_laws, arith, option_list, Option-cases, inl, inr,
}
use rust_job_runner.Frames.{FrameEvent}
use rust_job_runner.Channel.{Recv, pending, closed, got, Send, full, refused, sent, Mpsc}
use rust_job_runner.Relay.{
  Phase, looping, draining, ended, Relay, FrameRequest, Turn, receive, deliver, client_reads,
  client_leaves, start, accept, release, refill, on_recv, on_send, try_deliver, on_read, task_turn,
  client_turn, turn,
}

abbrev pub IsPrefix : List FrameEvent → List FrameEvent → Type 0
IsPrefix xs ys = (rest : List FrameEvent) × (xs ++ rest ≡ ys)

pub IsPrefix-append : (xs ys zs : List FrameEvent) → IsPrefix xs ys → IsPrefix xs (ys ++ zs)
IsPrefix-append xs ys zs (rest, e) =
    (rest ++ zs, sym (append_assoc xs rest zs) ∙ ap (λ l. l ++ zs) e)

module _ (M : Mpsc FrameEvent) where
  open M use {Chan, queue, senders, is_closed, send, recv, try_send}

  -- What is on its way to the client, oldest first, at each phase of the task.
  abbrev pub backlog : Phase → Relay Chan → List FrameEvent
  backlog looping r = option_list r.to_send ++ (r.frames ++ queue r.inbox)
  backlog draining r = option_list r.to_send ++ r.frames
  backlog ended r = []

  abbrev pub on_the_way : Relay Chan → List FrameEvent
  on_the_way r = queue r.client ++ backlog r.phase r

  -- `n` is the number of handles on the relay outside its task.
  pub record IsOrdered (n : ℕ) (r : Relay Chan) : Type 0 where
    pub order : r.attached ≡ true → r.taken ++ on_the_way r ≡ r.offered
    pub heard : r.attached ≡ true → is_closed r.client ≡ false
    pub fed : r.attached ≡ true → senders r.client ≡ 1
    pub owned : r.phase ≡ looping → senders r.inbox ≡ n + 1
    pub shut : r.phase ≡ ended → is_closed r.inbox ≡ true
    pub left : r.phase ≡ ended → r.attached ≡ false
    pub never_drains : r.phase ≢ draining
    pub drain_unset : r.drain ≡ false

  pub start-IsOrdered :
      (frames : List FrameEvent) (req : FrameRequest) {r : Relay Chan}
      → start M frames req ≡ some r
      → IsOrdered 1 r × (r.offered ≡ frames) × (r.taken ≡ [])
  unfolding start
  start-IsOrdered frames req h = ground (
    arith,
    M.queue-clone (M.channel 1024),
    M.queue-channel 1024,
    M.senders-clone (M.channel 1024),
    M.senders-channel 1024,
    M.open-channel 1024,
    append-nil frames,
  )

  accepted-order :
      (r : Relay Chan) (ev : FrameEvent) {inbox : Chan}
      → r.phase ≡ looping
      → try_send r.inbox ev ≡ some inbox
      → r.taken ++ on_the_way r ≡ r.offered
      → r.taken ++ (queue r.client ++ (option_list r.to_send ++ (r.frames ++ queue inbox)))
        ≡ r.offered ++ ev ∷ []
  accepted-order r ev l e o = rw (M.queue-try_send r.inbox ev e, ← o, l) (simp list_laws)

  accepted-IsOrdered :
      (n : ℕ) (r : Relay Chan) (ev : FrameEvent) {inbox : Chan}
      → try_send r.inbox ev ≡ some inbox
      → IsOrdered n r
      → IsOrdered n (record r { inbox = inbox; offered = r.offered ++ ev ∷ [] })
  accepted-IsOrdered n r ev {inbox} e v = ground (
    arith,
    accepted-order r ev {inbox = inbox},
    M.senders-try_send r.inbox ev e,
    M.try_send_closed r.inbox ev,
  )

  pub accept-IsOrdered :
      (n : ℕ) (r : Relay Chan) (ev : FrameEvent) → IsOrdered n r → IsOrdered n (accept M r ev).0
  unfolding accept
  accept-IsOrdered n r ev v = elim (Option-cases (try_send r.inbox ev)) [
    | inl e ↦ rw (e, accept) v
    | inr (inbox, e) ↦ rw (e, accept) (accepted-IsOrdered n r ev e v)
  ]

  pub release-IsOrdered : (n : ℕ) (r : Relay Chan) → IsOrdered (n + 1) r → IsOrdered n (release M r)
  unfolding release
  release-IsOrdered n r v =
      ground (arith, M.queue-drop_tx r.inbox, M.senders-drop_tx r.inbox, M.open-drop_tx r.inbox)

  refill-IsOrdered : (n : ℕ) (r : Relay Chan) → IsOrdered n r → IsOrdered n (refill M r)
  unfolding refill
  refill-IsOrdered n r v = ground arith

  received-order :
      (r : Relay Chan) {ev : FrameEvent} {inbox : Chan}
      → recv r.inbox ≡ got ev inbox
      → r.frames ++ queue r.inbox ≡ (r.frames ++ ev ∷ []) ++ queue inbox
  received-order r e = rw (M.queue-recv r.inbox e) (simp list_laws)

  on_recv-IsOrdered :
      (n : ℕ) (r : Relay Chan) (o : Recv Chan FrameEvent)
      → r.phase ≡ looping
      → recv r.inbox ≡ o
      → IsOrdered n r
      → IsOrdered n (on_recv M r o)
  unfolding on_recv
  on_recv-IsOrdered n r pending l e v = v
  on_recv-IsOrdered n r closed l e v =
      absurd (omega (arith, v.owned l, (M.recv_closed r.inbox e).1))
  on_recv-IsOrdered n r (got ev inbox) l e v =
      ground (arith, received-order r e, M.senders-recv r.inbox e, M.open-recv r.inbox e)

  sent-order :
      (r : Relay Chan) (ev : FrameEvent) {client : Chan}
      → send r.client ev ≡ sent client
      → queue client ++ (r.frames ++ queue r.inbox)
        ≡ queue r.client ++ (ev ∷ (r.frames ++ queue r.inbox))
  sent-order r ev e = rw (M.queue-send r.client ev e) (simp list_laws)

  on_send-IsOrdered :
      (n : ℕ) (r : Relay Chan) (ev : FrameEvent) (o : Send Chan)
      → r.phase ≡ looping
      → r.to_send ≡ some ev
      → send r.client ev ≡ o
      → IsOrdered n r
      → IsOrdered n (on_send M r o)
  unfolding on_send
  on_send-IsOrdered n r ev full l t e v = v
  on_send-IsOrdered n r ev refused l t e v =
      ground (arith, M.send_refused r.client ev e, M.closed-drop_rx (M.drop_tx r.inbox))
  on_send-IsOrdered n r ev (sent client) l t e v =
      ground (arith, sent-order r ev e, M.open-send r.client ev e, M.senders-send r.client ev e)

  try_deliver-IsOrdered :
      (n : ℕ) (r : Relay Chan) (o : Option FrameEvent)
      → r.phase ≡ looping
      → r.to_send ≡ o
      → IsOrdered n r
      → IsOrdered n (try_deliver M r o)
  unfolding try_deliver
  try_deliver-IsOrdered n r none l e v = v
  try_deliver-IsOrdered n r (some ev) l e v = on_send-IsOrdered n r ev (send r.client ev) l e refl v

  read-order :
      (r : Relay Chan) {ev : FrameEvent} {client : Chan} (later : List FrameEvent)
      → recv r.client ≡ got ev client
      → r.taken ++ (queue r.client ++ later) ≡ (r.taken ++ ev ∷ []) ++ (queue client ++ later)
  read-order r later e = rw (M.queue-recv r.client e) (simp list_laws)

  on_read-IsOrdered :
      (n : ℕ) (r : Relay Chan) (o : Recv Chan FrameEvent)
      → recv r.client ≡ o
      → IsOrdered n r
      → IsOrdered n (on_read M r o)
  unfolding on_read
  on_read-IsOrdered n r pending e v = v
  on_read-IsOrdered n r closed e v = v
  on_read-IsOrdered n r (got ev client) e v =
      ground (
        arith,
        read-order r (backlog r.phase r) e,
        M.open-recv r.client e,
        M.senders-recv r.client e,
      )

  task_turn-IsOrdered :
      (n : ℕ) (p : Phase) (t : Turn) (r : Relay Chan)
      → r.phase ≡ p
      → IsOrdered n r
      → IsOrdered n (task_turn M p t r)
  unfolding task_turn
  task_turn-IsOrdered n looping receive r l v =
      let r' = refill M r in on_recv-IsOrdered n r' (recv r'.inbox) l refl (refill-IsOrdered n r v)
  task_turn-IsOrdered n looping deliver r l v =
      let r' = refill M r in try_deliver-IsOrdered n r' r'.to_send l refl (refill-IsOrdered n r v)
  task_turn-IsOrdered n draining deliver r l v = absurd (v.never_drains l)
  task_turn-IsOrdered n _ _ r l v = v

  client_turn-IsOrdered :
      (n : ℕ) (b : Bool) (t : Turn) (r : Relay Chan)
      → IsOrdered n r
      → IsOrdered n (client_turn M b t r)
  unfolding client_turn
  client_turn-IsOrdered n true client_reads r v = on_read-IsOrdered n r (recv r.client) refl v
  client_turn-IsOrdered n true client_leaves r v = ground arith
  client_turn-IsOrdered n _ _ r v = v

  -- Every turn of the task or the client keeps a relay in order: while the client stays, what it has
  -- read and what is on its way to it are, in this order, what the relay was offered; the loop keeps
  -- its sender of the inbox and, while the client stays, that of the client's channel; it never drains;
  -- and it ends only when the client has left.
  pub turn-IsOrdered :
      (n : ℕ) (r : Relay Chan) (t : Turn) → IsOrdered n r → IsOrdered n (turn M r t)
  unfolding turn
  turn-IsOrdered n r receive v = task_turn-IsOrdered n r.phase receive r refl v
  turn-IsOrdered n r deliver v = task_turn-IsOrdered n r.phase deliver r refl v
  turn-IsOrdered n r client_reads v = client_turn-IsOrdered n r.attached client_reads r v
  turn-IsOrdered n r client_leaves v = client_turn-IsOrdered n r.attached client_leaves r v
