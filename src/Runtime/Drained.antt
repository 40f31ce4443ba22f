-- ===== src/Runtime/Drained.antt =====
-- What the broadcaster has once the tracker has returned, and what a client reads that comes then.
use rust_job_runner.Common.{
  ℕ, zero, suc, ◌≡◌, ◌⊎◌, inl, inr, refl, sym, ap, ◌∙◌, subst, Bool, true, false, ◌&&◌, List, [],
  ◌∷◌, ◌++◌, append-nil, true≢false, length, arith,
}
use rust_job_runner.Types.{Job}
use rust_job_runner.Frames.{FrameEvent}
use rust_job_runner.Channel.{Recv, pending, closed, got, Mpsc}
use rust_job_runner.Relay.{Relay, FrameRequest, Turn}
use rust_job_runner.Relay.Progress.{rounds}
use rust_job_runner.Tracker.{complete}
use rust_job_runner.Broadcast.Port.{RelayPort}
use rust_job_runner.Broadcast.Clients.{relay_port}
use rust_job_runner.Broadcast.Late.{late-replays}
use rust_job_runner.Runtime.{
  Runtime, Step, receive, request, start, on_recv, on_receive, step, run, on_request,
}
use rust_job_runner.Runtime.Link.{IsLinked}
use rust_job_runner.Runtime.Rounds.{turn-frame-none, turn-frame-some}
use rust_job_runner.Runtime.Flow.{step-IsLinked, run-step-IsLinked, run-IsLinked}

-- So many rounds of the broadcaster's receiver.
pub receives : {Req Act : Type 0} → ℕ → List (Step Req Act)
receives zero = []
receives (suc n) = receive ∷ receives n

module _ {R Req : Type 0} (M : Mpsc FrameEvent) (P : RelayPort R Req) where
  open M use {Chan, queue, recv}
  open P use {Act}

  pub run-append :
      (s : Runtime Chan R) (xs ys : List (Step Req Act))
      → run M P s (xs ++ ys) ≡ run M P (run M P s xs) ys
  unfolding run
  run-append s [] ys = refl
  run-append s (x ∷ xs) ys = run-append (step M P s x) xs ys

  -- A round of the receiver: it takes one event out of the channel, or sees its end.
  IsNearer : Runtime Chan R → Runtime Chan R → Type 0
  IsNearer s t =
      (t.tracker ≡ s.tracker)
      × ((t.bcast.frame_rx_ok ≡ false) ⊎ (length (queue s.frames) ≡ suc (length (queue t.frames))))

  on_recv-IsNearer :
      (s : Runtime Chan R) (o : Recv Chan FrameEvent)
      → recv s.frames ≡ o
      → IsLinked M P s
      → s.tracker.phase ≡ complete
      → s.bcast.frame_rx_ok ≡ true
      → IsNearer s (on_recv M P s o)
  unfolding on_recv IsNearer
  on_recv-IsNearer s pending e v l f = absurd (M.recv_waits s.frames e (v.no_sender l))
  on_recv-IsNearer s closed e v l f = (refl, inl (turn-frame-none P s.bcast v.runs v.serves f).2)
  on_recv-IsNearer s (got ev c) e v l f =
      let (goes, serves, more, adds) = turn-frame-some P s.bcast ev v.runs v.serves f in
      (refl, inr (ap length (M.queue-recv s.frames e) ∙ simp goes refl))

  on_receive-IsNearer :
      (s : Runtime Chan R) (on : Bool)
      → (s.bcast.looping && s.bcast.frame_rx_ok) ≡ on
      → IsLinked M P s
      → s.tracker.phase ≡ complete
      → IsNearer s (on_receive M P s on)
  unfolding on_receive IsNearer
  on_receive-IsNearer s true e v l = on_recv-IsNearer s (recv s.frames) refl v l (ground arith)
  on_receive-IsNearer s false e v l = (refl, inl (ground (arith, v.runs)))

  step-IsNearer :
      (s : Runtime Chan R)
      → IsLinked M P s
      → s.tracker.phase ≡ complete
      → IsNearer s (step M P s receive)
  unfolding step
  step-IsNearer s v l = on_receive-IsNearer s (s.bcast.looping && s.bcast.frame_rx_ok) refl v l

  on_receive-off : (s : Runtime Chan R) (on : Bool) → on ≡ false → on_receive M P s on ≡ s
  unfolding on_receive
  on_receive-off s false e = refl
  on_receive-off s true e = absurd (true≢false e)

  receive-shut : (s : Runtime Chan R) → s.bcast.frame_rx_ok ≡ false → step M P s receive ≡ s
  unfolding step
  receive-shut s f = on_receive-off s (s.bcast.looping && s.bcast.frame_rx_ok) (ground arith)

  -- Behind the end of the channel the receiver is off.
  receives-shut :
      (n : ℕ) (s : Runtime Chan R) → s.bcast.frame_rx_ok ≡ false → run M P s (receives n) ≡ s
  unfolding run receives
  receives-shut zero s f = refl
  receives-shut (suc n) s f =
      ap (λ t. run M P t (receives n)) (receive-shut s f) ∙ receives-shut n s f

  drains :
      (n : ℕ) (s : Runtime Chan R)
      → length (queue s.frames) ≡ n
      → IsLinked M P s
      → s.tracker.phase ≡ complete
      → let t = run M P s (receives (suc n)) in
        (t.tracker ≡ s.tracker) × (t.bcast.frame_rx_ok ≡ false)
  unfolding run receives IsNearer
  drains zero s e v l =
      let (same, o) = step-IsNearer s v l in
      (same, elim o [ inl f ↦ f | inr longer ↦ absurd (omega (arith, longer, e)) ])
  drains (suc n) s e v l =
      let (same, o) = step-IsNearer s v l in
      let t = step M P s receive in
      elim o [
        | inl f ↦
            let shut = receives-shut (suc n) t f in
            (ap (λ t. t.tracker) shut ∙ same, ap (λ t. t.bcast.frame_rx_ok) shut ∙ f)
        | inr longer ↦
            let (later, f) =
              drains n t (omega (arith, longer, e)) (step-IsLinked M P s receive v)
                (ap (λ t. t.phase) same ∙ l) in
            (later ∙ same, f)
      ]

  -- Once the tracker has returned, the broadcaster has everything that was sent in its buffer, and
  -- its receiver at the end, within one round for each event in the channel and one more.
  pub run-drains :
      (job : Job) (es : List (Step Req Act))
      → let s = run M P (start M P job) es in
        s.tracker.phase ≡ complete
        → let t = run M P s (receives (suc (length (queue s.frames)))) in
          (t.bcast.frames ≡ s.tracker.sent) × (t.bcast.frame_rx_ok ≡ false)
  run-drains job es l =
      let s = run M P (start M P job) es in
      let n = suc (length (queue s.frames)) in
      let t = run M P s (receives n) in
      let v = run-IsLinked M P job es in
      let (same, f) = drains (length (queue s.frames)) s refl v l in
      let w = run-step-IsLinked M P s (receives n) v in
      (
        sym (append-nil t.bcast.frames)
            ∙ ap (λ l. t.bcast.frames ++ l) (sym (w.over f).0)
            ∙ sym w.in_order
            ∙ ap (λ t. t.sent) same,
        f,
      )

module _ (M : Mpsc FrameEvent) where
  open M use {Chan, queue}

  -- A client that asks for the logs of a job whose tracker has returned: at the latest once the
  -- broadcaster has emptied its channel, its request starts a relay of its own, and if the client
  -- stays, it reads all that the tracker sent, within one round of that relay for each event.
  pub run-replays :
      (job : Job) (es : List (Step FrameRequest Turn)) (req : FrameRequest)
      → let s = run M (relay_port M) (start M (relay_port M) job) es in
        s.tracker.phase ≡ complete
        → req.waiting ≡ true
        → let t = run M (relay_port M) s (receives (suc (length (queue s.frames)))) in
          (r : Relay Chan) × ((step M (relay_port M) t (request req)).bcast.detached
            ≡ t.bcast.detached ++ r ∷ [])
          × ((rounds M (length s.tracker.sent) r).taken ≡ s.tracker.sent)
  unfolding step on_request
  run-replays job es req l w =
      let P = relay_port M in
      let s = run M P (start M P job) es in
      let rs : List (Step FrameRequest Turn) = receives (suc (length (queue s.frames))) in
      let (all, f) = run-drains M P job es l in
      let t = run M P s rs in
      let v = run-step-IsLinked M P s rs (run-IsLinked M P job es) in
      let (r, starts, read) = late-replays M t.bcast req v.runs f v.serves w in
      (r, starts, subst (λ fs. (rounds M (length fs) r).taken ≡ fs) all read)
