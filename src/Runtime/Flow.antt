-- ===== src/Runtime/Flow.antt =====
-- Runs of all tasks of one job.
use rust_job_runner.Common.{
  ℕ, ◌≡◌, ◌≢◌, true≢false, refl, sym, ap, ◌∙◌, Bool, true, false, ◌&&◌, List, [], ◌∷◌, ◌++◌,
  append_assoc, arith,
}
use rust_job_runner.Types.{Job}
use rust_job_runner.Frames.{FrameEvent}
use rust_job_runner.Channel.{Recv, pending, closed, got, Mpsc}
use rust_job_runner.Tracker.{Phase, looping, broken, complete}
use rust_job_runner.Broadcast.Port.{RelayPort}
use rust_job_runner.Runtime.{
  Runtime, Step, wake, receive, request, held, free, start, on_recv, on_receive, on_request, step,
  run, outgoing,
}
use rust_job_runner.Runtime.Link.{IsLinked, start-IsLinked, on_wake-IsLinked}
use rust_job_runner.Runtime.Rounds.{turn-frame-some, turn-frame-none, turn-request}
use rust_job_runner.Broadcast.System.{held_acts, free_acts}
use rust_job_runner.Broadcast.System

no_sender-complete : {n : ℕ} (p : Phase) → (p ≢ complete → n ≡ 1) → n ≡ 0 → p ≡ complete
no_sender-complete complete one none_left = refl
no_sender-complete looping one none_left = absurd (omega (arith, one (λ e. ground arith)))
no_sender-complete broken one none_left = absurd (omega (arith, one (λ e. ground arith)))

module _ {R Req : Type 0} (M : Mpsc FrameEvent) (P : RelayPort R Req) where
  open M use {Chan, recv}
  open P use {Act}

  on_recv-IsLinked :
      (s : Runtime Chan R) (o : Recv Chan FrameEvent)
      → recv s.frames ≡ o
      → s.bcast.frame_rx_ok ≡ true
      → IsLinked M P s
      → IsLinked M P (on_recv M P s o)
  unfolding on_recv
  on_recv-IsLinked s pending e f v = v
  on_recv-IsLinked s closed e f v =
      let (goes, serves, over, kept) = turn-frame-none P s.bcast v.runs v.serves f in
      let (empty, alone) = M.recv_closed s.frames e in
      simp goes (record {
        listening = v.listening;
        one_sender = v.one_sender;
        no_sender = v.no_sender;
        runs = goes;
        serves = serves;
        in_order = v.in_order ∙ ap (λ l. l ++ M.queue s.frames) (sym kept);
        over = λ _. (empty, no_sender-complete s.tracker.phase v.one_sender alone);
        spared = v.spared;
      })
  on_recv-IsLinked s (got ev c) e f v =
      let (goes, serves, more, adds) = turn-frame-some P s.bcast ev v.runs v.serves f in
      let q = M.queue-recv s.frames e in
      simp goes (record {
        listening = M.open-recv s.frames e ∙ v.listening;
        one_sender = λ l. M.senders-recv s.frames e ∙ v.one_sender l;
        no_sender = λ l. M.senders-recv s.frames e ∙ v.no_sender l;
        runs = goes;
        serves = serves;
        in_order =
            v.in_order
            ∙ ap (λ l. s.bcast.frames ++ l) q
            ∙ sym (append_assoc s.bcast.frames (ev ∷ []) (M.queue c))
            ∙ ap (λ l. l ++ M.queue c) (sym adds);
        over = λ x. absurd (true≢false (sym more ∙ x));
        spared = v.spared;
      })

  on_receive-IsLinked :
      (s : Runtime Chan R) (on : Bool)
      → (s.bcast.looping && s.bcast.frame_rx_ok) ≡ on
      → IsLinked M P s
      → IsLinked M P (on_receive M P s on)
  unfolding on_receive
  on_receive-IsLinked s true e v = on_recv-IsLinked s (recv s.frames) refl (ground arith) v
  on_receive-IsLinked s false e v = v

  on_request-IsLinked :
      (q : Req) (s : Runtime Chan R) → IsLinked M P s → IsLinked M P (on_request M P q s)
  unfolding on_request
  on_request-IsLinked q s v =
      let (goes, serves, same, kept) = turn-request P s.bcast q v.runs v.serves in
      simp goes (record {
        listening = v.listening;
        one_sender = v.one_sender;
        no_sender = v.no_sender;
        runs = goes;
        serves = serves;
        in_order = v.in_order ∙ ap (λ l. l ++ M.queue s.frames) (sym kept);
        over = λ x. v.over (sym same ∙ x);
        spared = v.spared;
      })

  -- The relays' acts leave the channel of frames and the buffer alone.
  acts-IsLinked :
      (s : Runtime Chan R) (rs ds : List R)
      → IsLinked M P s
      → IsLinked M P (record s { bcast = record (s.bcast) { relays = rs; detached = ds } })
  acts-IsLinked s rs ds v = record {
    listening = v.listening;
    one_sender = v.one_sender;
    no_sender = v.no_sender;
    runs = v.runs;
    serves = v.serves;
    in_order = v.in_order;
    over = v.over;
    spared = v.spared;
  }

  pub step-IsLinked :
      (s : Runtime Chan R) (e : Step Req Act) → IsLinked M P s → IsLinked M P (step M P s e)
  unfolding step System.step
  step-IsLinked s (wake w) v =
      on_wake-IsLinked M P w s (outgoing s.tracker.phase w s.tracker) refl v
  step-IsLinked s receive v = on_receive-IsLinked s (s.bcast.looping && s.bcast.frame_rx_ok) refl v
  step-IsLinked s (request q) v = on_request-IsLinked q s v
  step-IsLinked s (held i a) v = acts-IsLinked s _ s.bcast.detached v
  step-IsLinked s (free i a) v = acts-IsLinked s s.bcast.relays _ v

  pub run-step-IsLinked :
      (s : Runtime Chan R) (es : List (Step Req Act)) → IsLinked M P s → IsLinked M P (run M P s es)
  unfolding run
  run-step-IsLinked s [] v = v
  run-step-IsLinked s (e ∷ es) v = run-step-IsLinked (step M P s e) es (step-IsLinked s e v)

  -- In every run of a job's tasks, in any order: the broadcaster outlives the tracker, so no send of
  -- the tracker fails and the error `BroadcasterDisappeared` never arises; what the tracker has sent
  -- is what the broadcaster has in its buffer, followed by what is still in the channel; and the
  -- broadcaster sees the end of the channel only after the tracker has returned and with nothing left.
  pub run-IsLinked :
      (job : Job) (es : List (Step Req Act)) → IsLinked M P (run M P (start M P job) es)
  run-IsLinked job es = run-step-IsLinked (start M P job) es (start-IsLinked M P job)
