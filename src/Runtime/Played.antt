-- ===== src/Runtime/Played.antt =====
-- What the clients of a job read of what its tracker sent.
use rust_job_runner.Common.{
  ◌≡◌, refl, sym, ap, ◌∙◌, subst, Bool, true, false, ◌&&◌, Option, none, some, List, [], ◌∷◌, ◌++◌,
  All,
}
use rust_job_runner.Types.{Job}
use rust_job_runner.Frames.{FrameEvent}
use rust_job_runner.Channel.{Recv, pending, closed, got, Send, full, refused, sent, Mpsc}
use rust_job_runner.Relay.{Relay, FrameRequest, Turn}
use rust_job_runner.Relay.Order.{IsPrefix}
use rust_job_runner.Broadcast.Port.{RelayPort}
use rust_job_runner.Broadcast.{frame_rx, req_rx, new}
use rust_job_runner.Broadcast.System.{Event, broadcaster, held_acts, free_acts}
use rust_job_runner.Broadcast.System
use rust_job_runner.Broadcast.Buffer.{received, run-frames}
use rust_job_runner.Broadcast.Clients.{relay_port, IsServed, run-IsServed, IsPrefix-trans}
use rust_job_runner.Runtime.{
  Wake, Runtime, Step, wake, receive, request, held, free, start, on_send, on_wake, on_recv,
  on_receive, on_request, step, run, outgoing,
}
use rust_job_runner.Runtime.Flow.{run-IsLinked}

module _ {R Req : Type 0} (M : Mpsc FrameEvent) (P : RelayPort R Req) where
  open M use {Chan, recv, send}
  open P use {Act}

  -- The events of the broadcaster's own run behind a step of one of the tasks.
  recv_events : Recv Chan FrameEvent → List (Event Req Act)
  recv_events pending = []
  recv_events closed = broadcaster (frame_rx none) ∷ []
  recv_events (got ev c) = broadcaster (frame_rx (some ev)) ∷ []

  receive_events : Runtime Chan R → Bool → List (Event Req Act)
  receive_events s true = recv_events (recv s.frames)
  receive_events s false = []

  step_events : Runtime Chan R → Step Req Act → List (Event Req Act)
  step_events s (wake w) = []
  step_events s receive = receive_events s (s.bcast.looping && s.bcast.frame_rx_ok)
  step_events s (request q) = broadcaster (req_rx (some q)) ∷ []
  step_events s (held i a) = held_acts i a ∷ []
  step_events s (free i a) = free_acts i a ∷ []

  pub events : Runtime Chan R → List (Step Req Act) → List (Event Req Act)
  events s [] = []
  events s (e ∷ es) = step_events s e ++ events (step M P s e) es

  on_send-bcast :
      (w : Wake) (s : Runtime Chan R) (o : Send Chan) → (on_send M P w s o).bcast ≡ s.bcast
  unfolding on_send
  on_send-bcast w s full = refl
  on_send-bcast w s refused = refl
  on_send-bcast w s (sent c) = refl

  on_wake-bcast :
      (w : Wake) (s : Runtime Chan R) (o : Option FrameEvent) → (on_wake M P w s o).bcast ≡ s.bcast
  unfolding on_wake
  on_wake-bcast w s none = refl
  on_wake-bcast w s (some ev) = on_send-bcast w s (send s.frames ev)

  on_recv-bcast :
      (s : Runtime Chan R) (o : Recv Chan FrameEvent)
      → (on_recv M P s o).bcast ≡ System.run P s.bcast (recv_events o)
  unfolding on_recv recv_events System.run System.step
  on_recv-bcast s pending = refl
  on_recv-bcast s closed = refl
  on_recv-bcast s (got ev c) = refl

  on_receive-bcast :
      (s : Runtime Chan R) (on : Bool)
      → (on_receive M P s on).bcast ≡ System.run P s.bcast (receive_events s on)
  unfolding on_receive receive_events System.run
  on_receive-bcast s true = on_recv-bcast s (recv s.frames)
  on_receive-bcast s false = refl

  step-bcast :
      (s : Runtime Chan R) (e : Step Req Act)
      → (step M P s e).bcast ≡ System.run P s.bcast (step_events s e)
  unfolding step step_events on_request System.run System.step
  step-bcast s (wake w) = on_wake-bcast w s (outgoing s.tracker.phase w s.tracker)
  step-bcast s receive = on_receive-bcast s (s.bcast.looping && s.bcast.frame_rx_ok)
  step-bcast s (request q) = refl
  step-bcast s (held i a) = refl
  step-bcast s (free i a) = refl

  run-bcast :
      (s : Runtime Chan R) (es : List (Step Req Act))
      → (run M P s es).bcast ≡ System.run P s.bcast (events s es)
  unfolding run events System.run
  run-bcast s [] = refl
  run-bcast s (e ∷ es) =
      run-bcast (step M P s e) es
      ∙ ap (λ b. System.run P b (events (step M P s e) es)) (step-bcast s e)
      ∙ sym (System.run-append P s.bcast (step_events s e) (events (step M P s e) es))

  -- A run of the tasks of a job is, for the broadcaster, a run of its own system.
  pub start-bcast :
      (job : Job) (es : List (Step Req Act))
      → (run M P (start M P job) es).bcast ≡ System.run P new (events (start M P job) es)
  unfolding start
  start-bcast job es = run-bcast (start M P job) es

module _ (M : Mpsc FrameEvent) where
  open M use {Chan}

  IsServed-longer :
      (frames more : List FrameEvent) (rs : List (Relay Chan))
      → IsPrefix frames more
      → All (IsServed M frames) rs
      → All (IsServed M more) rs
  IsServed-longer frames more [] p v = tt
  IsServed-longer frames more (r ∷ rs) p (h, v) = (
    record {
      read_prefix = IsPrefix-trans M r.taken frames more h.read_prefix p;
      never_drains = h.never_drains;
      drain_unset = h.drain_unset;
      never_cut = h.never_cut;
    },
    IsServed-longer frames more rs p v,
  )

  -- In every run of all tasks of a job, each client has read a first part of what the tracker sent,
  -- in order, whatever the tracker, the broadcaster, the relays and the other clients do in between; no
  -- relay ever drains, and no client that holds its receiver gets a `None`.
  pub run-IsPlayed :
      (job : Job) (es : List (Step FrameRequest Turn))
      → let s = run M (relay_port M) (start M (relay_port M) job) es in
        All (IsServed M s.tracker.sent) (s.bcast.relays ++ s.bcast.detached)
  run-IsPlayed job es =
      let P = relay_port M in
      let s = run M P (start M P job) es in
      let b = start-bcast M P job es in
      let v = run-IsLinked M P job es in
      let es' = events M P (start M P job) es in
      let buffered : received P es' ≡ s.bcast.frames =
        sym (ap (λ b. b.frames) b ∙ run-frames P es') in
      IsServed-longer (received P es') s.tracker.sent (s.bcast.relays ++ s.bcast.detached)
        (M.queue s.frames, ap (λ l. l ++ M.queue s.frames) buffered ∙ sym v.in_order)
        (subst (λ b. All (IsServed M (received P es')) (b.relays ++ b.detached)) (sym b)
          (run-IsServed M es'))
