-- ===== src/Runtime/Turns.antt =====
-- What a step of the tasks of a job does to its tracker.
use rust_job_runner.Common.{◌≡◌, refl, ◌⊎◌, inl, inr, Bool, true, false, ◌&&◌, Option, none, some}
use rust_job_runner.Frames.{FrameEvent}
use rust_job_runner.Channel.{Recv, pending, closed, got, Send, full, refused, sent, Mpsc}
use rust_job_runner.Tracker.{Tracker}
use rust_job_runner.Tracker
use rust_job_runner.Broadcast.Port.{RelayPort}
use rust_job_runner.Runtime.{
  Wake, Runtime, Step, wake, receive, request, held, free, to_event, outgoing, on_send, on_wake,
  on_recv, on_receive, on_request, step,
}

module _ {R Req : Type 0} (M : Mpsc FrameEvent) (P : RelayPort R Req) where
  open M use {Chan, recv, send}
  open P use {Act}

  -- What becomes of the tracker: it stays, or makes the round of a wake.
  unfoldable pub TurnsBy : Step Req Act → Tracker → Tracker → Type 0
  TurnsBy (wake w) t u = (u ≡ t) ⊎ ((accepted : Bool) × (u ≡ Tracker.step t (to_event accepted w)))
  TurnsBy _ t u = u ≡ t

  on_send-TurnsBy :
      (w : Wake) (s : Runtime Chan R) (o : Send Chan)
      → TurnsBy (wake w) s.tracker (on_send M P w s o).tracker
  unfolding on_send TurnsBy
  on_send-TurnsBy w s full = inl refl
  on_send-TurnsBy w s refused = inr (false, refl)
  on_send-TurnsBy w s (sent c) = inr (true, refl)

  on_wake-TurnsBy :
      (w : Wake) (s : Runtime Chan R) (o : Option FrameEvent)
      → TurnsBy (wake w) s.tracker (on_wake M P w s o).tracker
  unfolding on_wake TurnsBy
  on_wake-TurnsBy w s none = inr (true, refl)
  on_wake-TurnsBy w s (some ev) = on_send-TurnsBy w s (send s.frames ev)

  on_recv-tracker :
      (s : Runtime Chan R) (o : Recv Chan FrameEvent) → (on_recv M P s o).tracker ≡ s.tracker
  unfolding on_recv
  on_recv-tracker s pending = refl
  on_recv-tracker s closed = refl
  on_recv-tracker s (got ev c) = refl

  pub on_receive-tracker :
      (s : Runtime Chan R) (on : Bool) → (on_receive M P s on).tracker ≡ s.tracker
  unfolding on_receive
  on_receive-tracker s true = on_recv-tracker s (recv s.frames)
  on_receive-tracker s false = refl

  pub step-TurnsBy :
      (s : Runtime Chan R) (e : Step Req Act) → TurnsBy e s.tracker (step M P s e).tracker
  unfolding step TurnsBy on_request
  step-TurnsBy s (wake w) = on_wake-TurnsBy w s (outgoing s.tracker.phase w s.tracker)
  step-TurnsBy s receive = on_receive-tracker s (s.bcast.looping && s.bcast.frame_rx_ok)
  step-TurnsBy s (request q) = refl
  step-TurnsBy s (held i a) = refl
  step-TurnsBy s (free i a) = refl

  -- A wake whose round sends nothing always makes its round.
  pub quiet-step :
      (s : Runtime Chan R) (w : Wake)
      → outgoing s.tracker.phase w s.tracker ≡ none
      → (step M P s (wake w)).tracker ≡ Tracker.step s.tracker (to_event true w)
  unfolding step on_wake
  quiet-step s w e = rw e refl
