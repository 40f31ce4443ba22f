-- ===== src/Runtime/Trace.antt =====
-- The rounds that the tracker of a job makes in a run of all its tasks.
use rust_job_runner.Common.{
  ◌≡◌, refl, sym, ap, ◌∙◌, true, false, ◌&&◌, Option, none, some, List, [], ◌∷◌, ◌++◌,
}
use rust_job_runner.Types.{Job}
use rust_job_runner.Frames.{FrameEvent}
use rust_job_runner.Channel.{Send, full, refused, sent, Mpsc}
use rust_job_runner.Tracker.{Tracker, Event, track}
use rust_job_runner.Tracker
use rust_job_runner.Broadcast.Port.{RelayPort}
use rust_job_runner.Runtime.{
  Wake, Runtime, Step, wake, receive, request, held, free, to_event, outgoing, on_send, on_wake,
  on_request, start, step, run,
}
use rust_job_runner.Runtime.Turns.{on_receive-tracker}

run-append-tracker :
    (t : Tracker) (xs ys : List Event)
    → Tracker.run t (xs ++ ys) ≡ Tracker.run (Tracker.run t xs) ys
unfolding Tracker.run
run-append-tracker t [] ys = refl
run-append-tracker t (x ∷ xs) ys = run-append-tracker (Tracker.step t x) xs ys

module _ {R Req : Type 0} (M : Mpsc FrameEvent) (P : RelayPort R Req) where
  open M use {Chan, send}
  open P use {Act}

  -- A wake makes no round while its send finds no room.
  abbrev sent_round : Wake → Send Chan → List Event
  sent_round w full = []
  sent_round w refused = to_event false w ∷ []
  sent_round w (sent c) = to_event true w ∷ []

  abbrev woken_round : Wake → Runtime Chan R → Option FrameEvent → List Event
  woken_round w s none = to_event true w ∷ []
  woken_round w s (some ev) = sent_round w (send s.frames ev)

  abbrev pub round : Runtime Chan R → Step Req Act → List Event
  round s (wake w) = woken_round w s (outgoing s.tracker.phase w s.tracker)
  round s _ = []

  abbrev pub trace : Runtime Chan R → List (Step Req Act) → List Event
  trace s [] = []
  trace s (e ∷ es) = round s e ++ trace (step M P s e) es

  sent_round-tracker :
      (w : Wake) (s : Runtime Chan R) (o : Send Chan)
      → (on_send M P w s o).tracker ≡ Tracker.run s.tracker (sent_round w o)
  unfolding on_send Tracker.run
  sent_round-tracker w s full = refl
  sent_round-tracker w s refused = refl
  sent_round-tracker w s (sent c) = refl

  woken_round-tracker :
      (w : Wake) (s : Runtime Chan R) (o : Option FrameEvent)
      → (on_wake M P w s o).tracker ≡ Tracker.run s.tracker (woken_round w s o)
  unfolding on_wake Tracker.run
  woken_round-tracker w s none = refl
  woken_round-tracker w s (some ev) = sent_round-tracker w s (send s.frames ev)

  round-tracker :
      (s : Runtime Chan R) (e : Step Req Act)
      → (step M P s e).tracker ≡ Tracker.run s.tracker (round s e)
  unfolding step Tracker.run on_request
  round-tracker s (wake w) = woken_round-tracker w s (outgoing s.tracker.phase w s.tracker)
  round-tracker s receive = on_receive-tracker M P s (s.bcast.looping && s.bcast.frame_rx_ok)
  round-tracker s (request q) = refl
  round-tracker s (held i a) = refl
  round-tracker s (free i a) = refl

  -- The tracker in a run of all tasks is the tracker of its own rounds.
  run-tracker :
      (s : Runtime Chan R) (es : List (Step Req Act))
      → (run M P s es).tracker ≡ Tracker.run s.tracker (trace s es)
  unfolding run
  run-tracker s [] = unfold Tracker.run in refl
  run-tracker s (e ∷ es) =
      run-tracker (step M P s e) es
      ∙ ap (λ t. Tracker.run t (trace (step M P s e) es)) (round-tracker s e)
      ∙ sym (run-append-tracker s.tracker (round s e) (trace (step M P s e) es))

  pub run-start-tracker :
      (job : Job) (es : List (Step Req Act))
      → (run M P (start M P job) es).tracker ≡ Tracker.run (track job) (trace (start M P job) es)
  unfolding start
  run-start-tracker job es = run-tracker (start M P job) es
