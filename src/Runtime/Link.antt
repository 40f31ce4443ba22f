-- ===== src/Runtime/Link.antt =====
-- The channel between the tracker and the broadcaster of a job, while both run.
use rust_job_runner.Common.{
  ◌≡◌, ◌≢◌, refl, sym, ap, ◌∙◌, true, false, Option, none, some, [], ◌∷◌, ◌++◌, append-nil,
  append_assoc, arith, true≢false,
}
use rust_job_runner.Types.{Job}
use rust_job_runner.Frames.{FrameEvent}
use rust_job_runner.Channel.{Send, full, refused, sent, Mpsc}
use rust_job_runner.Tracker.{Phase, looping, broken, complete, Tracker}
use rust_job_runner.Tracker
use rust_job_runner.Broadcast.Port.{RelayPort}
use rust_job_runner.Broadcast.{new}
use rust_job_runner.Runtime.{Wake, Runtime, start, without_tx, on_send, on_wake, outgoing, to_event}
use rust_job_runner.Runtime.Wakes.{IsSpared, track-IsSpared, step-silent, step-taken}

module _ {R Req : Type 0} (M : Mpsc FrameEvent) (P : RelayPort R Req) where
  open M use {Chan, queue, senders, is_closed, send, recv}
  open P use {Act}

  pub record IsLinked (s : Runtime Chan R) : Type 0 where
    -- no task's end of the channel of frames is dropped too early
    pub listening : is_closed s.frames ≡ false
    pub one_sender : s.tracker.phase ≢ complete → senders s.frames ≡ 1
    pub no_sender : s.tracker.phase ≡ complete → senders s.frames ≡ 0
    -- the broadcaster goes on, for the sake of requests
    pub runs : s.bcast.looping ≡ true
    pub serves : s.bcast.req_rx_ok ≡ true
    -- what the tracker sent is in the buffer, or on its way
    pub in_order : s.tracker.sent ≡ s.bcast.frames ++ queue s.frames
    -- the broadcaster sees the end of the channel only behind everything
    pub over : s.bcast.frame_rx_ok ≡ false → (queue s.frames ≡ []) × (s.tracker.phase ≡ complete)
    pub spared : IsSpared s.tracker

  pub start-IsLinked : (job : Job) → IsLinked (start M P job)
  unfolding start new Tracker.track
  start-IsLinked job = record {
    listening = M.open-channel 2;
    one_sender = λ _. M.senders-channel 2;
    no_sender = λ e. absurd (ground arith);
    runs = refl;
    serves = refl;
    in_order = sym (M.queue-channel 2);
    over = λ e. absurd (ground arith);
    spared = track-IsSpared job;
  }

  -- The tracker's wake that sends nothing.
  silent-IsLinked :
      (w : Wake) (s : Runtime Chan R)
      → outgoing s.tracker.phase w s.tracker ≡ none
      → IsLinked s
      → IsLinked (on_wake M P w s none)
  unfolding on_wake
  silent-IsLinked w s e v =
      let (round, before, rests) = step-silent w s.tracker e in
      record {
        listening = v.listening;
        one_sender = λ l. v.one_sender (λ k. l (rests k));
        no_sender = λ l. v.no_sender (before l);
        runs = v.runs;
        serves = v.serves;
        in_order = round.adds ∙ append-nil s.tracker.sent ∙ v.in_order;
        over = λ f. ((v.over f).0, rests (v.over f).1);
        spared = round.spares v.spared;
      }

  -- The channel behind the tracker's round: the sender is dropped with the end of its task.
  IsPassed : Phase → Chan → Chan → Type 0
  IsPassed p c d =
      (is_closed d ≡ is_closed c)
      × (queue d ≡ queue c)
      × (p ≢ complete → senders d ≡ senders c)
      × (p ≡ complete → senders c ≡ 1 → senders d ≡ 0)

  without_tx-IsPassed : (p : Phase) (c : Chan) → IsPassed p c (without_tx M P p c)
  unfolding IsPassed
  without_tx-IsPassed complete c = (
    M.open-drop_tx c,
    M.queue-drop_tx c,
    λ n. absurd (n refl),
    λ _ h. M.senders-drop_tx c ∙ rw h refl,
  )
  without_tx-IsPassed looping c = ground arith
  without_tx-IsPassed broken c = ground arith

  taken-IsLinked :
      (w : Wake) (s : Runtime Chan R) (ev : FrameEvent) (c : Chan)
      → outgoing s.tracker.phase w s.tracker ≡ some ev
      → send s.frames ev ≡ sent c
      → IsLinked s
      → IsLinked (on_send M P w s (sent c))
  unfolding on_send IsPassed
  taken-IsLinked w s ev c e d v =
      let (round, going) = step-taken w s.tracker ev e in
      let u = Tracker.step s.tracker (to_event true w) in
      let (shut, kept, more, last) = without_tx-IsPassed u.phase c in
      let one = M.senders-send s.frames ev d ∙ v.one_sender going in
      record {
        listening = shut ∙ M.open-send s.frames ev d ∙ v.listening;
        one_sender = λ l. more l ∙ one;
        no_sender = λ l. last l one;
        runs = v.runs;
        serves = v.serves;
        in_order =
            round.adds
            ∙ ap (λ l. l ++ ev ∷ []) v.in_order
            ∙ append_assoc s.bcast.frames (queue s.frames) (ev ∷ [])
            ∙ ap (λ l. s.bcast.frames ++ l) (sym (kept ∙ M.queue-send s.frames ev d));
        over = λ f. absurd (going (v.over f).1);
        spared = round.spares v.spared;
      }

  -- With the broadcaster there, the send of the tracker succeeds or waits.
  on_send-IsLinked :
      (w : Wake) (s : Runtime Chan R) (ev : FrameEvent) (o : Send Chan)
      → outgoing s.tracker.phase w s.tracker ≡ some ev
      → send s.frames ev ≡ o
      → IsLinked s
      → IsLinked (on_send M P w s o)
  unfolding on_send
  on_send-IsLinked w s ev full e d v = v
  on_send-IsLinked w s ev refused e d v =
      absurd (true≢false (sym (M.send_refused s.frames ev d) ∙ v.listening))
  on_send-IsLinked w s ev (sent c) e d v = taken-IsLinked w s ev c e d v

  pub on_wake-IsLinked :
      (w : Wake) (s : Runtime Chan R) (o : Option FrameEvent)
      → outgoing s.tracker.phase w s.tracker ≡ o
      → IsLinked s
      → IsLinked (on_wake M P w s o)
  unfolding on_wake
  on_wake-IsLinked w s none e v = silent-IsLinked w s e v
  on_wake-IsLinked w s (some ev) e v = on_send-IsLinked w s ev (send s.frames ev) e refl v
