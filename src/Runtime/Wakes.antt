-- ===== src/Runtime/Wakes.antt =====
-- What a wake of the tracker does to its record of sent events, to its error and to its phase.
use rust_job_runner.Common.{
  ◌≡◌, ◌≢◌, refl, true, none, some, ok, err, List, [], ◌∷◌, ◌++◌, append-nil, arith,
}
use rust_job_runner.Types.{Job}
use rust_job_runner.Frames.{stdout, stderr, FrameEvent, broadcaster_disappeared}
use rust_job_runner.Tracker.{
  Phase, looping, broken, complete, Tracker, track, on_output, on_kill, on_exit, body, loop_head,
  finish, turn, step,
}
use rust_job_runner.Runtime.{Wake, output, kill_request, exit, end, to_event, outgoing}

-- The tracker has never met a broadcaster that is gone.
pub IsSpared : Tracker → Type 0
IsSpared t = (ev : FrameEvent) → t.loop_err ≢ some (broadcaster_disappeared ev)

-- What a round does, where `tail` is what it adds to the events sent.
pub record IsRound (t u : Tracker) (tail : List FrameEvent) : Type 0 where
  pub adds : u.sent ≡ t.sent ++ tail
  pub spares : IsSpared t → IsSpared u

pub track-IsSpared : (job : Job) → IsSpared (track job)
unfolding track IsSpared
track-IsSpared job ev e = ground arith

-- A wake that sends nothing.
turn-silent :
    (p : Phase) (w : Wake) (t : Tracker)
    → t.phase ≡ p
    → outgoing p w t ≡ none
    → IsRound t (turn p (to_event true w) t) []
      × ((turn p (to_event true w) t).phase ≡ complete → t.phase ≡ complete)
unfolding turn body loop_head on_output on_kill on_exit finish IsSpared
turn-silent looping (output stdout none) t l e = ground (arith, append-nil t.sent)
turn-silent looping (output stdout (some (ok bs))) t l e = ground (arith, append-nil t.sent)
turn-silent looping (output stdout (some (err x))) t l e = ground (arith, append-nil t.sent)
turn-silent looping (output stderr none) t l e = ground (arith, append-nil t.sent)
turn-silent looping (output stderr (some (ok bs))) t l e = ground (arith, append-nil t.sent)
turn-silent looping (output stderr (some (err x))) t l e = ground (arith, append-nil t.sent)
turn-silent looping (kill_request none killed now) t l e = ground (arith, append-nil t.sent)
turn-silent looping (kill_request (some req) (ok u) now) t l e = ground (arith, append-nil t.sent)
turn-silent looping (kill_request (some req) (err x) now) t l e = ground (arith, append-nil t.sent)
turn-silent looping (exit (ok status) now) t l e = ground (arith, append-nil t.sent)
turn-silent looping (exit (err x) now) t l e = ground (arith, append-nil t.sent)
turn-silent looping end t l e = ground (arith, append-nil t.sent)
turn-silent broken (output kind o) t l e = ground (arith, append-nil t.sent)
turn-silent broken (kill_request o killed now) t l e = ground (arith, append-nil t.sent)
turn-silent broken (exit status now) t l e = ground (arith, append-nil t.sent)
turn-silent broken end t l e = ground arith
turn-silent complete w t l e = ground (arith, append-nil t.sent)

-- A wake that sends `ev`, which the channel takes.
turn-taken :
    (p : Phase) (w : Wake) (t : Tracker) (ev : FrameEvent)
    → t.phase ≡ p
    → outgoing p w t ≡ some ev
    → IsRound t (turn p (to_event true w) t) (ev ∷ []) × (p ≢ complete)
unfolding turn body loop_head on_output finish IsSpared
turn-taken looping (output stdout none) t ev l e = absurd (ground arith)
turn-taken looping (output stdout (some (ok bs))) t ev l e = ground arith
turn-taken looping (output stdout (some (err x))) t ev l e = absurd (ground arith)
turn-taken looping (output stderr none) t ev l e = absurd (ground arith)
turn-taken looping (output stderr (some (ok bs))) t ev l e = ground arith
turn-taken looping (output stderr (some (err x))) t ev l e = absurd (ground arith)
turn-taken looping (kill_request o killed now) t ev l e = absurd (ground arith)
turn-taken looping (exit status now) t ev l e = absurd (ground arith)
turn-taken looping end t ev l e = absurd (ground arith)
turn-taken broken end t ev l e = ground arith
turn-taken broken (output kind o) t ev l e = absurd (ground arith)
turn-taken broken (kill_request o killed now) t ev l e = absurd (ground arith)
turn-taken broken (exit status now) t ev l e = absurd (ground arith)
turn-taken complete w t ev l e = absurd (ground arith)

turn-complete :
    (p : Phase) (w : Wake) (t : Tracker)
    → t.phase ≡ p
    → p ≡ complete
    → (turn p (to_event true w) t).phase ≡ complete
unfolding turn
turn-complete complete w t l e = l
turn-complete looping w t l e = absurd (ground arith)
turn-complete broken w t l e = absurd (ground arith)

-- The same of `step`.
pub step-silent :
    (w : Wake) (t : Tracker)
    → outgoing t.phase w t ≡ none
    → let u = step t (to_event true w) in
      IsRound t u []
      × (u.phase ≡ complete → t.phase ≡ complete)
      × (t.phase ≡ complete → u.phase ≡ complete)
unfolding step
step-silent w t e =
    let (round, before) = turn-silent t.phase w t refl e in
    (round, before, λ l. turn-complete t.phase w t refl l)

pub step-taken :
    (w : Wake) (t : Tracker) (ev : FrameEvent)
    → outgoing t.phase w t ≡ some ev
    → IsRound t (step t (to_event true w)) (ev ∷ []) × (t.phase ≢ complete)
unfolding step
step-taken w t ev e = turn-taken t.phase w t ev refl e
