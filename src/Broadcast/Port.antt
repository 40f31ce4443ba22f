-- ===== src/Broadcast/Port.antt =====
-- What the broadcaster uses of a `FrameRelay`, and what it relies on.
use rust_job_runner.Common.{◌≡◌, Bool, true, false, Option, some, List, [], ◌∷◌, ◌++◌}
use rust_job_runner.Frames.{FrameEvent}

-- `Held` is a relay of which the broadcaster has a handle, `Free` one that it has dropped.
pub record RelayPort (R Req : Type 0) : Type 1 where
  pub start : List FrameEvent → Req → Option R
  pub accept : R → FrameEvent → R × Bool
  pub release : R → R
  -- What a relay does by itself: turns of its task, and actions of its client.
  pub Act : Type 0
  pub act : R → Act → R
  -- all that the relay was given to play
  pub offered : R → List FrameEvent
  pub Held : R → Type 0
  pub Free : R → Type 0
  pub start_held :
      (fs : List FrameEvent) (q : Req) {r : R} → start fs q ≡ some r → Held r × (offered r ≡ fs)
  pub accept_held : (r : R) (ev : FrameEvent) → Held r → Held (accept r ev).0
  pub accept_true :
      (r : R) (ev : FrameEvent)
      → (accept r ev).1 ≡ true
      → offered (accept r ev).0 ≡ offered r ++ ev ∷ []
  pub accept_false :
      (r : R) (ev : FrameEvent) → (accept r ev).1 ≡ false → offered (accept r ev).0 ≡ offered r
  pub release_free : (r : R) → Held r → Free (release r)
  pub release_offered : (r : R) → offered (release r) ≡ offered r
  pub act_held : (r : R) (a : Act) → Held r → Held (act r a)
  pub act_free : (r : R) (a : Act) → Free r → Free (act r a)
  pub act_offered : (r : R) (a : Act) → offered (act r a) ≡ offered r
