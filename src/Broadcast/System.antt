-- ===== src/Broadcast/System.antt =====
-- The broadcaster together with its relays: tokio runs the tasks in any order, so a run is a list of
-- events, each a round of the broadcaster's loop or an act of one relay.
use rust_job_runner.Common.{ℕ, zero, suc, ◌≡◌, refl, ◌∙◌, List, [], ◌∷◌, ◌++◌, All}
use rust_job_runner.Frames.{FrameEvent}
use rust_job_runner.Broadcast.Port.{RelayPort}
use rust_job_runner.Broadcast.{Bcast, Select, new, turn}
use rust_job_runner.Broadcast.Streams.{IsCurrent, IsLeft, IsSynced, turn-IsSynced}

-- A relay acts under its place among those that the broadcaster holds, or among the others.
pub data Event (Req Act : Type 0) : Type 0 where
  broadcaster : Select Req → Event Req Act
  held_acts : ℕ → Act → Event Req Act
  free_acts : ℕ → Act → Event Req Act

module _ {R Req : Type 0} (P : RelayPort R Req) where
  open P use {start, offered, Held, Free, Act, act}

  act_at : ℕ → Act → List R → List R
  act_at i a [] = []
  act_at zero a (r ∷ rs) = act r a ∷ rs
  act_at (suc i) a (r ∷ rs) = r ∷ act_at i a rs

  unfoldable pub step : Bcast R → Event Req Act → Bcast R
  unfolding act_at
  step s (broadcaster e) = turn P s e
  step s (held_acts i a) = record s { relays = act_at i a s.relays }
  step s (free_acts i a) = record s { detached = act_at i a s.detached }

  unfoldable pub run : Bcast R → List (Event Req Act) → Bcast R
  run s [] = s
  run s (e ∷ es) = run (step s e) es

  pub run-append :
      (s : Bcast R) (xs ys : List (Event Req Act)) → run s (xs ++ ys) ≡ run (run s xs) ys
  unfolding run
  run-append s [] ys = refl
  run-append s (x ∷ xs) ys = run-append (step s x) xs ys

  act_at-IsCurrent :
      (frames : List FrameEvent) (i : ℕ) (a : Act) (rs : List R)
      → All (IsCurrent P frames) rs
      → All (IsCurrent P frames) (act_at i a rs)
  unfolding act_at
  act_at-IsCurrent frames i a [] v = tt
  act_at-IsCurrent frames zero a (r ∷ rs) ((h, o), v) =
      ((P.act_held r a h, P.act_offered r a ∙ o), v)
  act_at-IsCurrent frames (suc i) a (r ∷ rs) (h, v) = (h, act_at-IsCurrent frames i a rs v)

  act_at-IsLeft :
      (frames : List FrameEvent) (i : ℕ) (a : Act) (rs : List R)
      → All (IsLeft P frames) rs
      → All (IsLeft P frames) (act_at i a rs)
  unfolding act_at
  act_at-IsLeft frames i a [] v = tt
  act_at-IsLeft frames zero a (r ∷ rs) ((h, p), v) = ((P.act_free r a h, rw P.act_offered p), v)
  act_at-IsLeft frames (suc i) a (r ∷ rs) (h, v) = (h, act_at-IsLeft frames i a rs v)

  act_at-nil : (i : ℕ) (a : Act) (rs : List R) → rs ≡ [] → act_at i a rs ≡ []
  unfolding act_at
  act_at-nil i a [] e = refl
  act_at-nil i a (r ∷ rs) e = cc

  step-IsSynced : (s : Bcast R) (e : Event Req Act) → IsSynced P s → IsSynced P (step s e)
  unfolding step
  step-IsSynced s (broadcaster e) v = turn-IsSynced P s e v
  step-IsSynced s (held_acts i a) v = record {
    current = act_at-IsCurrent s.frames i a s.relays v.current;
    behind = v.behind;
    tracked_open = λ shut. act_at-nil i a s.relays (v.tracked_open shut);
  }
  step-IsSynced s (free_acts i a) v = record {
    current = v.current;
    behind = act_at-IsLeft s.frames i a s.detached v.behind;
    tracked_open = v.tracked_open;
  }

  run-IsSynced : (s : Bcast R) (es : List (Event Req Act)) → IsSynced P s → IsSynced P (run s es)
  unfolding run
  run-IsSynced s [] v = v
  run-IsSynced s (e ∷ es) v = run-IsSynced (step s e) es (step-IsSynced s e v)

  new-IsSynced : IsSynced P new
  unfolding new
  new-IsSynced = record { current = tt; behind = tt; tracked_open = λ _. refl }

  -- At every moment a relay that the broadcaster holds was offered all frames so far, in order, and
  -- every other relay a first part of them.
  pub run-new-IsSynced : (es : List (Event Req Act)) → IsSynced P (run new es)
  run-new-IsSynced es = run-IsSynced new es new-IsSynced
