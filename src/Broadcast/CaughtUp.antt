-- ===== src/Broadcast/CaughtUp.antt =====
-- What a client of the logs API gets in the end, if it stays.
use rust_job_runner.Common.{◌-◌, ◌≡◌, ◌∙◌, subst, true, List, [], ◌∷◌, ◌++◌, length, All}
use rust_job_runner.Frames.{FrameEvent}
use rust_job_runner.Channel.{Mpsc}
use rust_job_runner.Relay.{Relay, FrameRequest, Turn}
use rust_job_runner.Relay.Progress.{rounds, rounds-taken}
use rust_job_runner.Broadcast.{new}
use rust_job_runner.Broadcast.Streams.{IsCurrent}
use rust_job_runner.Broadcast.System.{Event, run, run-new-IsSynced}
use rust_job_runner.Broadcast.Buffer.{received, run-frames}
use rust_job_runner.Broadcast.Clients.{relay_port}

All-at {ℓ κ} :
    {A : Type ℓ} (p : A → Type κ) (earlier : List A) {a : A} (later : List A)
    → All p (earlier ++ a ∷ later)
    → p a
All-at p [] later v = v.0
All-at p (b ∷ earlier) later v = All-at p earlier later v.1

module _ (M : Mpsc FrameEvent) where
  open M use {Chan}

  -- At every moment of every run, a client that stays with a relay that the broadcaster holds reads
  -- all that the tracker has sent so far within a number of rounds of its relay: one round for each
  -- event that it has not read. No event has to come from elsewhere.
  pub run-rounds :
      (es : List (Event FrameRequest Turn)) (earlier later : List (Relay Chan)) (r : Relay Chan)
      → (run (relay_port M) new es).relays ≡ earlier ++ r ∷ later
      → r.attached ≡ true
      → (rounds M (length r.offered - length r.taken) r).taken ≡ received (relay_port M) es
  run-rounds es earlier later r e a =
      let s = run (relay_port M) new es in
      let current = (run-new-IsSynced (relay_port M) es).current in
      let (held, all) =
        All-at (IsCurrent (relay_port M) s.frames) earlier later
          (subst (All (IsCurrent (relay_port M) s.frames)) e current) in
      rounds-taken M 1 r held.ordered a ∙ all ∙ run-frames (relay_port M) es
