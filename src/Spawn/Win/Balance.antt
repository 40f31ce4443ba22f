-- ===== src/Spawn/Win/Balance.antt =====
-- src/proc/spawn/win.rs: every handle that `Child::spawn` opens is closed once.
use rust_job_runner.Common.{ℕ, ◌+◌, ◌≡◌, true, false, Result, ok, err, List, [], ◌∷◌, count}
use rust_job_runner.Spawn.{Outcome}
use rust_job_runner.Spawn.Win.Handle.{PipeKind, Handle}
use rust_job_runner.Spawn.Win.Process.{Error, Child, Made, Win32, drop_result}

-- What `CreatePipe` and `HANDLE` promise.
pub record HasPipes (w : Win32) : Type 0 where
  pub default_invalid : w.is_invalid w.default_handle ≡ true
  pub pipe_valid :
      (kind : PipeKind) {r t : ℕ}
      → w.create_pipe kind ≡ ok (r, t)
      → (w.is_invalid r ≡ false) × (w.is_invalid t ≡ false)

module _ (w : Win32) (i : ℕ) where
  -- The drop of `h` closes it.
  IsOwner : Handle → Type 0
  IsOwner h = (h.owned ≡ true) × (w.is_invalid h.inner ≡ false)

  -- The two ends of a pipe, or nothing.
  abbrev ends : Result (Handle × Handle) Error → List ℕ
  ends (ok (tx, rx)) = rx.inner ∷ tx.inner ∷ []
  ends (err e) = []

  IsPair : Result (Handle × Handle) Error → Type 0
  IsPair (ok (tx, rx)) = IsOwner tx × IsOwner rx
  IsPair (err e) = Unit

  record IsPipe (m : Made (Result (Handle × Handle) Error)) : Type 0 where
    balance : count i m.closed + count i (ends m.result) ≡ count i m.opened
    pair : IsPair m.result

  -- A spawn that does not panic, and the drop of what it gives.
  IsClosed : Made (Outcome (Result Child Error)) → List ℕ → Type 0
  IsClosed m held =
      count i m.closed + count i (drop_result w m.result) ≡ count i m.opened + count i held
