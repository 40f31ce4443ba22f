-- ===== src/Spawn/Win/Handle.antt =====
-- src/proc/spawn/win.rs: `Handle`, which closes a Win32 handle when it is dropped. A `HANDLE` is a
-- number; `HANDLE::is_invalid` is the argument `is_invalid`.
use rust_job_runner.Common.{
  ℕ, zero, suc, ◌+◌, ◌≡◌, refl, Bool, true, false, not, List, [], ◌∷◌, ◌++◌, arith, length,
  length-append, if◌then◌else◌,
}

pub data PipeKind : Type 0 where
  stdout stderr : PipeKind

pub data HandleKind : Type 0 where
  process thread : HandleKind
  pipe_rx pipe_tx : PipeKind → HandleKind

pub record Handle : Type 0 where
  pub owned : Bool
  pub kind : HandleKind
  pub inner : ℕ

-- `Handle::owned`
unfoldable pub new_owned : ℕ → HandleKind → Handle
new_owned inner kind = record { owned = true; kind = kind; inner = inner }

-- `Clone for Handle`
unfoldable pub clone : Handle → Handle
clone h = record h { owned = false }

-- The handles that live, and the calls of `CloseHandle` so far.
pub record Live : Type 0 where
  pub handles : List Handle
  pub closed : List ℕ

-- A clone or a drop of the handle at a place.
pub data Op : Type 0 where
  clones : ℕ → Op
  drops : ℕ → Op

module _ (is_invalid : ℕ → Bool) where
  -- `close`, which `Drop` calls: the calls of `CloseHandle`. A call that fails panics; here it does not.
  unfoldable pub close : Handle → List ℕ
  close h = if not h.owned then [] else if not (is_invalid h.inner) then h.inner ∷ [] else []

  clone_at : ℕ → List Handle → List Handle
  unfolding clone
  clone_at i [] = []
  clone_at zero (h ∷ hs) = clone h ∷ h ∷ hs
  clone_at (suc i) (h ∷ hs) = h ∷ clone_at i hs

  drop_at : ℕ → List Handle → List Handle × List ℕ
  unfolding close
  drop_at i [] = ([], [])
  drop_at zero (h ∷ hs) = (hs, close h)
  drop_at (suc i) (h ∷ hs) = let (kept, calls) = drop_at i hs in (h ∷ kept, calls)

  unfoldable pub step : Live → Op → Live
  unfolding clone_at drop_at
  step s (clones i) = record s { handles = clone_at i s.handles }
  step s (drops i) =
      let (kept, calls) = drop_at i s.handles in
      record { handles = kept; closed = s.closed ++ calls }

  unfoldable pub run : Live → List Op → Live
  run s [] = s
  run s (op ∷ ops) = run (step s op) ops

  -- How many handles would be closed by their drop.
  abbrev pub owners : List Handle → ℕ
  owners [] = 0
  owners (h ∷ hs) = length (close h) + owners hs

  owners-clone_at : (i : ℕ) (hs : List Handle) → owners (clone_at i hs) ≡ owners hs
  unfolding clone_at close clone
  owners-clone_at i [] = refl
  owners-clone_at zero (h ∷ hs) = ground arith
  owners-clone_at (suc i) (h ∷ hs) = omega (arith, owners-clone_at i hs)

  owners-drop_at :
      (i : ℕ) (hs : List Handle) → length (drop_at i hs).1 + owners (drop_at i hs).0 ≡ owners hs
  unfolding drop_at
  owners-drop_at i [] = refl
  owners-drop_at zero (h ∷ hs) = refl
  owners-drop_at (suc i) (h ∷ hs) = omega (arith, owners-drop_at i hs)

  run-owners :
      (s : Live) (ops : List Op)
      → length (run s ops).closed + owners (run s ops).handles ≡ length s.closed + owners s.handles
  unfolding run step
  run-owners s [] = refl
  run-owners s (clones i ∷ ops) =
      omega (arith, run-owners (step s (clones i)) ops, owners-clone_at i s.handles)
  run-owners s (drops i ∷ ops) = omega (
    arith,
    run-owners (step s (drops i)) ops,
    owners-drop_at i s.handles,
    length-append s.closed (drop_at i s.handles).1,
  )

  -- A valid Win32 handle is closed once: whatever clones are made and dropped, in any order, either
  -- its owner lives and it is not closed, or it has been closed by one call.
  run-closed :
      (inner : ℕ) (kind : HandleKind) (ops : List Op)
      → is_invalid inner ≡ false
      → let s = run (record { handles = new_owned inner kind ∷ []; closed = [] }) ops in
        length s.closed + owners s.handles ≡ 1
  unfolding close new_owned
  run-closed inner kind ops valid =
      let one : owners (new_owned inner kind ∷ []) ≡ 1 = rw valid refl in
      omega
        (arith, run-owners (record { handles = new_owned inner kind ∷ []; closed = [] }) ops, one)
