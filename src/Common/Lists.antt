-- ===== src/Common/Lists.antt =====
-- Lists measured and cut by native numbers, under the library's names, and predicates over lists.
use Prim.Native.Nat.{ℕ, zero, suc, ◌+◌, ◌≤◌}
use mathlib.Core.Path.{◌≡◌, refl, ap, ◌∙◌}
use mathlib.Core.List.{List, [], ◌∷◌, ◌++◌}
use mathlib.Core.Option.{Option, none, some}
use native.Mathlib.Omega.{arith}
use rust_job_runner.Common.Tests.{◌==◌, if◌then◌else◌}

module _ {ℓ} {A : Type ℓ} where
  abbrev pub length : List A → ℕ
  length [] = 0
  length (x ∷ xs) = suc (length xs)

  pub length-append : (l m : List A) → length (l ++ m) ≡ length l + length m
  length-append [] m = ground arith
  length-append (a ∷ l) m = ground (arith, length-append l m)

  abbrev pub take : ℕ → List A → List A
  take zero l = []
  take (suc n) [] = []
  take (suc n) (a ∷ l) = a ∷ take n l

  abbrev pub drop : ℕ → List A → List A
  drop zero l = l
  drop (suc n) [] = []
  drop (suc n) (a ∷ l) = drop n l

  take-drop : (k : ℕ) (l : List A) → take k l ++ drop k l ≡ l
  take-drop zero l = refl
  take-drop (suc k) [] = refl
  take-drop (suc k) (a ∷ l) = ap (λ m. a ∷ m) (take-drop k l)

  drop-nil : (n : ℕ) → drop n [] ≡ []
  drop-nil zero = refl
  drop-nil (suc n) = refl

  pub drop-all : (n : ℕ) (l : List A) → length l ≤ n → drop n l ≡ []
  drop-all zero [] h = refl
  drop-all zero (a ∷ l) h = absurd (omega (arith, h))
  drop-all (suc n) [] h = refl
  drop-all (suc n) (a ∷ l) h = drop-all n l (omega (arith, h))

  drop-add : (n k : ℕ) (l : List A) → drop (n + k) l ≡ drop k (drop n l)
  drop-add zero k l = let e : 0 + k ≡ k = omega arith in ap (λ m. drop m l) e
  drop-add (suc n) zero [] = drop-nil _
  drop-add (suc n) (suc k) [] = drop-nil _
  drop-add (suc n) k (a ∷ l) =
      let e : suc n + k ≡ suc (n + k) = omega arith in ap (λ m. drop m (a ∷ l)) e ∙ drop-add n k l

  -- What is taken between two places and what is left behind the second make up what was left.
  pub take-drop-append : (n k : ℕ) (l : List A) → take k (drop n l) ++ drop (n + k) l ≡ drop n l
  take-drop-append n k l = rw (drop-add n k l) (take-drop k (drop n l))

  abbrev pub concat : List (List A) → List A
  concat [] = []
  concat (xs ∷ xss) = xs ++ concat xss

  abbrev pub option_list : Option A → List A
  option_list none = []
  option_list (some a) = a ∷ []

-- How often a number stands in a list.
abbrev pub count : ℕ → List ℕ → ℕ
count a [] = 0
count a (x ∷ xs) = (if x == a then 1 else 0) + count a xs

module _ (i : ℕ) where
  pub count-append : (here there : List ℕ) → count i (here ++ there) ≡ count i here + count i there
  count-append [] there = ground arith
  count-append (j ∷ here) there = ground (arith, count-append here there)

-- Every member satisfies a predicate.
abbrev pub All {ℓ κ} : {A : Type ℓ} → (A → Type κ) → List A → Type κ
All p [] = Unit
All p (a ∷ here) = p a × All p here

module _ {ℓ κ} {A : Type ℓ} (p : A → Type κ) where
  pub All-append : (here there : List A) → All p here → All p there → All p (here ++ there)
  All-append [] there v w = w
  All-append (a ∷ here) there (h, v) w = (h, All-append here there v w)
