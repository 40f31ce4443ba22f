-- ===== src/Fleet/Entries.antt =====
-- What a change of one entry does to the others.
use rust_job_runner.Common.{
  String, ◌≡◌, refl, ap, sym, subst, inl, inr, some, [], ◌∷◌, Dict, insert, lookup, str_eq, eq_iff,
  Bool-cases, All, arith,
}
use rust_job_runner.Fleet.{Entry, trackers, update}

-- A predicate on keys and entries.
module _ {A : Type 0} (p : String × A → Type 0) where
  pub update-All :
      (k : String) (f : A → A) (d : Dict A)
      → ((a : A) → lookup k d ≡ some a → p (k, a) → p (k, f a))
      → All p d
      → All p (update k f d)
  unfolding update lookup
  update-All k f [] h v = tt
  update-All k f ((j, a) ∷ d) h (v, w) = elim (Bool-cases (str_eq j k)) [
    | inl same ↦
        let e : j ≡ k = (eq_iff j k).0 same in
        let v' = h a (rw same refl) (subst (λ i. p (i, a)) e v) in
        rw same (subst (λ i. p (i, f a)) (sym e) v', w)
    | inr other ↦ rw other (v, update-All k f d (λ b q u. h b (rw other q) u) w)
  ]

  pub lookup-All : (k : String) (d : Dict A) {a : A} → All p d → lookup k d ≡ some a → p (k, a)
  unfolding lookup
  lookup-All k [] v e = absurd (ground arith)
  lookup-All k ((j, b) ∷ d) {a} (h, v) e = elim (Bool-cases (str_eq j k)) [
    | inl same ↦
        let key : j ≡ k = (eq_iff j k).0 same in
        let entry : b ≡ a = ground arith in
        subst (λ i. p (i, a)) key (subst (λ b. p (j, b)) entry h)
    | inr other ↦ let rest : lookup k d ≡ some a = ground arith in lookup-All k d v rest
  ]

  pub insert-All : (k : String) (a : A) (d : Dict A) → p (k, a) → All p d → All p (insert k a d)
  unfolding insert
  insert-All k a [] h v = (h, tt)
  insert-All k a ((j, b) ∷ d) h (v, w) = elim (Bool-cases (str_eq j k)) [
    | inl same ↦ rw same (h, w)
    | inr other ↦ rw other (v, insert-All k a d h w)
  ]

pub lookup-update :
    {A : Type 0} (k : String) (f : A → A) (d : Dict A) {a : A}
    → lookup k d ≡ some a
    → lookup k (update k f d) ≡ some (f a)
unfolding lookup update
lookup-update k f [] e = absurd (ground arith)
lookup-update k f ((j, b) ∷ d) {a} e = elim (Bool-cases (str_eq j k)) [
  | inl same ↦ let b_is : b ≡ a = ground arith in rw (same, same) (ap (λ a. some (f a)) b_is)
  | inr other ↦
      let rest : lookup k d ≡ some a = ground arith in rw (other, other) (lookup-update k f d rest)
]

module _ {C R Req : Type 0} where
  pub lookup-trackers :
      (k : String) (d : Dict (Entry C R Req)) {a : Entry C R Req}
      → lookup k d ≡ some a
      → lookup k (trackers d) ≡ some a.tasks.tracker
  unfolding lookup
  lookup-trackers k [] e = absurd (ground arith)
  lookup-trackers k ((j, b) ∷ d) {a} e = elim (Bool-cases (str_eq j k)) [
    | inl same ↦
        let same_entry : b ≡ a = ground arith in rw same (ap (λ a. some a.tasks.tracker) same_entry)
    | inr other ↦
        let rest : lookup k d ≡ some a = ground arith in rw other (lookup-trackers k d rest)
  ]
