-- ===== src/Coord/FreeIds.antt =====
-- Which ids are free without the spawns of other users.
use rust_job_runner.Common.{
  String, ◌≡◌, refl, sym, ◌∙◌, true, false, none, some, Option, Result, ok, err, List, [], ◌∷◌,
  lookup, str_eq, arith, inl, inr, Bool-cases,
}
use rust_job_runner.Types.{Ctx, JobId, DateTime}
use rust_job_runner.Spawn.{TokioChild, Outcome, returned, panicked}
use rust_job_runner.Spawn
use rust_job_runner.Tracker.{Tracker}
use rust_job_runner.Coord.{Memory, empty, add_job, on_spawned, spawn}
use rust_job_runner.Coord.History.{Call, spawns, tracker_turn, after, history}
use rust_job_runner.Coord.Table.{key_of, entry_after, lookup-after}
use rust_job_runner.Coord.Purged.{purged}

-- A key that is free in the first table is free in the second.
abbrev FreeIn : Memory → Memory → Type 0
FreeIn m n = (k : String) → lookup k m.jobs ≡ none → lookup k n.jobs ≡ none

entry_after-none :
    (c : Call) (o p : Option Tracker)
    → (o ≡ none → p ≡ none)
    → entry_after c o ≡ none
    → (o ≡ none) × (entry_after c p ≡ none)
entry_after-none (spawns _ id panicked now) o p h e = (e, h e)
entry_after-none (spawns _ id (returned (err x)) now) o p h e = (e, h e)
entry_after-none (spawns _ id (returned (ok child)) now) o p h e = absurd (ground arith)
entry_after-none (tracker_turn _ x) none p h e = (refl, rw (h refl) refl)
entry_after-none (tracker_turn _ x) (some t) p h e = absurd (ground arith)

after-hit :
    (m : Memory) (c : Call) (k : String)
    → str_eq (key_of c) k ≡ true
    → lookup k (after m c).jobs ≡ entry_after c (lookup k m.jobs)
after-hit m c k hit = rw (lookup-after m c k, hit) refl

after-miss :
    (m : Memory) (c : Call) (k : String)
    → str_eq (key_of c) k ≡ false
    → lookup k (after m c).jobs ≡ lookup k m.jobs
after-miss m c k miss = rw (lookup-after m c k, miss) refl

after-FreeIn : (m n : Memory) (c : Call) → FreeIn m n → FreeIn (after m c) (after n c)
after-FreeIn m n c h k e = elim (Bool-cases (str_eq (key_of c) k)) [
  | inl hit ↦
      after-hit n c k hit
      ∙ (entry_after-none c (lookup k m.jobs) (lookup k n.jobs) (h k)
          (sym (after-hit m c k hit) ∙ e)).1
  | inr miss ↦ after-miss n c k miss ∙ h k (sym (after-miss m c k miss) ∙ e)
]

spawned-FreeIn : (m n : Memory) (c : Call) → FreeIn m n → FreeIn (after m c) n
spawned-FreeIn m n c h k e = elim (Bool-cases (str_eq (key_of c) k)) [
  | inl hit ↦
      h k
        (entry_after-none c (lookup k m.jobs) (lookup k n.jobs) (h k)
          (sym (after-hit m c k hit) ∙ e)).0
  | inr miss ↦ h k (sym (after-miss m c k miss) ∙ e)
]

history-FreeIn :
    (ctx : Ctx) (cs : List Call) (m n : Memory)
    → FreeIn m n
    → FreeIn (history m cs) (history n (purged ctx cs))
unfolding history purged
history-FreeIn ctx [] m n h = h
history-FreeIn ctx (tracker_turn k e ∷ cs) m n h =
    let c = tracker_turn k e in history-FreeIn ctx cs (after m c) (after n c) (after-FreeIn m n c h)
history-FreeIn ctx (spawns c id child now ∷ cs) m n h =
    let s = spawns c id child now in
    elim (Bool-cases (str_eq c.user.id ctx.user.id)) [
      | inl own ↦ rw own (history-FreeIn ctx cs (after m s) (after n s) (after-FreeIn m n s h))
      | inr other ↦ rw other (history-FreeIn ctx cs (after m s) n (spawned-FreeIn m n s h))
    ]

-- A spawn under an id that is not in use has the same answer in both.
pub spawn-purged :
    (ctx : Ctx) (cs : List Call) (id : JobId) (child : Outcome (Result TokioChild Spawn.Error))
    (now : DateTime)
    → lookup id.value (history empty cs).jobs ≡ none
    → (spawn (history empty cs) ctx id child now).1
      ≡ (spawn (history empty (purged ctx cs)) ctx id child now).1
unfolding spawn on_spawned add_job
spawn-purged ctx cs id panicked now free = refl
spawn-purged ctx cs id (returned (err e)) now free = refl
spawn-purged ctx cs id (returned (ok child)) now free =
    rw (free, history-FreeIn ctx cs empty empty (λ k e. e) id.value free) refl
