-- ===== src/Coord/Purged.antt =====
-- What a user can tell of the spawns of other users: nothing.
use rust_job_runner.Common.{
  String, ◌≡◌, refl, sym, ap, ◌∙◌, Bool, false, none, some, Option, Result, ok, err, List, [], ◌∷◌,
  lookup, str_eq, if◌then◌else◌, arith, inl, inr, Bool-cases, Option-cases, All, eq_iff,
}
use rust_job_runner.Types.{Ctx, Job, JobId, DateTime}
use rust_job_runner.Types.Life.{started}
use rust_job_runner.Frames.{IoError}
use rust_job_runner.Spawn.{TokioChild, Outcome, returned, panicked}
use rust_job_runner.Spawn
use rust_job_runner.Tracker.{Tracker, Event, step, track}
use rust_job_runner.Tracker.Requests.{Waited}
use rust_job_runner.Tracker.Invariant.{step-IsTracking}
use rust_job_runner.Coord.{Error, job_not_found, Memory, empty, get_tracker, ps, logs, kill}
use rust_job_runner.Coord.History.{
  Call, spawns, tracker_turn, after, history, IsEntry, after-IsEntry, lookup-IsEntry,
}
use rust_job_runner.Coord.Later.{stepped}
use rust_job_runner.Coord.Table.{key_of, entry_after, lookup-after}

-- A tracker under a key, if the user owns its job.
abbrev pub mine : Ctx → Option Tracker → Option Tracker
mine ctx none = none
mine ctx (some t) = if str_eq t.job.user.id ctx.user.id then some t else none

-- Two tables have the same jobs of a user.
abbrev pub Agree : Ctx → Memory → Memory → Type 0
Agree ctx m n = (k : String) → mine ctx (lookup k m.jobs) ≡ mine ctx (lookup k n.jobs)

-- The calls without the spawns of other users.
unfoldable pub purged : Ctx → List Call → List Call
purged ctx [] = []
purged ctx (tracker_turn k e ∷ cs) = tracker_turn k e ∷ purged ctx cs
purged ctx (spawns c id child now ∷ cs) =
    let rest = purged ctx cs in
    if str_eq c.user.id ctx.user.id then spawns c id child now ∷ rest else rest

-- Each spawn comes with an id that is not in use.
abbrev pub IsNew : Memory → Call → Type 0
IsNew m (spawns c id child now) = lookup id.value m.jobs ≡ none
IsNew m (tracker_turn k e) = Unit {0}

abbrev pub HasNewIds : Memory → List Call → Type 0
HasNewIds m [] = Unit {0}
HasNewIds m (c ∷ cs) = IsNew m c × HasNewIds (after m c) cs

own_of : JobId → Option Tracker → Result (Tracker × Job) Error
own_of id none = err (job_not_found id)
own_of id (some t) = ok (t, t.job)

get_tracker-mine :
    (m : Memory) (ctx : Ctx) (id : JobId)
    → get_tracker m ctx id ≡ own_of id (mine ctx (lookup id.value m.jobs))
unfolding get_tracker own_of
get_tracker-mine m ctx id = ground arith

-- A round of a tracker keeps the user of its job.
step-user :
    (k : String) (t : Tracker) (e : Event) → IsEntry (k, t) → (step t e).job.user ≡ t.job.user
step-user k t e (id, user, pid, now, same, v) =
    (step-IsTracking _ t e v).same_user ∙ sym v.same_user

stepped-mine :
    (ctx : Ctx) (k : String) (e : Event) (m : Memory)
    → All IsEntry m.jobs
    → mine ctx (stepped e (lookup k m.jobs)) ≡ stepped e (mine ctx (lookup k m.jobs))
stepped-mine ctx k e m v = elim (Option-cases (lookup k m.jobs)) [
  | inl missing ↦ rw missing refl
  | inr (t, found) ↦
      let kept =
        ap (λ u. str_eq u.id ctx.user.id) (step-user k t e (lookup-IsEntry k m.jobs v found)) in
      elim (Bool-cases (str_eq t.job.user.id ctx.user.id)) [
        | inl own ↦ rw (found, kept, own) refl
        | inr other ↦ rw (found, kept, other) refl
      ]
]

-- What a call makes of the entry under its key, in both tables.
entry_after-mine :
    (ctx : Ctx) (m n : Memory) (c : Call)
    → All IsEntry m.jobs
    → All IsEntry n.jobs
    → Agree ctx m n
    → (k : String)
    → mine ctx (entry_after c (lookup k m.jobs)) ≡ mine ctx (entry_after c (lookup k n.jobs))
entry_after-mine ctx m n (spawns _ id panicked now) v w h k = h k
entry_after-mine ctx m n (spawns _ id (returned (err e)) now) v w h k = h k
entry_after-mine ctx m n (spawns _ id (returned (ok child)) now) v w h k = refl
entry_after-mine ctx m n (tracker_turn _ e) v w h k =
    stepped-mine ctx k e m v ∙ ap (stepped e) (h k) ∙ sym (stepped-mine ctx k e n w)

-- A call that both tables take.
after-Agree :
    (ctx : Ctx) (m n : Memory) (c : Call)
    → All IsEntry m.jobs
    → All IsEntry n.jobs
    → Agree ctx m n
    → Agree ctx (after m c) (after n c)
after-Agree ctx m n c v w h k = elim (Bool-cases (str_eq (key_of c) k)) [
  | inl hit ↦ rw (lookup-after m c k, lookup-after n c k, hit) (entry_after-mine ctx m n c v w h k)
  | inr miss ↦ rw (lookup-after m c k, lookup-after n c k, miss) (h k)
]

-- What the spawn of another user puts in the table is not the user's.
other_spawn-mine :
    (ctx c : Ctx) (id : JobId) (child : Outcome (Result TokioChild Spawn.Error)) (now : DateTime)
    → str_eq c.user.id ctx.user.id ≡ false
    → mine ctx (entry_after (spawns c id child now) none) ≡ none
unfolding track started
other_spawn-mine ctx c id panicked now other = refl
other_spawn-mine ctx c id (returned (err e)) now other = refl
other_spawn-mine ctx c id (returned (ok child)) now other = rw other refl

-- A spawn of another user under a new id.
other-Agree :
    (ctx c : Ctx) (m n : Memory) (id : JobId) (child : Outcome (Result TokioChild Spawn.Error))
    (now : DateTime)
    → str_eq c.user.id ctx.user.id ≡ false
    → lookup id.value m.jobs ≡ none
    → Agree ctx m n
    → Agree ctx (after m (spawns c id child now)) n
other-Agree ctx c m n id child now other new h k = elim (Bool-cases (str_eq id.value k)) [
  | inl hit ↦
      let at : lookup k m.jobs ≡ none = ground (arith, eq_iff id.value k) in
      rw (lookup-after m (spawns c id child now) k, hit, at)
        (other_spawn-mine ctx c id child now other ∙ ap (mine ctx) (sym at) ∙ h k)
  | inr miss ↦ rw (lookup-after m (spawns c id child now) k, miss) (h k)
]

-- Both histories show the user the same of every job.
history-Agree :
    (ctx : Ctx) (cs : List Call) (m n : Memory)
    → All IsEntry m.jobs
    → All IsEntry n.jobs
    → HasNewIds m cs
    → Agree ctx m n
    → Agree ctx (history m cs) (history n (purged ctx cs))
unfolding history purged
history-Agree ctx [] m n v w new h = h
history-Agree ctx (tracker_turn k e ∷ cs) m n v w (new, later) h =
    let c = tracker_turn k e in
    history-Agree ctx cs (after m c) (after n c) (after-IsEntry m c v) (after-IsEntry n c w) later
      (after-Agree ctx m n c v w h)
history-Agree ctx (spawns c id child now ∷ cs) m n v w (new, later) h =
    let s = spawns c id child now in
    elim (Bool-cases (str_eq c.user.id ctx.user.id)) [
      | inl own ↦ rw own (
          history-Agree ctx cs (after m s) (after n s) (after-IsEntry m s v) (after-IsEntry n s w)
            later (after-Agree ctx m n s v w h))
      | inr other ↦ rw other (
          history-Agree ctx cs (after m s) n (after-IsEntry m s v) w later
            (other-Agree ctx c m n id child now other new h))
    ]

-- The user gets the same tracker, or the same error, whether or not the others have spawned.
get_tracker-purged :
    (ctx : Ctx) (cs : List Call) (id : JobId)
    → HasNewIds empty cs
    → get_tracker (history empty cs) ctx id ≡ get_tracker (history empty (purged ctx cs)) ctx id
unfolding empty
get_tracker-purged ctx cs id new =
    get_tracker-mine (history empty cs) ctx id
    ∙ ap (own_of id) (history-Agree ctx cs empty empty tt tt new (λ k. refl) id.value)
    ∙ sym (get_tracker-mine (history empty (purged ctx cs)) ctx id)

-- So the user gets the same answers from the coordinator.
pub answers-purged :
    {Rx : Type 0} (ctx : Ctx) (cs : List Call) (id : JobId) (accepted : Bool) (rx : Waited Rx)
    (answer : Waited (Result Job IoError))
    → HasNewIds empty cs
    → let m = history empty cs in
      let n = history empty (purged ctx cs) in
      (ps m ctx id ≡ ps n ctx id)
      × (logs m ctx id accepted rx ≡ logs n ctx id accepted rx)
      × (kill m ctx id accepted answer ≡ kill n ctx id accepted answer)
unfolding ps logs kill
answers-purged ctx cs id accepted rx answer new =
    let e = get_tracker-purged ctx cs id new in (rw e refl, rw e refl, rw e refl)
