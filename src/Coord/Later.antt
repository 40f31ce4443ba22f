-- ===== src/Coord/Later.antt =====
-- Two looks at the same job: what `ps` shows later, after what it has shown before.
use rust_job_runner.Common.{
  String, ◌≡◌, refl, sym, ap, subst, ◌∙◌, some, none, Option, ok, err, List, [], ◌∷◌, arith, Dict,
  lookup, lookup-insert, str_eq, eq_iff, if◌then◌else◌, inl, inr, Bool-cases, All, false,
}
use rust_job_runner.Types.{Ctx, Job, JobId}
use rust_job_runner.Types.Life.{started}
use rust_job_runner.Spawn.{returned, panicked}
use rust_job_runner.Tracker.{Tracker, Event, step}
use rust_job_runner.Tracker.Lifecycle.{Later, same, further, IsLater, Later-IsLater, step-Next}
use rust_job_runner.Coord.{Memory, empty, get_tracker, spawn, ps}
use rust_job_runner.Coord.History.{
  Call, spawns, tracker_turn, step_at, after, history, IsEntry, after-IsEntry, history-IsEntry,
  lookup-IsEntry, ps-inv,
}

-- A call that does not reuse the id. Ids are random and never used twice.
abbrev pub Spares : JobId → Call → Type 0
Spares id (spawns ctx new_id child now) = str_eq new_id.value id.value ≡ false
Spares id (tracker_turn k e) = Unit {0}

abbrev pub stepped : Event → Option Tracker → Option Tracker
stepped e none = none
stepped e (some t) = some (step t e)

pub lookup-step_at :
    (k j : String) (e : Event) (d : Dict Tracker)
    → lookup k (step_at j e d) ≡ (if str_eq j k then stepped e (lookup k d) else lookup k d)
unfolding step_at lookup
lookup-step_at k j e [] = ground arith
lookup-step_at k j e ((i, t) ∷ d) =
    ground (arith, eq_iff j k, eq_iff i j, eq_iff i k, lookup-step_at k j e d)

-- The table has the job's tracker, further in the job's life.
HasLater : String → Job → Dict Tracker → Type 0
HasLater k job d = (u : Tracker) × (lookup k d ≡ some u) × Later job u.job

step-HasLater :
    (k j : String) (e : Event) (d : Dict Tracker) (job : Job)
    → All IsEntry d
    → HasLater k job d
    → HasLater k job (step_at j e d)
unfolding HasLater started
step-HasLater k j e d job v (u, found, p) = elim (Bool-cases (str_eq j k)) [
  | inl hit ↦
      let (_, _, _, _, _, w) = lookup-IsEntry k d v found in
      (
        step u e,
        rw (lookup-step_at k j e d, hit, found) refl,
        further p (step-Next _ refl refl u e w),
      )
  | inr miss ↦ (u, rw (lookup-step_at k j e d, miss) found, p)
]

after-HasLater :
    (m : Memory) (c : Call) (id : JobId) (job : Job)
    → Spares id c
    → All IsEntry m.jobs
    → HasLater id.value job m.jobs
    → HasLater id.value job (after m c).jobs
unfolding after spawn HasLater
after-HasLater m (spawns ctx new_id panicked now) id job other v h = h
after-HasLater m (spawns ctx new_id (returned (err e)) now) id job other v h = h
after-HasLater m (spawns ctx new_id (returned (ok child)) now) id job other v (u, found, p) =
    (u, rw (lookup-insert new_id.value id.value _ m.jobs, other) found, p)
after-HasLater m (tracker_turn k e) id job other v h = step-HasLater id.value k e m.jobs job v h

history-HasLater :
    (m : Memory) (cs : List Call) (id : JobId) (job : Job)
    → All (Spares id) cs
    → All IsEntry m.jobs
    → HasLater id.value job m.jobs
    → HasLater id.value job (history m cs).jobs
unfolding history
history-HasLater m [] id job other v h = h
history-HasLater m (c ∷ cs) id job other v h =
    history-HasLater (after m c) cs id job other.1 (after-IsEntry m c v)
      (after-HasLater m c id job other.0 v h)

ps-found :
    (m : Memory) (ctx : Ctx) (id : JobId) (t : Tracker)
    → lookup id.value m.jobs ≡ some t
    → t.job.user.id ≡ ctx.user.id
    → ps m ctx id ≡ ok t.job
unfolding ps get_tracker
ps-found m ctx id t found owner = rw found (ground (arith, eq_iff t.job.user.id ctx.user.id))

-- Once `ps` has shown a job to its owner, it shows it after every later history too, in which the id
-- is not used for a spawn again: the snapshot has only moved along the life of a job, that is, id,
-- user and start are the same, an exit with its time is final, and a kill is not taken back.
pub ps-Later :
    (before later : List Call) (ctx : Ctx) (id : JobId) (job : Job)
    → ps (history empty before) ctx id ≡ ok job
    → All (Spares id) later
    → (k : Job) × (ps (history (history empty before) later) ctx id ≡ ok k)
      × Later job k
      × IsLater job k
unfolding empty HasLater
ps-Later before later ctx id job e other =
    let m = history empty before in
    let (t, found, shown, owner) = ps-inv m ctx id job e in
    let v = history-IsEntry empty before tt in
    let (u, still, p) =
      history-HasLater m later id job other v
        (t, found, subst (λ k. Later job k) (sym shown) same) in
    let w = Later-IsLater p in
    (u.job, ps-found (history m later) ctx id u still (ap (λ x. x.id) w.same_user ∙ owner), p, w)
