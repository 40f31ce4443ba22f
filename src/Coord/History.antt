-- ===== src/Coord/History.antt =====
-- The table over any history: spawns by any users, and rounds of the tasks of the trackers, in any
-- order. `ps`, `logs` and `kill` do not write the table.
use rust_job_runner.Common.{
  String, ◌≡◌, refl, sym, ap, subst, ◌∙◌, some, Result, ok, err, List, [], ◌∷◌, ◌++◌, arith, Dict,
  lookup, insert, str_eq, eq_iff, if◌then◌else◌, is_some, inl, inr, Option-cases, Bool-cases, All,
}
use rust_job_runner.Types.{User, Ctx, Job, JobId, DateTime, Pid}
use rust_job_runner.Types.Life.{started, is_exited}
use rust_job_runner.Spawn.{TokioChild, Outcome, returned, panicked}
use rust_job_runner.Spawn
use rust_job_runner.Tracker.{Tracker, Event, step}
use rust_job_runner.Tracker.Invariant.{IsTracking, track-IsTracking, step-IsTracking}
use rust_job_runner.Coord.{Memory, empty, get_tracker, spawn, ps}

pub data Call : Type 0 where
  spawns : Ctx → JobId → Outcome (Result TokioChild Spawn.Error) → DateTime → Call
  tracker_turn : String → Event → Call

-- A round of the tracker that stands under a key.
unfoldable pub step_at : String → Event → Dict Tracker → Dict Tracker
step_at k e [] = []
step_at k e ((j, t) ∷ d) = if str_eq j k then (j, step t e) ∷ d else (j, t) ∷ step_at k e d

unfoldable pub after : Memory → Call → Memory
unfolding step_at
after m (spawns ctx id child now) = (spawn m ctx id child now).0
after m (tracker_turn k e) = record { jobs = step_at k e m.jobs }

unfoldable pub history : Memory → List Call → Memory
history m [] = m
history m (c ∷ cs) = history (after m c) cs

abbrev pub and_then : List Call → Call → List Call
and_then cs c = cs ++ c ∷ []

pub history-append :
    (m : Memory) (xs ys : List Call) → history m (xs ++ ys) ≡ history (history m xs) ys
unfolding history
history-append m [] ys = refl
history-append m (x ∷ xs) ys = history-append (after m x) xs ys

pub history-and_then :
    (m : Memory) (cs : List Call) (c : Call) → history m (and_then cs c) ≡ after (history m cs) c
unfolding history
history-and_then m cs c = history-append m cs (c ∷ [])

-- An entry of the table: a tracker of a job that was started under its key.
abbrev pub IsEntry : String × Tracker → Type 0
IsEntry (k, t) =
    (id : JobId) × (user : User) × (pid : Pid) × (now : DateTime) × (id.value ≡ k)
    × IsTracking (started id user pid now) t

insert-IsEntry :
    (k : String) (t : Tracker) (d : Dict Tracker)
    → IsEntry (k, t)
    → All IsEntry d
    → All IsEntry (insert k t d)
unfolding insert
insert-IsEntry k t [] h v = (h, tt)
insert-IsEntry k t ((j, u) ∷ d) h v = elim (Bool-cases (str_eq j k)) [
  | inl same ↦ rw same (h, v.1)
  | inr other ↦ rw other (v.0, insert-IsEntry k t d h v.1)
]

step_at-IsEntry :
    (k : String) (e : Event) (d : Dict Tracker) → All IsEntry d → All IsEntry (step_at k e d)
unfolding step_at
step_at-IsEntry k e [] v = tt
step_at-IsEntry k e ((j, t) ∷ d) ((id, user, pid, now, i, h), v) = elim (Bool-cases (str_eq j k)) [
  | inl same ↦ rw same ((id, user, pid, now, i, step-IsTracking _ t e h), v)
  | inr other ↦ rw other ((id, user, pid, now, i, h), step_at-IsEntry k e d v)
]

pub after-IsEntry : (m : Memory) (c : Call) → All IsEntry m.jobs → All IsEntry (after m c).jobs
unfolding after spawn
after-IsEntry m (spawns ctx id panicked now) v = v
after-IsEntry m (spawns ctx id (returned (err e)) now) v = v
after-IsEntry m (spawns ctx id (returned (ok child)) now) v =
    insert-IsEntry id.value _ m.jobs
      (id, ctx.user, record { pid = child.pid }, now, refl, track-IsTracking _) v
after-IsEntry m (tracker_turn k e) v = step_at-IsEntry k e m.jobs v

pub history-IsEntry :
    (m : Memory) (cs : List Call) → All IsEntry m.jobs → All IsEntry (history m cs).jobs
unfolding history
history-IsEntry m [] v = v
history-IsEntry m (c ∷ cs) v = history-IsEntry (after m c) cs (after-IsEntry m c v)

pub lookup-IsEntry :
    (k : String) (d : Dict Tracker) {t : Tracker}
    → All IsEntry d
    → lookup k d ≡ some t
    → IsEntry (k, t)
unfolding lookup
lookup-IsEntry k [] v e = cc
lookup-IsEntry k ((j, u) ∷ d) {t} (h, v) e = elim (Bool-cases (str_eq j k)) [
  | inl same ↦
      let q : u ≡ t = ground arith in
      let p = (eq_iff j k).0 same in subst IsEntry (λ i. (p i, q i)) h
  | inr other ↦ lookup-IsEntry k d v (ground arith)
]

-- What `ps` shows, after any history of the coordinator.
pub record IsShown (ctx : Ctx) (id : JobId) (job : Job) : Type 0 where
  pub right_id : job.id.value ≡ id.value
  pub right_user : job.user.id ≡ ctx.user.id
  pub consistent : is_exited job.state ≡ is_some job.ended_at

pub ps-inv :
    (m : Memory) (ctx : Ctx) (id : JobId) (job : Job)
    → ps m ctx id ≡ ok job
    → (t : Tracker) × (lookup id.value m.jobs ≡ some t)
      × (t.job ≡ job)
      × (job.user.id ≡ ctx.user.id)
unfolding ps get_tracker
ps-inv m ctx id job e = elim (Option-cases (lookup id.value m.jobs)) [
  | inl missing ↦ absurd (ground arith)
  | inr (t, found) ↦ (t, found, ground arith, ground (arith, eq_iff t.job.user.id ctx.user.id))
]

-- After any history of spawns and of the trackers' tasks, a job that `ps` shows is the one that was
-- asked for, belongs to the asker, and has an end time exactly when it has exited.
pub history-IsShown :
    (cs : List Call) (ctx : Ctx) (id : JobId) (job : Job)
    → ps (history empty cs) ctx id ≡ ok job
    → IsShown ctx id job
unfolding empty started
history-IsShown cs ctx id job e =
    let m = history empty cs in
    let (t, found, same, owner) = ps-inv m ctx id job e in
    let (j, user, pid, now, key, v) =
      lookup-IsEntry id.value m.jobs (history-IsEntry empty cs tt) found in
    record {
      right_id = ap (λ x. x.id.value) (sym same) ∙ ap (λ i. i.value) v.same_id ∙ key;
      right_user = owner;
      consistent = subst (λ x. is_exited x.state ≡ is_some x.ended_at) same (v.together refl);
    }
