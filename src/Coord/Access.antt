-- ===== src/Coord/Access.antt =====
-- Who can see a job and act on it.
use rust_job_runner.Common.{
  ◌≡◌, ◌≢◌, ◌⊎◌, Bool, none, some, Result, ok, err, arith, lookup, eq_iff, inl, inr, map_err,
}
use rust_job_runner.Types.{Ctx, Job, JobId}
use rust_job_runner.Frames.{IoError}
use rust_job_runner.Tracker.{Tracker}
use rust_job_runner.Tracker.Requests.{Waited}
use rust_job_runner.Tracker.Requests
use rust_job_runner.Coord.{
  job_not_found, logs_not_available, Memory, get_tracker, logs, ps, kill_result, kill,
}

-- No job under this id, or a job of another user.
abbrev pub IsStranger : Memory → Ctx → JobId → Type 0
IsStranger m ctx id =
    (lookup id.value m.jobs ≡ none)
    ⊎ ((t : Tracker) × (lookup id.value m.jobs ≡ some t) × (t.job.user.id ≢ ctx.user.id))

stranger-get_tracker :
    (m : Memory) (ctx : Ctx) (id : JobId)
    → IsStranger m ctx id
    → get_tracker m ctx id ≡ err (job_not_found id)
unfolding get_tracker
stranger-get_tracker m ctx id (inl e) = rw e
stranger-get_tracker m ctx id (inr (t, e, n)) =
    rw e (ground (arith, eq_iff t.job.user.id ctx.user.id))

owner-get_tracker :
    (m : Memory) (ctx : Ctx) (id : JobId) (t : Tracker)
    → lookup id.value m.jobs ≡ some t
    → t.job.user.id ≡ ctx.user.id
    → get_tracker m ctx id ≡ ok (t, t.job)
unfolding get_tracker
owner-get_tracker m ctx id t e o = rw e (ground (arith, eq_iff t.job.user.id ctx.user.id))

-- Whoever does not own a job gets the same answer to `ps`, `logs` and `kill` as if it did not exist,
-- whatever the tracker of the job would say.
pub stranger_blocked :
    {Rx : Type 0} (m : Memory) (ctx : Ctx) (id : JobId) (accepted : Bool) (rx : Waited Rx)
    (answer : Waited (Result Job IoError))
    → IsStranger m ctx id
    → (ps m ctx id ≡ err (job_not_found id))
      × (logs m ctx id accepted rx ≡ err (job_not_found id))
      × (kill m ctx id accepted answer ≡ err (job_not_found id))
unfolding ps logs kill
stranger_blocked m ctx id accepted rx answer s =
    let e = stranger-get_tracker m ctx id s in (rw e, rw e, rw e)

-- The owner sees the snapshot of the tracker, gets its log stream, and has the kill passed on.
pub owner_served :
    {Rx : Type 0} (m : Memory) (ctx : Ctx) (id : JobId) (t : Tracker) (accepted : Bool)
    (rx : Waited Rx) (answer : Waited (Result Job IoError))
    → lookup id.value m.jobs ≡ some t
    → t.job.user.id ≡ ctx.user.id
    → (ps m ctx id ≡ ok t.job)
      × (logs m ctx id accepted rx ≡ map_err logs_not_available (Requests.stream accepted rx))
      × (kill m ctx id accepted answer ≡ kill_result id (Requests.kill accepted answer))
unfolding ps logs kill
owner_served m ctx id t accepted rx answer e o =
    let g = owner-get_tracker m ctx id t e o in (rw g, rw g, rw g)

-- Who gets through to a tracker owns its job.
pub get_tracker-owned :
    (m : Memory) (ctx : Ctx) (id : JobId) (t : Tracker) {r : Tracker × Job}
    → lookup id.value m.jobs ≡ some t
    → get_tracker m ctx id ≡ ok r
    → t.job.user.id ≡ ctx.user.id
unfolding get_tracker
get_tracker-owned m ctx id t e h = ground (arith, eq_iff t.job.user.id ctx.user.id)
