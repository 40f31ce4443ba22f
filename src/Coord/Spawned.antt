-- ===== src/Coord/Spawned.antt =====
-- What `spawn` does to the table.
use rust_job_runner.Common.{
  String, ◌≡◌, ◌≢◌, refl, none, Result, ok, err, arith, lookup, lookup-insert, insert, eq_iff,
}
use rust_job_runner.Types.{Ctx, Job, JobId, DateTime, running}
use rust_job_runner.Types.Life.{started}
use rust_job_runner.Spawn.{TokioChild, Outcome, returned, panicked}
use rust_job_runner.Spawn
use rust_job_runner.Tracker.{track}
use rust_job_runner.Coord.{Memory, get_tracker, spawn, ps}

-- A spawn by another user, under a fresh id, changes nothing that a user can see: not even the new
-- id is told from one that does not exist. It is so too if the spawn fails or panics.
ps-spawn_other :
    (m : Memory) (ctx other : Ctx) (new_id id : JobId)
    (child : Outcome (Result TokioChild Spawn.Error)) (now : DateTime)
    → other.user.id ≢ ctx.user.id
    → lookup new_id.value m.jobs ≡ none
    → ps (spawn m other new_id child now).0 ctx id ≡ ps m ctx id
unfolding ps spawn get_tracker track started
ps-spawn_other m ctx other new_id id panicked now n fresh = refl
ps-spawn_other m ctx other new_id id (returned (err e)) now n fresh = refl
ps-spawn_other m ctx other new_id id (returned (ok child)) now n fresh = ground (
  arith,
  lookup-insert new_id.value id.value
      (track (started new_id other.user (record { pid = child.pid }) now)) m.jobs,
  eq_iff new_id.value id.value,
  eq_iff other.user.id ctx.user.id,
)

-- The job that a spawn starts, with what `ps` shows then.
pub spawn-started :
    (m : Memory) (ctx : Ctx) (new_id : JobId) (child : TokioChild) (now : DateTime)
    → lookup new_id.value m.jobs ≡ none
    → let (m', out) = spawn m ctx new_id (returned (ok child)) now in
      let job = started new_id ctx.user (record { pid = child.pid }) now in
      (out ≡ returned (ok job)) × (ps m' ctx new_id ≡ ok job)
unfolding spawn ps get_tracker track started
spawn-started m ctx new_id child now fresh =
    let job = started new_id ctx.user (record { pid = child.pid }) now in
    (
      rw fresh refl,
      ground (
        arith,
        lookup-insert new_id.value new_id.value (track job) m.jobs,
        eq_iff new_id.value new_id.value,
        eq_iff ctx.user.id ctx.user.id,
      ),
    )

-- A spawn that succeeds, under an id that is not in use, tracks a running job of the caller under the
-- new id, which `ps` then shows; every other entry stays.
spawn-tracks :
    (m : Memory) (ctx : Ctx) (new_id : JobId) (child : TokioChild) (now : DateTime)
    → lookup new_id.value m.jobs ≡ none
    → let (m', out) = spawn m ctx new_id (returned (ok child)) now in
      (job : Job) × (out ≡ returned (ok job))
      × (ps m' ctx new_id ≡ ok job)
      × (job.id ≡ new_id)
      × (job.user ≡ ctx.user)
      × (job.state ≡ running (record { pid = child.pid }))
      × ((k : String) → k ≢ new_id.value → lookup k m'.jobs ≡ lookup k m.jobs)
unfolding spawn started
spawn-tracks m ctx new_id child now fresh =
    let job = started new_id ctx.user (record { pid = child.pid }) now in
    let (out, shown) = spawn-started m ctx new_id child now fresh in
    (
      job,
      out,
      shown,
      refl,
      refl,
      refl,
      λ k n. ground (arith, lookup-insert new_id.value k (track job) m.jobs, eq_iff new_id.value k),
    )

-- The whole table behind a spawn.
pub spawn-jobs :
    (m : Memory) (ctx : Ctx) (new_id : JobId) (child : TokioChild) (now : DateTime)
    → (spawn m ctx new_id (returned (ok child)) now).0 ≡ record {
      jobs =
          insert new_id.value
            (track (started new_id ctx.user (record { pid = child.pid }) now))
            m.jobs;
    }
unfolding spawn
spawn-jobs m ctx new_id child now = refl

spawn-failed :
    (m : Memory) (ctx : Ctx) (new_id : JobId) (e : Spawn.Error) (now : DateTime)
    → ((spawn m ctx new_id (returned (err e)) now).0 ≡ m)
      × ((spawn m ctx new_id panicked now).0 ≡ m)
unfolding spawn
spawn-failed m ctx new_id e now = (refl, refl)
