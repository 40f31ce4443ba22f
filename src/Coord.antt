-- ===== src/Coord.antt =====
-- src/proc/coord.rs: `MemoryCoordinator`, the table of jobs and the four operations on it. An
-- operation runs at one moment of the table; what a call has to wait for is an argument.
pub mod Access
pub mod Spawned
pub mod History
pub mod Later
pub mod Table
pub mod Purged
pub mod FreeIds
pub mod Tests
use rust_job_runner.Common.{
  ℕ, String, Bool, true, false, Option, none, some, Result, ok, err, ◌>>=◌, ok_or, map_err, List,
  [], Dict, lookup, insert, str_eq, if◌then◌else◌, is_some,
}
use rust_job_runner.Types.{User, Ctx, JobSpec, Job, JobId, Pid, DateTime}
use rust_job_runner.Types.Life.{started}
use rust_job_runner.Frames.{IoError}
use rust_job_runner.Spawn.{TokioChild, Outcome, returned, panicked}
use rust_job_runner.Spawn
use rust_job_runner.Tracker.{Tracker, track}
use rust_job_runner.Tracker.Requests.{KillError, req_send_failed, FrameError, Waited}
use rust_job_runner.Tracker.Requests

pub data Error : Type 0 where
  job_not_found : JobId → Error
  no_pid : JobId → Error
  logs_not_available : FrameError → Error
  job_not_running : JobId → Error
  kill_error : KillError → Error
  spawn_error : Spawn.Error → Error

pub record Memory : Type 0 where
  pub jobs : Dict Tracker

-- `MemoryCoordinator::default`
unfoldable pub empty : Memory
empty = record { jobs = [] }

-- `job.user.id != ctx.user.id`: the tracker and its snapshot, for the owner only.
unfoldable pub check_owner : Ctx → JobId → Tracker → Result (Tracker × Job) Error
check_owner ctx job_id tracker =
    if str_eq tracker.job.user.id ctx.user.id
    then ok (tracker, tracker.job)
    else err (job_not_found job_id)

unfoldable pub get_tracker : Memory → Ctx → JobId → Result (Tracker × Job) Error
unfolding check_owner
get_tracker m ctx job_id = do
  tracker ← ok_or (lookup job_id.value m.jobs) (job_not_found job_id)
  check_owner ctx job_id tracker

-- The new table, and `Ok(job)`, or the panic if the id was in use.
pub add_job : Memory → JobId → Job → Memory × Outcome (Result Job Error)
add_job m job_id job = (
  record { jobs = insert job_id.value (track job) m.jobs },
  if is_some (lookup job_id.value m.jobs) then panicked else returned (ok job),
)

-- `spawn`, behind the spawn of the child.
pub on_spawned :
    Memory
    → Ctx
    → JobId
    → DateTime
    → Result TokioChild Spawn.Error
    → Memory × Outcome (Result Job Error)
unfolding add_job
on_spawned m ctx job_id now (err e) = (m, returned (err (spawn_error e)))
on_spawned m ctx job_id now (ok child) =
    add_job m job_id (started job_id ctx.user (record { pid = child.pid }) now)

-- `spawn`, with the id of `JobId::default()`, what the spawn of the child gives, and the time.
unfoldable pub spawn :
    Memory
    → Ctx
    → JobId
    → Outcome (Result TokioChild Spawn.Error)
    → DateTime
    → Memory × Outcome (Result Job Error)
unfolding on_spawned
spawn m ctx job_id panicked now = (m, panicked)
spawn m ctx job_id (returned child) now = on_spawned m ctx job_id now child

-- `logs`: whether the broadcaster took the request, and what it gave.
pub logs : {Rx : Type 0} → Memory → Ctx → JobId → Bool → Waited Rx → Result Rx Error
logs m ctx job_id accepted answer = do
  _ ← get_tracker m ctx job_id
  map_err logs_not_available (Requests.stream accepted answer)

unfoldable pub ps : Memory → Ctx → JobId → Result Job Error
ps m ctx job_id = do (_, job) ← get_tracker m ctx job_id; ok job

-- The `match` of `kill`.
unfoldable pub kill_result : JobId → Result Job KillError → Result Job Error
kill_result job_id (ok job) = ok job
kill_result job_id (err req_send_failed) = err (job_not_running job_id)
kill_result job_id (err e) = err (kill_error e)

-- `kill`: whether the tracker took the request, and what came back.
pub kill : Memory → Ctx → JobId → Bool → Waited (Result Job IoError) → Result Job Error
unfolding kill_result
kill m ctx job_id accepted answer = do
  _ ← get_tracker m ctx job_id
  kill_result job_id (Requests.kill accepted answer)
