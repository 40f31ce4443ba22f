-- ===== src/Fleet.antt =====
-- src/proc/coord.rs: `MemoryCoordinator` over the tasks of all jobs. Each call of a user is a step,
-- and so is each step of a task of one job; between the two are the channels of kill requests and of
-- requests for logs, in which what a user asked for waits until the job's tasks take it.
pub mod Entries
pub mod Owners
pub mod Jobs
pub mod Isolation
pub mod Projects
pub mod Watched
pub mod Kills
pub mod Changes
pub mod Alone
pub mod Undisturbed
mod Tests
use rust_job_runner.Common.{
  ℕ, String, Option, none, some, Result, ok, err, List, [], ◌∷◌, ◌++◌, Dict, insert, str_eq,
  if◌then◌else◌,
}
use rust_job_runner.Types.{User, Ctx, Job, JobId, ProcessExit, DateTime}
use rust_job_runner.Types.Life.{started}
use rust_job_runner.Frames.{StreamKind, FrameEvent, IoError, Bytes}
use rust_job_runner.Channel.{Mpsc}
use rust_job_runner.Spawn.{TokioChild, Outcome, returned, panicked}
use rust_job_runner.Spawn
use rust_job_runner.Tracker.{Tracker, KillRequest}
use rust_job_runner.Tracker.Requests.{kill_request}
use rust_job_runner.Broadcast.Port.{RelayPort}
use rust_job_runner.Runtime.{Runtime, Step, start, step}
use rust_job_runner.Runtime
use rust_job_runner.Coord.{Error, Memory, get_tracker}

-- A job with its tasks. `kills` and `asks` wait in its two channels of requests; `readers` records
-- who asked for the log streams that the broadcaster was told to open.
pub record Entry (C R Req : Type 0) : Type 0 where
  pub tasks : Runtime C R
  pub kills : List KillRequest
  pub asks : List (User × Req)
  pub readers : List User

-- What the tasks of a job do by themselves.
pub data Task (Act : Type 0) : Type 0 where
  output : StreamKind → Option (Result Bytes IoError) → Task Act
  exit : Result ProcessExit IoError → DateTime → Task Act
  end : Task Act
  receive : Task Act
  take_kill : Result (Unit {0}) IoError → DateTime → Task Act
  take_ask : Task Act
  held : ℕ → Act → Task Act
  free : ℕ → Act → Task Act

-- A call of a user, with what the spawn gives, or a step of a task of the job under a key. `ps`
-- changes nothing.
pub data Call (Req Act : Type 0) : Type 0 where
  spawn : Ctx → JobId → Outcome (Result TokioChild Spawn.Error) → DateTime → Call Req Act
  logs : Ctx → JobId → Req → Call Req Act
  kill : Ctx → JobId → ℕ → Call Req Act
  task : String → Task Act → Call Req Act

-- The table as the coordinator's own functions see it.
abbrev pub trackers : {C R Req : Type 0} → Dict (Entry C R Req) → Dict Tracker
trackers [] = []
trackers ((k, e) ∷ d) = (k, e.tasks.tracker) ∷ trackers d

abbrev pub memory_of : {C R Req : Type 0} → Dict (Entry C R Req) → Memory
memory_of d = record { jobs = trackers d }

-- A change of the entry under a key.
unfoldable pub update : {A : Type 0} → String → (A → A) → Dict A → Dict A
update k f [] = []
update k f ((j, e) ∷ d) = if str_eq j k then (j, f e) ∷ d else (j, e) ∷ update k f d

-- The request is sent only if `get_tracker` is `Ok`.
abbrev pub if_owner : {A B E : Type 0} → Result A E → (B → B) → B → B
if_owner (ok a) f b = f b
if_owner (err e) f b = b

module _ {R Req : Type 0} (M : Mpsc FrameEvent) (P : RelayPort R Req) where
  open M use {Chan}
  open P use {Act}

  abbrev pub Jobs : Type 0
  Jobs = Dict (Entry Chan R Req)

  abbrev pub on_tasks : Step Req Act → Entry Chan R Req → Entry Chan R Req
  on_tasks s e = record e { tasks = step M P e.tasks s }

  -- `kill_rx.recv()` in the tracker, with the first request that waits.
  abbrev pub on_take_kill :
      Result (Unit {0}) IoError → DateTime → Entry Chan R Req → List KillRequest → Entry Chan R Req
  on_take_kill killed now e [] = e
  on_take_kill killed now e (req ∷ later) = record e {
    tasks = step M P e.tasks (Runtime.wake (Runtime.kill_request (some req) killed now));
    kills = later;
  }

  -- `req_rx.recv()` in the broadcaster.
  abbrev pub on_take_ask : Entry Chan R Req → List (User × Req) → Entry Chan R Req
  on_take_ask e [] = e
  on_take_ask e ((user, q) ∷ later) = record e {
    tasks = step M P e.tasks (Runtime.request q);
    asks = later;
    readers = user ∷ e.readers;
  }

  unfoldable pub on_task : Task Act → Entry Chan R Req → Entry Chan R Req
  on_task (output kind o) e = on_tasks (Runtime.wake (Runtime.output kind o)) e
  on_task (exit status now) e = on_tasks (Runtime.wake (Runtime.exit status now)) e
  on_task end e = on_tasks (Runtime.wake Runtime.end) e
  on_task receive e = on_tasks Runtime.receive e
  on_task (take_kill killed now) e = on_take_kill killed now e e.kills
  on_task take_ask e = on_take_ask e e.asks
  on_task (held i a) e = on_tasks (Runtime.held i a) e
  on_task (free i a) e = on_tasks (Runtime.free i a) e

  -- `MemoryCoordinator::spawn`, which starts the tasks of the job.
  abbrev pub on_spawn :
      Ctx → JobId → DateTime → Outcome (Result TokioChild Spawn.Error) → Jobs → Jobs
  on_spawn ctx id now (returned (ok child)) d =
      insert id.value
        (record {
          tasks = start M P (started id ctx.user (record { pid = child.pid }) now);
          kills = [];
          asks = [];
          readers = [];
        })
        d
  on_spawn ctx id now _ d = d

  unfoldable pub after : Jobs → Call Req Act → Jobs
  unfolding on_task
  after d (spawn ctx id child now) = on_spawn ctx id now child d
  after d (logs ctx id q) =
      if_owner (get_tracker (memory_of d) ctx id)
        (update id.value (λ e. record e { asks = e.asks ++ (ctx.user, q) ∷ [] })) d
  after d (kill ctx id tx) =
      if_owner (get_tracker (memory_of d) ctx id)
        (update id.value (λ e. record e { kills = e.kills ++ kill_request ctx tx ∷ [] })) d
  after d (task k t) = update k (on_task t) d

  unfoldable pub history : Jobs → List (Call Req Act) → Jobs
  history d [] = d
  history d (c ∷ cs) = history (after d c) cs
