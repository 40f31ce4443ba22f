-- ===== src/Grpc/Convert.antt =====
-- src/grpc.rs: from the coordinator's types to messages. `prost_types::Timestamp::from` is the
-- argument `timestamp`.
use rust_job_runner.Common.{Option, none, some}
use mathlib.Core.Option
use rust_job_runner.Common.Int.{ℤ}
use rust_job_runner.Types.{User, Job, JobKilled, JobState, running, exited, DateTime}
use rust_job_runner.Frames.{StreamKind, stdout, stderr, Frame}
use rust_job_runner.Spawn.{Outcome, returned, panicked}
use rust_job_runner.Pb.{Timestamp, LogFrame, LogFrameKind, kind_to_i32}
use rust_job_runner.Pb

-- `StreamKind::to_log_frame_kind`
unfoldable pub to_log_frame_kind : StreamKind → ℤ
to_log_frame_kind stdout = kind_to_i32 LogFrameKind.stdout
to_log_frame_kind stderr = kind_to_i32 LogFrameKind.stderr

-- `From<StreamKind> for LogFrameKind`
unfoldable pub log_frame_kind : StreamKind → LogFrameKind
log_frame_kind stdout = LogFrameKind.stdout
log_frame_kind stderr = LogFrameKind.stderr

-- `From<Frame> for LogFrame`
unfoldable pub to_log_frame : Frame → LogFrame
unfolding to_log_frame_kind
to_log_frame f = record { kind = to_log_frame_kind f.kind; bs = f.bs }

-- `From<User> for pb::User`
unfoldable pub to_user : User → Pb.User
to_user u = record { id = u.id }

-- `status.code.unwrap()` panics without a code.
unfoldable pub unwrap_code : Option ℤ → Outcome Pb.State
unwrap_code none = panicked
unwrap_code (some code) = returned (Pb.State.exited (record { exit_code = code }))

-- The `match` on the state of a job.
unfoldable pub to_state : JobState → Outcome Pb.State
unfolding unwrap_code
to_state (running pid) = returned (Pb.State.running (record { pid = pid.pid }))
to_state (exited status) = unwrap_code status.code

abbrev pub map_outcome : {A B : Type 0} → (A → B) → Outcome A → Outcome B
map_outcome f panicked = panicked
map_outcome f (returned a) = returned (f a)

module _ (timestamp : DateTime → Timestamp) where
  unfoldable pub to_killed : JobKilled → Pb.Killed
  unfolding to_user
  to_killed k = record { killed_at = some (timestamp k.killed_at); user = some (to_user k.user) }

  -- The job with its state already converted.
  unfoldable pub with_state : Job → Pb.State → Pb.Job
  unfolding to_killed
  with_state job state = record {
    id = job.id.value;
    owner = some (to_user job.user);
    started_at = some (timestamp job.started_at);
    ended_at = Option.map timestamp job.ended_at;
    killed = Option.map to_killed job.killed;
    state = some state;
  }

  -- `From<Job> for pb::Job`
  unfoldable pub to_job : Job → Outcome Pb.Job
  unfolding to_state with_state
  to_job job = map_outcome (with_state job) (to_state job.state)
