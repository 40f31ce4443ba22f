-- ===== src/Types/Life.antt =====
-- src/proc/types.rs: a job's states.
use rust_job_runner.Common.{Bool, true, false, none}
use rust_job_runner.Types.{JobId, User, Pid, DateTime, Job, JobState, running, exited, ExitStatus}

-- `Job::started`, with the time that `Utc::now()` gives.
unfoldable pub started : JobId → User → Pid → DateTime → Job
started job_id user pid now = record {
  id = job_id;
  user = user;
  killed = none;
  started_at = now;
  ended_at = none;
  state = running pid;
}

-- `JobState::exited`, from a value already converted into an `ExitStatus`
unfoldable pub exited_state : ExitStatus → JobState
exited_state status = exited status

abbrev pub is_running : JobState → Bool
is_running (running pid) = true
is_running (exited status) = false

abbrev pub is_exited : JobState → Bool
is_exited (running pid) = false
is_exited (exited status) = true
