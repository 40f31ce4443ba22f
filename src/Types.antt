-- ===== src/Types.antt =====
-- src/proc/types.rs: the value types. A `DateTime<Utc>` is a number of nanoseconds since the Unix
-- epoch, an `OsString` its list of code units, and `Utc::now()` and `Uuid::now_v7()` are arguments.
pub mod Spec
pub mod Life
mod Tests
use rust_job_runner.Common.{ℕ, String, Option, none, some, List}
use rust_job_runner.Common.Int.{ℤ}

abbrev pub DateTime : Type 0
DateTime = ℕ

abbrev pub OsString : Type 0
OsString = List ℕ

pub record User : Type 0 where
  pub id : String

pub record Ctx : Type 0 where
  pub user : User

pub record JobSpec : Type 0 where
  pub exe : OsString
  pub args : List OsString

pub record Pid : Type 0 where
  pub pid : ℕ  -- u32

pub record ExitStatus : Type 0 where
  pub code : Option ℤ  -- i32

pub data JobState : Type 0 where
  running : Pid → JobState
  exited : ExitStatus → JobState

pub record JobKilled : Type 0 where
  pub killed_at : DateTime
  pub user : User

pub record JobId : Type 0 where
  pub value : String

pub record Job : Type 0 where
  pub id : JobId
  pub user : User
  pub killed : Option JobKilled
  pub started_at : DateTime
  pub ended_at : Option DateTime
  pub state : JobState

-- The standard library's `ExitStatus` on Unix: an exit code, or the signal that ended the process.
pub data ProcessExit : Type 0 where
  exited_with : ℤ → ProcessExit
  signaled : ℕ → ProcessExit

-- `ExitStatus::code`
abbrev pub exit_code : ProcessExit → Option ℤ
exit_code (exited_with n) = some n
exit_code (signaled n) = none

-- `From<std::process::ExitStatus> for ExitStatus`
abbrev pub from_process : ProcessExit → ExitStatus
from_process es = record { code = exit_code es }

-- `From<i32> for ExitStatus`
abbrev pub from_i32 : ℤ → ExitStatus
from_i32 n = record { code = some n }
