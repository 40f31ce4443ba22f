-- ===== src/Pb.antt =====
-- src/pb/jobs.rs: the messages of the service, as data.
use rust_job_runner.Common.{
  ℕ, String, Option, some, none, List, if◌then◌else◌, str_eq, eq_iff, ◌≡◌, refl, arith,
}
use rust_job_runner.Common.Int.{ℤ, pos}

pub record SpawnRequest : Type 0 where
  pub name : String
  pub args : List String

pub record LogsRequest : Type 0 where
  pub job_id : String

pub record PsRequest : Type 0 where
  pub job_id : String

pub record KillRequest : Type 0 where
  pub job_id : String

-- `prost_types::Timestamp`
pub record Timestamp : Type 0 where
  pub seconds : ℤ  -- i64
  pub nanos : ℕ  -- i32, not negative

pub record User : Type 0 where
  pub id : String

pub record Killed : Type 0 where
  pub killed_at : Option Timestamp
  pub user : Option User

pub record JobRunningState : Type 0 where
  pub pid : ℕ  -- u32

pub record JobExitedState : Type 0 where
  pub exit_code : ℤ  -- i32

pub record JobCrashedState : Type 0 where
  pub signal : ℤ  -- i32
  pub msg : String

pub data State : Type 0 where
  running : JobRunningState → State
  exited : JobExitedState → State
  crashed : JobCrashedState → State

pub record Job : Type 0 where
  pub id : String
  pub owner : Option User
  pub started_at : Option Timestamp
  pub ended_at : Option Timestamp
  pub killed : Option Killed
  pub state : Option State

pub record SpawnResponse : Type 0 where
  pub job : Option Job

pub record PsResponse : Type 0 where
  pub job : Option Job

pub record KillResponse : Type 0 where
  pub job : Option Job

pub data LogFrameKind : Type 0 where
  stdout stderr : LogFrameKind

pub record LogFrame : Type 0 where
  pub kind : ℤ  -- i32
  pub bs : List ℕ

-- `LogFrameKind::as_str_name`
unfoldable pub as_str_name : LogFrameKind → String
as_str_name stdout = "STDOUT"
as_str_name stderr = "STDERR"

-- `LogFrameKind::from_str_name`
unfoldable pub from_str_name : String → Option LogFrameKind
from_str_name value =
    if str_eq value "STDOUT"
    then some stdout
    else if str_eq value "STDERR"
    then some stderr
    else none

from_str_name-as_str_name : (k : LogFrameKind) → from_str_name (as_str_name k) ≡ some k
unfolding from_str_name as_str_name
from_str_name-as_str_name stdout = refl
from_str_name-as_str_name stderr = refl

from_str_name-name : (s : String) (k : LogFrameKind) → from_str_name s ≡ some k → as_str_name k ≡ s
unfolding from_str_name as_str_name
from_str_name-name s stdout e = ground (arith, eq_iff s "STDOUT", eq_iff s "STDERR")
from_str_name-name s stderr e = ground (arith, eq_iff s "STDOUT", eq_iff s "STDERR")

-- `From<LogFrameKind> for i32`, by the `repr(i32)` of the enum
abbrev pub kind_to_i32 : LogFrameKind → ℤ
kind_to_i32 stdout = pos 0
kind_to_i32 stderr = pos 1
