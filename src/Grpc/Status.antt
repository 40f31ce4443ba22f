-- ===== src/Grpc/Status.antt =====
-- src/grpc.rs: the status of a failed call, and how the coordinator's errors become one.
use rust_job_runner.Common.{String}
use rust_job_runner.Coord.{Error, job_not_found, job_not_running}

-- The codes of `tonic::Status` that the program uses.
pub data Code : Type 0 where
  invalid_argument not_found internal unauthenticated unimplemented unknown : Code

pub record Status : Type 0 where
  pub code : Code
  pub message : String

abbrev pub status : Code → String → Status
status code message = record { code = code; message = message }

-- `From<coord::Error> for Status`
unfoldable pub from_error : Error → Status
from_error (job_not_found id) = status not_found "job not found"
from_error (job_not_running id) = status not_found "job not found"
from_error _ = status internal ""
