-- ===== src/Client/Tests.antt =====
-- Runs of the client.
use rust_job_runner.Common.{◌≡◌, refl, none, some, ok, err, List, [], ◌∷◌, arith}
use rust_job_runner.Common.Int.{pos}
use rust_job_runner.Types.{Job, exited, DateTime, running}
use rust_job_runner.Frames.{Frame, stdout, stderr, Bytes}
use rust_job_runner.Spawn.{returned}
use rust_job_runner.Output.Stream.{Chunks}
use rust_job_runner.Pb.{Timestamp}
use rust_job_runner.Pb
use rust_job_runner.Grpc.Status.{Status, status, not_found}
use rust_job_runner.Grpc.Convert.{to_job}
use rust_job_runner.Client.{done, println, stop, Store, main, play}
use rust_job_runner.Client
use rust_job_runner.Client.Show.{show_state, show_i32}
use rust_job_runner.Grpc.Requests.{show_usize}

abbrev pub outs : List Bytes
outs = (104 ∷ 105 ∷ []) ∷ (33 ∷ []) ∷ []

abbrev pub errs : List Bytes
errs = (63 ∷ []) ∷ []

pub outs_fit : Chunks outs
outs_fit = ((omega arith, omega arith), ((omega arith, omega arith), tt))

pub errs_fit : Chunks errs
errs_fit = ((omega arith, omega arith), tt)

abbrev pub hi : Frame
hi = record { kind = stdout; bs = 104 ∷ 105 ∷ [] }

abbrev pub what : Frame
what = record { kind = stderr; bs = 63 ∷ [] }

abbrev pub bang : Frame
bang = record { kind = stdout; bs = 33 ∷ [] }

abbrev pub tracked : Job
tracked = record {
  id = record { value = "j1" };
  user = record { id = "CN=ann" };
  killed = none;
  started_at = 5;
  ended_at = none;
  state = running (record { pid = 77 });
}

abbrev missing : Status
missing = status not_found "job not found"

abbrev refusing : Store
refusing = record {
  spawn = λ r. err missing;
  logs = λ r. err missing;
  ps = λ r. err missing;
  kill = λ r. err missing;
}

abbrev timestamp : DateTime → Timestamp
timestamp t = record { seconds = pos t; nanos = 0 }

abbrev ended : Job
ended = record {
  id = record { value = "j1" };
  user = record { id = "CN=ann" };
  killed = none;
  started_at = 5;
  ended_at = some 9;
  state = exited (record { code = some (pos 3) });
}

abbrev message : Pb.Job
message = record {
  id = "j1";
  owner = some (record { id = "CN=ann" });
  started_at = some (record { seconds = pos 5; nanos = 0 });
  ended_at = some (record { seconds = pos 9; nanos = 0 });
  killed = none;
  state = some (Pb.State.exited (record { exit_code = pos 3 }));
}

converted : to_job timestamp ended ≡ returned message
unfolding to_job
converted = refl

abbrev answering : Store
answering = record {
  spawn = λ r. err missing;
  logs = λ r. err missing;
  ps = λ r. ok (record { job = some message });
  kill = λ r. ok (record { job = some message });
}

printed_line : main answering (Client.ps "j1") ≡ println "Exited code=3"
unfolding main show_state show_i32 show_usize
printed_line = refl
