-- ===== src/Spawn/Tests.antt =====
-- A launch that gives both pipes.
use rust_job_runner.Common.{ℕ, String, ◌==◌, some, none, Option, Result, ok, [], ◌∷◌}
use rust_job_runner.Types.{JobSpec}
use rust_job_runner.Frames.{IoError}
use rust_job_runner.Spawn.{Stdio, null, piped, inherit, Command, Process, TokioChild}
use rust_job_runner.Spawn.Win.Handle.{PipeKind, pipe_rx, new_owned}
use rust_job_runner.Spawn.Win.Process.{Win32, from_information}
use rust_job_runner.Spawn.Win.Process

abbrev ls : JobSpec
ls = record { exe = 108 ∷ 115 ∷ []; args = [] }

abbrev pipe : ℕ → Stdio → Option ℕ
pipe n piped = some n
pipe n null = none
pipe n inherit = none

abbrev process_of : Command → Process
process_of c = record { id = some 77; stdout = pipe 1 c.stdout; stderr = pipe 2 c.stderr }

abbrev launch : Command → Result Process IoError
launch c = ok (process_of c)

abbrev child : TokioChild
child = record {
  child = record { id = some 77; stdout = none; stderr = none };
  pid = 77;
  stdout = some 1;
  stderr = some 2;
}

abbrev pipe_ends : PipeKind → Result (ℕ × ℕ) String
pipe_ends PipeKind.stdout = ok (4, 5)
pipe_ends PipeKind.stderr = ok (6, 7)

abbrev windows : Win32
windows = record {
  is_invalid = λ h. h == 0;
  default_handle = 0;
  create_pipe = pipe_ends;
  set_inherit = λ h. ok tt;
  create_process = λ line out errs.
      ok (record { process_handle = 8; thread_handle = 9; process_id = 77; thread_id = 78 });
}

abbrev win_child_made : Process.Child
win_child_made = record {
  proc_info =
      from_information
        (record { process_handle = 8; thread_handle = 9; process_id = 77; thread_id = 78 });
  stdout = some (new_owned 4 (pipe_rx PipeKind.stdout));
  stderr = some (new_owned 6 (pipe_rx PipeKind.stderr));
}
