-- ===== src/Spawn/Filled.antt =====
-- The two children that fill the interface of Port: tokio's, and that of src/proc/spawn/win.rs.
use rust_job_runner.Common.{ℕ, ◌≡◌, refl, Option, none, some, Result, ok}
use rust_job_runner.Types.{JobSpec}
use rust_job_runner.Frames.{IoError}
use rust_job_runner.Spawn.{
  Command, Process, TokioChild, returned, panicked, take, stdout, stderr, pid,
}
use rust_job_runner.Spawn.Launch.{job_command}
use rust_job_runner.Spawn.Streams.{take-twice}
use rust_job_runner.Spawn.Port.{Child, IsTakenOver}
use rust_job_runner.Spawn.Win.Handle.{Handle}
use rust_job_runner.Spawn.Win.Handle
use rust_job_runner.Spawn.Win.Process.{
  Win32, create_handles, child_stdout, child_stderr, process_handle, from_information,
}
use rust_job_runner.Spawn.Win.Process

pub TokioWhole : ℕ → ℕ → ℕ → TokioChild → Type 0
TokioWhole n o e c = (c.pid ≡ n) × (c.stdout ≡ some o) × (c.stderr ≡ some e)

pub WinWhole : ℕ → Handle → Handle → Process.Child → Type 0
WinWhole n o e c = (c.proc_info.pid ≡ n) × (c.stdout ≡ some o) × (c.stderr ≡ some e)

pub tokio_takes :
    (n o e : ℕ) (c : TokioChild)
    → TokioWhole n o e c
    → ((stdout c).1 ≡ returned o) × ((stderr (stdout c).0).1 ≡ returned e) × (pid c ≡ n)
unfolding TokioWhole stdout stderr take pid
tokio_takes n o e c (p, a, b) = (rw a refl, rw b refl, p)

pub tokio_twice :
    (c : TokioChild)
    → ((stdout (stdout c).0).1 ≡ panicked)
      × ((stderr (stderr c).0).1 ≡ panicked)
      × ((stdout c).0.child ≡ c.child)
      × ((stderr c).0.child ≡ c.child)
unfolding stdout stderr
tokio_twice c = (take-twice c.stdout, take-twice c.stderr, refl, refl)

-- `TokioChild`, whose `wait` and `kill` are those of tokio's child.
abbrev pub tokio_child : Child TokioChild ℕ Process Process
tokio_child = record {
  pid = pid;
  stdout = stdout;
  stderr = stderr;
  wait = λ c. c.child;
  kill = λ c. c.child;
  Whole = TokioWhole;
  whole_pid = λ n o e c v. (tokio_takes n o e c v).2;
  whole_stdout = λ n o e c v. (tokio_takes n o e c v).0;
  whole_stderr = λ n o e c v. (tokio_takes n o e c v).1;
  stdout_twice = λ c. (tokio_twice c).0;
  stderr_twice = λ c. (tokio_twice c).1;
  stdout_wait = λ c. (tokio_twice c).2;
  stderr_wait = λ c. (tokio_twice c).3;
  stdout_kill = λ c. (tokio_twice c).2;
  stderr_kill = λ c. (tokio_twice c).3;
}

pub win_takes :
    (n : ℕ) (o e : Handle) (c : Process.Child)
    → WinWhole n o e c
    → ((child_stdout c).1 ≡ returned o)
      × ((child_stderr (child_stdout c).0).1 ≡ returned e)
      × (Process.pid c ≡ n)
unfolding WinWhole child_stdout child_stderr Process.take Process.pid
win_takes n o e c (p, a, b) = (rw a refl, rw b refl, p)

win_take_twice : (o : Option Handle) → (Process.take (Process.take o).0).1 ≡ panicked
unfolding Process.take
win_take_twice none = refl
win_take_twice (some h) = refl

pub win_twice :
    (c : Process.Child)
    → ((child_stdout (child_stdout c).0).1 ≡ panicked)
      × ((child_stderr (child_stderr c).0).1 ≡ panicked)
      × (process_handle (child_stdout c).0 ≡ process_handle c)
      × (process_handle (child_stderr c).0 ≡ process_handle c)
unfolding child_stdout child_stderr process_handle
win_twice c = (win_take_twice c.stdout, win_take_twice c.stderr, refl, refl)

-- `Child` on Windows, whose futures hold a clone of the handle of the process.
abbrev pub win_child : Child Process.Child Handle Handle Handle
win_child = record {
  pid = Process.pid;
  stdout = child_stdout;
  stderr = child_stderr;
  wait = process_handle;
  kill = process_handle;
  Whole = WinWhole;
  whole_pid = λ n o e c v. (win_takes n o e c v).2;
  whole_stdout = λ n o e c v. (win_takes n o e c v).0;
  whole_stderr = λ n o e c v. (win_takes n o e c v).1;
  stdout_twice = λ c. (win_twice c).0;
  stderr_twice = λ c. (win_twice c).1;
  stdout_wait = λ c. (win_twice c).2;
  stderr_wait = λ c. (win_twice c).3;
  stdout_kill = λ c. (win_twice c).2;
  stderr_kill = λ c. (win_twice c).3;
}

-- A child that tokio's `spawn` gives.
abbrev pub IsTokio : JobSpec → (Command → Result Process IoError) → TokioChild → Type 0
IsTokio spec launch c =
    (p : Process) × (o : ℕ) × (e : ℕ) × (launch (job_command spec) ≡ ok p)
    × (p.stdout ≡ some o)
    × (p.stderr ≡ some e)
    × IsTakenOver tokio_child c.pid o e c

-- A child that the `spawn` of Windows gives: its streams are the read ends of its two pipes.
abbrev pub IsWin : Win32 → Process.Child → Type 0
IsWin w c =
    (o : Handle) × (e : Handle) × (tx : Handle) × (ty : Handle) × ((create_handles w
        Handle.stdout).result
      ≡ ok (tx, o))
    × ((create_handles w Handle.stderr).result ≡ ok (ty, e))
    × IsTakenOver win_child c.proc_info.pid o e c
