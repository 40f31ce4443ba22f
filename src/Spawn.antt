-- ===== src/Spawn.antt =====
-- src/proc/spawn/mod.rs: spawning a child on a platform other than Windows. tokio's `Command::spawn`
-- is the argument `launch`.
pub mod Launch
pub mod Streams
pub mod Win
pub mod Port
pub mod Filled
mod Tests
use rust_job_runner.Common.{
  ℕ, Bool, true, Option, none, some, Result, ok, err, List, ok_or, map_err,
}
use rust_job_runner.Types.{OsString, JobSpec}
use rust_job_runner.Frames.{IoError}

pub data Error : Type 0 where
  spawn_failed : IoError → Error
  no_pid : Error

pub data Stdio : Type 0 where
  inherit null piped : Stdio

-- A `tokio::process::Command`, as far as it is set up here.
pub record Command : Type 0 where
  pub exe : OsString
  pub args : List OsString
  pub kill_on_drop : Bool
  pub stdin : Stdio
  pub stdout : Stdio
  pub stderr : Stdio

-- A `tokio::process::Child`: `id()`, and the handles `stdout` and `stderr`, numbered.
pub record Process : Type 0 where
  pub id : Option ℕ  -- u32
  pub stdout : Option ℕ
  pub stderr : Option ℕ

pub record TokioChild : Type 0 where
  pub child : Process
  pub pid : ℕ  -- u32
  pub stdout : Option ℕ
  pub stderr : Option ℕ

-- `Limits` has no field.
pub record Opts : Type 0 where
  pub spec : JobSpec
  pub limits : Option (Unit {0})

unfoldable pub opts_new : JobSpec → Opts
opts_new spec = record { spec = spec; limits = none }

-- A call returns, or `expect` panics.
pub data Outcome (A : Type 0) : Type 0 where
  returned : A → Outcome A
  panicked : Outcome A

pub command : Opts → Command
command o = record {
  exe = o.spec.exe;
  args = o.spec.args;
  kill_on_drop = true;
  stdin = null;
  stdout = piped;
  stderr = piped;
}

-- `child.stdout.take().expect(…)`, then the same of `stderr`. A handle that is taken leaves `none`.
pub take_streams : Process → ℕ → Option ℕ → Option ℕ → Outcome (Result TokioChild Error)
take_streams p pid (some out) (some errs) = returned (
    ok (record {
      child = record p { stdout = none; stderr = none };
      pid = pid;
      stdout = some out;
      stderr = some errs;
    }))
take_streams p pid _ _ = panicked

pub with_pid : Process → Option ℕ → Outcome (Result TokioChild Error)
unfolding take_streams
with_pid p none = returned (err no_pid)
with_pid p (some pid) = take_streams p pid p.stdout p.stderr

pub launched : Result Process IoError → Outcome (Result TokioChild Error)
unfolding with_pid
launched (err e) = returned (err (spawn_failed e))
launched (ok p) = with_pid p p.id

-- `Opts::spawn`
unfoldable pub spawn : (Command → Result Process IoError) → Opts → Outcome (Result TokioChild Error)
unfolding command launched
spawn launch o = launched (launch (command o))

-- `.take().expect(…)` on a handle: what is left, and the handle.
pub take : Option ℕ → Option ℕ × Outcome ℕ
take none = (none, panicked)
take (some h) = (none, returned h)

-- `Child for TokioChild`: `stdout`, `stderr` and `pid`. Its `wait` and `kill` are tokio's.
unfoldable pub stdout : TokioChild → TokioChild × Outcome ℕ
unfolding take
stdout c = let (left, h) = take c.stdout in (record c { stdout = left }, h)

unfoldable pub stderr : TokioChild → TokioChild × Outcome ℕ
unfolding take
stderr c = let (left, h) = take c.stderr in (record c { stderr = left }, h)

unfoldable pub pid : TokioChild → ℕ
pid c = c.pid
