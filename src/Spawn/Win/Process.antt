-- ===== src/Spawn/Win/Process.antt =====
-- src/proc/spawn/win.rs: `Child::spawn`, the pipes of a child process, and the handles of a `Child`.
use rust_job_runner.Common.{
  ℕ, Bool, not, ◌&&◌, ◌==◌, Option, none, some, Result, ok, err, List, [], ◌∷◌, ◌++◌, String,
  if◌then◌else◌, option_list,
}
use rust_job_runner.Types.{JobSpec}
use rust_job_runner.Types.Spec.{exe_and_args}
use rust_job_runner.Spawn.{Outcome, returned, panicked}
use rust_job_runner.Spawn.Win.Handle.{
  PipeKind, stdout, stderr, process, thread, pipe_rx, pipe_tx, Handle, new_owned, clone, close,
}
use rust_job_runner.Spawn.Win.Args.{win_args}

pub data Error : Type 0 where
  create_process_w : String → Error
  create_read_pipe : String → Error
  read_file : PipeKind → String → Error

-- `PROCESS_INFORMATION`
pub record ProcessInformation : Type 0 where
  pub process_handle : ℕ
  pub thread_handle : ℕ
  pub process_id : ℕ  -- u32
  pub thread_id : ℕ  -- u32

pub record ProcessInfo : Type 0 where
  pub process : Handle
  pub thread : Handle
  pub pid : ℕ
  pub tid : ℕ

-- `From<PROCESS_INFORMATION> for ProcessInfo`
unfoldable pub from_information : ProcessInformation → ProcessInfo
from_information info = record {
  process = new_owned info.process_handle process;
  thread = new_owned info.thread_handle thread;
  pid = info.process_id;
  tid = info.thread_id;
}

pub record Child : Type 0 where
  pub proc_info : ProcessInfo
  pub stdout : Option Handle
  pub stderr : Option Handle

-- What a call gives. `opened` and `closed` are records of the past: the handles that the Win32 calls
-- opened, and those that `CloseHandle` got.
pub record Made (A : Type 0) : Type 0 where
  pub result : A
  pub opened : List ℕ
  pub closed : List ℕ

-- The Win32 calls: `is_invalid` and `default` of `HANDLE`, `CreatePipe` with its read end first,
-- `SetHandleInformation`, and `CreateProcessW` on a command line and the two standard handles.
pub record Win32 : Type 0 where
  pub is_invalid : ℕ → Bool
  pub default_handle : ℕ
  pub create_pipe : PipeKind → Result (ℕ × ℕ) String
  pub set_inherit : ℕ → Result (Unit {0}) String
  pub create_process : List ℕ → ℕ → ℕ → Result ProcessInformation String

module _ (w : Win32) where
  -- Drops, the first one first.
  unfoldable pub close_all : List Handle → List ℕ
  close_all [] = []
  close_all (h ∷ hs) = close w.is_invalid h ++ close_all hs

  unfoldable pub on_inherit :
      Handle → Handle → Result (Unit {0}) String → Made (Result (Handle × Handle) Error)
  on_inherit rx tx (err e) = record {
    result = err (create_read_pipe e);
    opened = rx.inner ∷ tx.inner ∷ [];
    closed = close_all (tx ∷ rx ∷ []);
  }
  on_inherit rx tx (ok _) = record {
    result = ok (tx, rx);
    opened = rx.inner ∷ tx.inner ∷ [];
    closed = [];
  }

  unfoldable pub on_pipe : PipeKind → Result (ℕ × ℕ) String → Made (Result (Handle × Handle) Error)
  unfolding on_inherit
  on_pipe kind (err e) =
      let rx = new_owned w.default_handle (pipe_rx kind) in
      let tx = new_owned w.default_handle (pipe_tx kind) in
      record { result = err (create_read_pipe e); opened = []; closed = close_all (tx ∷ rx ∷ []) }
  on_pipe kind (ok (r, t)) =
      on_inherit (new_owned r (pipe_rx kind)) (new_owned t (pipe_tx kind)) (w.set_inherit t)

  -- `PipeKind::create_handles`
  unfoldable pub create_handles : PipeKind → Made (Result (Handle × Handle) Error)
  unfolding on_pipe
  create_handles kind = on_pipe kind (w.create_pipe kind)

  -- The four assertions.
  abbrev pub is_sound : ProcessInformation → Bool
  is_sound info =
      not (w.is_invalid info.process_handle)
      && (not (w.is_invalid info.thread_handle)
          && (not (info.process_id == 0) && not (info.thread_id == 0)))

  -- `CreateProcessW` with what follows. The first two handles are those of stdout.
  unfoldable pub on_process :
      Handle
      → Handle
      → Handle
      → Handle
      → Result ProcessInformation String
      → Made (Outcome (Result Child Error))
  on_process stdout_tx stdout_rx stderr_tx stderr_rx (err e) = record {
    result = returned (err (create_process_w e));
    opened = [];
    closed = close_all (stderr_rx ∷ stderr_tx ∷ stdout_rx ∷ stdout_tx ∷ []);
  }
  on_process stdout_tx stdout_rx stderr_tx stderr_rx (ok info) =
      if is_sound info
      then record {
        result = returned (
            ok (record {
              proc_info = from_information info;
              stdout = some stdout_rx;
              stderr = some stderr_rx;
            }));
        opened = info.process_handle ∷ info.thread_handle ∷ [];
        closed = close_all (stdout_tx ∷ stderr_tx ∷ []);
      }
      else record {
        result = panicked;
        opened = info.process_handle ∷ info.thread_handle ∷ [];
        closed = close_all (stderr_rx ∷ stderr_tx ∷ stdout_rx ∷ stdout_tx ∷ []);
      }

  -- What came before, in front of what comes now.
  abbrev pub behind : {A : Type 0} → List ℕ → List ℕ → Made A → Made A
  behind opened closed m = record m { opened = opened ++ m.opened; closed = closed ++ m.closed }

  unfoldable pub on_stderr :
      JobSpec
      → Handle
      → Handle
      → Made (Result (Handle × Handle) Error)
      → Result (Handle × Handle) Error
      → Made (Outcome (Result Child Error))
  unfolding on_process
  on_stderr spec stdout_tx stdout_rx m (err e) = record {
    result = returned (err e);
    opened = m.opened;
    closed = m.closed ++ close_all (stdout_rx ∷ stdout_tx ∷ []);
  }
  on_stderr spec stdout_tx stdout_rx m (ok (stderr_tx, stderr_rx)) = behind m.opened m.closed (
      on_process stdout_tx stdout_rx stderr_tx stderr_rx
        (w.create_process (win_args (exe_and_args spec)) stdout_tx.inner stderr_tx.inner))

  unfoldable pub on_stdout :
      JobSpec
      → Made (Result (Handle × Handle) Error)
      → Result (Handle × Handle) Error
      → Made (Outcome (Result Child Error))
  unfolding on_stderr
  on_stdout spec m (err e) = record {
    result = returned (err e);
    opened = m.opened;
    closed = m.closed;
  }
  on_stdout spec m (ok (stdout_tx, stdout_rx)) =
      let errs = create_handles stderr in
      behind m.opened m.closed (on_stderr spec stdout_tx stdout_rx errs errs.result)

  -- `Child::spawn`
  unfoldable pub spawn : JobSpec → Made (Outcome (Result Child Error))
  unfolding on_stdout
  spawn spec = let outs = create_handles stdout in on_stdout spec outs outs.result

  -- The drop of a child, and of what `spawn` gives.
  unfoldable pub drop_child : Child → List ℕ
  drop_child c =
      close_all
        (c.proc_info.process ∷ c.proc_info.thread ∷ option_list c.stdout ++ option_list c.stderr)

  unfoldable pub drop_result : Outcome (Result Child Error) → List ℕ
  unfolding drop_child
  drop_result (returned (ok c)) = drop_child c
  drop_result (returned (err e)) = []
  drop_result panicked = []

-- `.take().expect(…)`
unfoldable pub take : Option Handle → Option Handle × Outcome Handle
take none = (none, panicked)
take (some h) = (none, returned h)

-- `super::Child for Child`. The handle goes to the thread of `WinHandleOutputStream::start`.
unfoldable pub child_stdout : Child → Child × Outcome Handle
unfolding take
child_stdout c = let (left, h) = take c.stdout in (record c { stdout = left }, h)

unfoldable pub child_stderr : Child → Child × Outcome Handle
unfolding take
child_stderr c = let (left, h) = take c.stderr in (record c { stderr = left }, h)

unfoldable pub pid : Child → ℕ
pid c = c.proc_info.pid

-- The handle of the futures that `wait` and `kill` give.
unfoldable pub process_handle : Child → Handle
process_handle c = clone c.proc_info.process
