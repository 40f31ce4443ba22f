-- ===== src/Spawn/Win/Killing.antt =====
-- src/proc/spawn/win.rs: `KillChild` and the thread that it starts, on a task that waits for it. The
-- channel between them is `sync_channel(0)` of the standard library: a send returns only once a
-- receive has taken the value. An executor polls a task again only when it was woken.
use rust_job_runner.Common.{
  Bool, true, false, Option, none, some, Result, ok, err, List, [], ◌∷◌, if◌then◌else◌,
}
use rust_job_runner.Frames.{IoError}

-- Where the thread stands: before `TerminateProcess` returns, behind it with its result, in `send` with
-- the result, before `waker.wake()`, or at its end, where its sender is dropped.
pub data Thread : Type 0 where
  terminating : Thread
  returning : Result (Unit {0}) IoError → Thread
  sending : Result (Unit {0}) IoError → Thread
  waking : Thread
  gone : Thread

-- `try_recv`
pub data TryRecv : Type 0 where
  received : Result (Unit {0}) IoError → TryRecv
  empty : TryRecv
  disconnected : TryRecv

-- A poll gives `Pending`, or `Ready`.
pub data Poll : Type 0 where
  pending : Poll
  ready : Result (Unit {0}) IoError → Poll

-- The future with its thread, which is there once `rx` is set, and the task that awaits it. `woken`
-- says that the executor will poll. `terminated` records what `TerminateProcess` gave, and `done`
-- what the future gave.
pub record KillChild : Type 0 where
  pub thread : Option Thread
  pub woken : Bool
  pub terminated : Option (Result (Unit {0}) IoError)
  pub done : Option (Result (Unit {0}) IoError)

-- The task polls, the thread goes on (with what `TerminateProcess` gives), or something else wakes
-- the task.
pub data Step : Type 0 where
  polls : Step
  thread_runs : Result (Unit {0}) IoError → Step
  other_wake : Step

-- `KillChild::new`, and the first poll to come.
unfoldable pub new : KillChild
new = record { thread = none; woken = true; terminated = none; done = none }

-- What the receiver sees: a value only while its sender waits for it.
abbrev pub try_recv : Thread → TryRecv
try_recv terminating = empty
try_recv (returning r) = empty
try_recv (sending r) = received r
try_recv waking = empty
try_recv gone = disconnected

-- A receive lets the sender go on.
abbrev pub behind_recv : Thread → Thread
behind_recv (sending r) = waking
behind_recv t = t

-- The answer of `poll` to what it received.
abbrev pub on_recv : TryRecv → Poll
on_recv (received (ok u)) = ready (ok tt)
on_recv (received (err e)) = ready (err e)
on_recv empty = pending
on_recv disconnected = ready (ok tt)

-- `KillChild::poll`, by the thread that is there.
unfoldable pub poll : Option Thread → Thread × Poll
poll none = (terminating, pending)
poll (some t) = (behind_recv t, on_recv (try_recv t))

abbrev pub result : Poll → Option (Result (Unit {0}) IoError)
result pending = none
result (ready r) = some r

-- The poll of the task. A future that is done is not polled again.
abbrev pub on_poll : KillChild → Option (Result (Unit {0}) IoError) → KillChild
on_poll s none =
    let (t, p) = poll s.thread in record s { thread = some t; woken = false; done = result p }
on_poll s (some r) = s

-- The closure of the thread.
abbrev pub on_thread : Result (Unit {0}) IoError → KillChild → Option Thread → KillChild
on_thread r s (some terminating) = record s { thread = some (returning r); terminated = some r }
on_thread r s (some (returning q)) = record s { thread = some (sending q) }
on_thread r s (some waking) = record s { thread = some gone; woken = true }
on_thread r s _ = s

unfoldable pub step : KillChild → Step → KillChild
unfolding poll
step s polls = if s.woken then on_poll s s.done else s
step s (thread_runs r) = on_thread r s s.thread
step s other_wake = record s { woken = true }

unfoldable pub run : KillChild → List Step → KillChild
run s [] = s
run s (e ∷ es) = run (step s e) es
