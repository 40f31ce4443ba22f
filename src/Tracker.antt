-- ===== src/Tracker.antt =====
-- src/proc/coord.rs: `JobTracker`, the task that runs a job: it passes the output of the child on,
-- takes kill requests, waits for the exit, and keeps the job's snapshot.
pub mod Requests
pub mod Invariant
pub mod Frozen
pub mod Replies
pub mod Answers
pub mod Passed
pub mod Ends
pub mod Lifecycle
mod Tests
use rust_job_runner.Common.{
  ℕ, Bool, true, false, not, ◌&&◌, Option, none, some, Result, ok, err, List, [], ◌∷◌, ◌++◌, map,
  if◌then◌else◌,
}
use rust_job_runner.Types.{User, Job, JobKilled, DateTime, exited, ProcessExit, from_process}
use rust_job_runner.Frames.{
  Frame, FrameEvent, frame, error, eof, TrackerError, wait_child, broadcaster_disappeared, IoError,
}

-- A kill request; `tx` tells its oneshot from the others.
pub record KillRequest : Type 0 where
  pub user : User
  pub tx : ℕ

-- Where `wait` stands: in the select loop, behind it, or returned.
pub data Phase : Type 0 where
  looping broken complete : Phase

-- The locals of `wait`, and what it writes of `JobTrackerInner`. `sent` records the events that the
-- broadcaster's channel took, and `replies` what was sent on the oneshots of kill requests.
pub record Tracker : Type 0 where
  pub stdout_ok : Bool
  pub stderr_ok : Bool
  pub kill_ok : Bool
  pub child_ok : Bool
  pub loop_err : Option TrackerError
  pub kill_reqs : List KillRequest
  pub job : Job
  pub res : Option (Result (Unit {0}) TrackerError)
  pub sent : List FrameEvent
  pub replies : List (ℕ × Result Job IoError)
  pub phase : Phase

-- The branch of `select!` that is taken, with what its future gave, whether the send to the
-- broadcaster was `Ok`, what `child.kill()` gave, and the time that `Utc::now()` gives.
pub data Select : Type 0 where
  stdout_rx : Option (Result Frame TrackerError) → Bool → Select
  stderr_rx : Option (Result Frame TrackerError) → Bool → Select
  kill_rx : Option KillRequest → Result (Unit {0}) IoError → DateTime → Select
  child_wait : Result ProcessExit IoError → DateTime → Select

-- A round of the loop, or the code behind it, with whether its send was `Ok`.
pub data Event : Type 0 where
  select : Select → Event
  epilogue : Bool → Event

-- `JobTracker::track`, and the head of `wait`
unfoldable pub track : Job → Tracker
track job = record {
  stdout_ok = true;
  stderr_ok = true;
  kill_ok = true;
  child_ok = true;
  loop_err = none;
  kill_reqs = [];
  job = job;
  res = none;
  sent = [];
  replies = [];
  phase = looping;
}

-- `break_err!`
unfoldable pub break_err : TrackerError → Tracker → Tracker
break_err e s = record s { loop_err = some e; phase = broken }

-- `frame_tx.send(frame).await` in a branch
unfoldable pub forward : FrameEvent → Bool → Tracker → Tracker
unfolding break_err
forward ev true s = record s { sent = s.sent ++ ev ∷ [] }
forward ev false s = break_err (broadcaster_disappeared ev) s

-- `unpack_frame!`, and the send behind it. The first argument is what the end of the stream does.
unfoldable pub on_output : Tracker → Option (Result Frame TrackerError) → Bool → Tracker → Tracker
unfolding break_err forward
on_output closed none accepted s = closed
on_output closed (some (ok f)) accepted s = forward (frame f) accepted s
on_output closed (some (err e)) accepted s = break_err e s

unfoldable pub on_kill :
    Option KillRequest → Result (Unit {0}) IoError → DateTime → Tracker → Tracker
on_kill none killed now s = record s { kill_ok = false }
on_kill (some req) (err e) now s = record s { replies = s.replies ++ (req.tx, err e) ∷ [] }
on_kill (some req) (ok _) now s = record s {
  job = record (s.job) { killed = some (record { killed_at = now; user = req.user }) };
  kill_reqs = s.kill_reqs ++ req ∷ [];
}

abbrev pub ended_job : Job → ProcessExit → DateTime → Job
ended_job job status now = record job { ended_at = some now; state = exited (from_process status) }

unfoldable pub on_exit : Result ProcessExit IoError → DateTime → Tracker → Tracker
unfolding break_err
on_exit (ok status) now s =
    let job = ended_job s.job status now in
    record s {
      child_ok = false;
      job = job;
      replies = s.replies ++ map (λ req. (req.tx, ok job)) s.kill_reqs;
      kill_reqs = [];
    }
on_exit (err e) now s = break_err (wait_child e) (record s { child_ok = false })

-- The `if` of a branch of `select!`.
abbrev pub enabled : Select → Tracker → Bool
enabled (stdout_rx o accepted) s = s.stdout_ok
enabled (stderr_rx o accepted) s = s.stderr_ok
enabled (kill_rx req killed now) s = s.kill_ok
enabled (child_wait status now) s = s.child_ok

unfoldable pub body : Select → Tracker → Tracker
unfolding on_output on_kill on_exit
body (stdout_rx o accepted) s = on_output (record s { stdout_ok = false }) o accepted s
body (stderr_rx o accepted) s = on_output (record s { stderr_ok = false }) o accepted s
body (kill_rx req killed now) s = on_kill req killed now s
body (child_wait status now) s = on_exit status now s

-- `if !child_ok && !stdout_ok && !stderr_ok { break; }`
unfoldable pub loop_head : Tracker → Tracker
loop_head s =
    if not s.child_ok && (not s.stdout_ok && not s.stderr_ok)
    then record s { phase = broken }
    else s

-- The code behind the loop.
unfoldable pub terminal : Option TrackerError → FrameEvent
terminal none = eof
terminal (some e) = error e

unfoldable pub result : Option TrackerError → Result (Unit {0}) TrackerError
result none = ok tt
result (some e) = err e

unfoldable pub finish : Bool → Tracker → Tracker
unfolding terminal result
finish accepted s = record s {
  sent = if accepted then s.sent ++ terminal s.loop_err ∷ [] else s.sent;
  res = some (result s.loop_err);
  phase = complete;
}

unfoldable pub turn : Phase → Event → Tracker → Tracker
unfolding body loop_head finish
turn looping (select e) s = if enabled e s then loop_head (body e s) else s
turn broken (epilogue accepted) s = finish accepted s
turn _ _ s = s

-- `select!` takes no branch whose `if` fails, and the epilogue runs behind the loop.
unfoldable pub step : Tracker → Event → Tracker
unfolding turn
step s e = turn s.phase e s

unfoldable pub run : Tracker → List Event → Tracker
run s [] = s
run s (e ∷ es) = run (step s e) es
