-- ===== src/Tracker/Requests.antt =====
-- src/proc/coord.rs: what a caller does with a tracker, `kill` and `stream_logs`. What tokio's
-- channels and its timer give is an argument.
use rust_job_runner.Common.{ℕ, Bool, true, false, Result, ok, err, ◌>>◌}
use rust_job_runner.Types.{Job, Ctx}
use rust_job_runner.Frames.{IoError}
use rust_job_runner.Tracker.{KillRequest}

pub data KillError : Type 0 where
  req_send_failed req_timeout tx_dropped : KillError
  kill_failed : IoError → KillError

pub data FrameError : Type 0 where
  broadcaster_unavailable_for_logs timeout_waiting_for_log_rx get_log_stream : FrameError

-- `tokio::time::timeout(1s, rx).await` over a oneshot: the time is up, the sender was dropped, or
-- a value came.
pub data Waited (A : Type 0) : Type 0 where
  elapsed dropped : Waited A
  arrived : A → Waited A

-- `KillRequest::new`, with the number of its oneshot
unfoldable pub kill_request : Ctx → ℕ → KillRequest
kill_request ctx tx = record { user = ctx.user; tx = tx }

abbrev pub sent_or : {E : Type 0} → Bool → E → Result (Unit {0}) E
sent_or true e = ok tt
sent_or false e = err e

-- The three `map_err` of `JobTracker::kill`.
unfoldable pub kill_answer : Waited (Result Job IoError) → Result Job KillError
kill_answer elapsed = err req_timeout
kill_answer dropped = err tx_dropped
kill_answer (arrived (err e)) = err (kill_failed e)
kill_answer (arrived (ok job)) = ok job

-- `JobTracker::kill`: whether the request was taken, and what came back.
unfoldable pub kill : Bool → Waited (Result Job IoError) → Result Job KillError
unfolding kill_answer
kill accepted answer = do sent_or accepted req_send_failed; kill_answer answer

-- The `match` of `FrameBroadcaster::stream`.
unfoldable pub stream_answer : {Rx : Type 0} → Waited Rx → Result Rx FrameError
stream_answer (arrived rx) = ok rx
stream_answer dropped = err get_log_stream
stream_answer elapsed = err timeout_waiting_for_log_rx

-- `FrameBroadcaster::stream`, behind `JobTracker::stream_logs`
unfoldable pub stream : {Rx : Type 0} → Bool → Waited Rx → Result Rx FrameError
unfolding stream_answer
stream accepted answer = do sent_or accepted broadcaster_unavailable_for_logs; stream_answer answer
