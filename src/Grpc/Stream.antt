-- ===== src/Grpc/Stream.antt =====
-- src/grpc.rs: the task of `logs` that turns the events of a relay into the items of a reply stream.
use Prim.Native.String.{◌++◌}
use rust_job_runner.Common.{
  String, Bool, true, false, Option, none, some, Result, ok, err, List, [], ◌∷◌, if◌then◌else◌,
}
use rust_job_runner.Frames.{FrameEvent, frame, error, eof, TrackerError, show_tracker_error}
use rust_job_runner.Pb.{LogFrame}
use rust_job_runner.Grpc.Status.{internal, Status, status}
use rust_job_runner.Grpc.Convert.{to_log_frame}

-- What `records.recv()` gave, and whether the send that follows was `Ok`.
abbrev pub Step : Type 0
Step = Option FrameEvent × Bool

abbrev pub unexpected_end : Status
unexpected_end = status internal "log stream terminated unexpectedly"

-- `format!("log stream failed: {err}")`, with tokio's text for a closed channel.
unfoldable pub stream_failed : String → TrackerError → Status
unfolding show_tracker_error
stream_failed channel_closed e =
    status internal ("log stream failed: " ++ show_tracker_error channel_closed e)

-- A last item, whose send may fail unnoticed.
abbrev last_item : Bool → Status → List (Result LogFrame Status)
last_item true s = err s ∷ []
last_item false s = []

-- The items sent, and whether the task has ended when the steps run out.
unfoldable pub forward : String → List Step → List (Result LogFrame Status) × Bool
unfolding to_log_frame stream_failed
forward text [] = ([], false)
forward text ((none, accepted) ∷ steps) = (last_item accepted unexpected_end, true)
forward text ((some (frame f), accepted) ∷ steps) =
    let (items, ended) = forward text steps in
    if accepted then (ok (to_log_frame f) ∷ items, ended) else ([], true)
forward text ((some (error e), accepted) ∷ steps) =
    (last_item accepted (stream_failed text e), true)
forward text ((some eof, accepted) ∷ steps) = ([], true)
