-- ===== src/Frames.antt =====
-- src/proc/coord.rs: the frames that carry a child's output, and the errors of the tracker.
use Prim.Native.String.{◌++◌}
use rust_job_runner.Common.{ℕ, String, List}

-- An `io::Error`, known by its text: the program only prints it.
abbrev pub IoError : Type 0
IoError = String

-- The bytes of an output stream.
abbrev pub Bytes : Type 0
Bytes = List ℕ

pub data StreamKind : Type 0 where
  stdout stderr : StreamKind

-- `Display for StreamKind`
unfoldable pub show_kind : StreamKind → String
show_kind stdout = "stdout"
show_kind stderr = "stderr"

pub record Frame : Type 0 where
  pub kind : StreamKind
  pub bs : Bytes

-- A `SendError<FrameEvent>` holds the event that was not sent, so the two types are one block.
mutual
  pub data FrameEvent : Type 0 where
    frame : Frame → FrameEvent
    error : TrackerError → FrameEvent
    eof : FrameEvent

  pub data TrackerError : Type 0 where
    wait_child : IoError → TrackerError
    read_output : StreamKind → IoError → TrackerError
    broadcaster_disappeared : FrameEvent → TrackerError

-- `Display for TrackerError`, by its `#[error]` attributes. tokio prints a `SendError` as the text
-- that is given here.
unfoldable pub show_tracker_error : String → TrackerError → String
unfolding show_kind
show_tracker_error channel_closed (wait_child e) = "failed to wait for child process: " ++ e
show_tracker_error channel_closed (read_output kind e) = "read " ++ (show_kind kind ++ (": " ++ e))
show_tracker_error channel_closed (broadcaster_disappeared ev) =
    "broadcaster disappeared: " ++ channel_closed
