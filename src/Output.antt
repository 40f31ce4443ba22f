-- ===== src/Output.antt =====
-- src/proc/coord.rs: `JobTracker::consume_output`, the task that cuts an output stream of the child
-- into frames. A step of the environment is what `read` gave and whether `tx.send` was `Ok`.
pub mod Stream
mod Tests
use rust_job_runner.Common.{
  ℕ, ◌≡◌, Bool, true, false, Result, ok, err, List, [], ◌∷◌, ◌==◌, length, if◌then◌else◌,
}
use rust_job_runner.Frames.{StreamKind, Frame, TrackerError, read_output, Bytes, IoError}

-- `s.read(&mut buf[..])`: the bytes that now stand at the front of the buffer, or an error.
pub data Read : Type 0 where
  filled : Bytes → Read
  failed : IoError → Read

abbrev pub buf_size : ℕ
buf_size = 1024

-- `Frame::new`
unfoldable pub frame_new : StreamKind → Bytes → Frame
frame_new kind bs = record { kind = kind; bs = bs }

-- How the closure `consume` stands: still reading, `Ok(())`, or an error.
pub data Outcome : Type 0 where
  reading : Outcome
  finished : Outcome
  broke : TrackerError → Outcome

-- The `loop` of the closure: the frames sent, and how it stands when the steps run out.
unfoldable pub consume : StreamKind → List (Read × Bool) → List Frame × Outcome
unfolding frame_new
consume kind [] = ([], reading)
consume kind ((failed e, accepted) ∷ rest) = ([], broke (read_output kind e))
consume kind ((filled bs, accepted) ∷ rest) =
    let (frames, out) = consume kind rest in
    if length bs == 0
    then ([], finished)
    else if accepted
    then (frame_new kind bs ∷ frames, out)
    else ([], finished)

-- The items that are sent: frames, and the error at the end. Whether that last send succeeds is
-- ignored by the code, and is the second argument.
abbrev pub items : List Frame × Outcome → Bool → List (Result Frame TrackerError)
items ([], broke e) true = err e ∷ []
items ([], out) accepted = []
items (f ∷ frames, out) accepted = ok f ∷ items (frames, out) accepted

pub consume_output : StreamKind → List (Read × Bool) → Bool → List (Result Frame TrackerError)
unfolding consume
consume_output kind steps accepted = items (consume kind steps) accepted
