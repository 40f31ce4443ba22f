-- ===== src/Scenario.antt =====
-- src/proc/coord.rs, its tests: what they do with a log stream and with a job, as functions of what
-- the channel and `ps` give them.
pub mod Awaited
pub mod Demuxed
pub mod Fake
pub mod Faked
mod Tests
mod FakeTests
use rust_job_runner.Common.{Option, none, some, Result, ok, err, List, [], ◌∷◌, ◌++◌, if◌then◌else◌}
use rust_job_runner.Types.{Job}
use rust_job_runner.Types.Life.{is_running}
use rust_job_runner.Frames.{StreamKind, stdout, stderr, Frame, FrameEvent, frame, error, eof, Bytes}
use rust_job_runner.Coord.{Error}

-- A call that has not returned yet, one that panicked, and one that returned.
pub data Progress (A : Type 0) : Type 0 where
  going panics : Progress A
  returns : A → Progress A

pub record FrameDemux : Type 0 where
  pub out : Bytes
  pub errs : Bytes

-- `FrameDemux::default`
abbrev pub no_output : FrameDemux
no_output = record { out = []; errs = [] }

abbrev pub extend : StreamKind → Bytes → FrameDemux → FrameDemux
extend stdout bs d = record d { out = d.out ++ bs }
extend stderr bs d = record d { errs = d.errs ++ bs }

-- The loop of `FrameDemux::consume`, over what `rx.recv()` gives.
unfoldable pub consume : FrameDemux → List (Option FrameEvent) → Progress FrameDemux
consume d [] = going
consume d (none ∷ _) = panics
consume d (some (frame f) ∷ rest) = consume (extend f.kind f.bs d) rest
consume d (some (error e) ∷ _) = panics
consume d (some eof ∷ _) = returns d

-- `wait_on_job`, over what `ps` gives, time after time.
unfoldable pub wait_on_job : List (Result Job Error) → Progress Job
wait_on_job [] = going
wait_on_job (err e ∷ _) = panics
wait_on_job (ok job ∷ rest) =
    let later = wait_on_job rest in if is_running job.state then later else returns job
