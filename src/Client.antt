-- ===== src/Client.antt =====
-- src/bin/client.rs: the four commands of the client. What the server replies is an argument, and
-- so is what the writes to the client's own output give.
pub mod Show
pub mod Demux
pub mod Replies
pub mod EndToEnd
pub mod Replayed
pub mod Tests
pub mod TaskTests
use rust_job_runner.Common.{
  String, Option, none, some, Result, ok, err, ◌>>=◌, ok_or, List, [], ◌∷◌, ◌++◌, ℕ, zero, suc,
}
use rust_job_runner.Common.Int.{ℤ, pos, negsuc}
use rust_job_runner.Frames.{Bytes}
use rust_job_runner.Pb.{
  SpawnRequest, SpawnResponse, LogsRequest, PsRequest, PsResponse, KillRequest, KillResponse,
  LogFrame, LogFrameKind,
}
use rust_job_runner.Pb
use rust_job_runner.Grpc.Status.{Status}
use rust_job_runner.Client.Show.{show_state}

pub data Command : Type 0 where
  run : String → List String → Command
  logs : String → Command
  ps : String → Command
  kill : String → Command

-- Where the client stands: still waiting for a message, `Ok(())`, `exit(code)` behind the status that
-- `tracing::error` writes to its log, or an error of `main` with its context.
pub data Ended : Type 0 where
  waiting : Ended
  done : Ended
  exited : ℕ → Status → Ended
  failed : String → Ended

-- What the client has written so far: its two outputs as far as log frames go, and whole lines.
pub record Shown : Type 0 where
  pub out : Bytes
  pub errs : Bytes
  pub lines : List String
  pub ended : Ended

abbrev pub stop : Ended → Shown
stop e = record { out = []; errs = []; lines = []; ended = e }

abbrev pub println : String → Shown
println line = record { out = []; errs = []; lines = line ∷ []; ended = done }

-- `write_all` and `flush`: both are `Ok`; or the write fails, with the bytes that were written; or
-- the flush fails.
pub data Write : Type 0 where
  flushed : Write
  unwritten : Bytes → Write
  unflushed : Write

-- `LogFrame::kind`: prost takes a number that is no kind for the default, the first one.
unfoldable pub kind_of : ℤ → LogFrameKind
kind_of (pos (suc zero)) = LogFrameKind.stderr
kind_of _ = LogFrameKind.stdout

-- The arm of the `match` on the frame's kind, before what comes after it.
unfoldable pub write : LogFrameKind → Bytes → Shown → Shown
write LogFrameKind.stdout bs s = record s { out = bs ++ s.out }
write LogFrameKind.stderr bs s = record s { errs = bs ++ s.errs }

unfoldable pub write_context : LogFrameKind → String
write_context LogFrameKind.stdout = "write to stdout"
write_context LogFrameKind.stderr = "write to stderr"

unfoldable pub flush_context : LogFrameKind → String
flush_context LogFrameKind.stdout = "flush stdout"
flush_context LogFrameKind.stderr = "flush stderr"

unfoldable pub on_frame : LogFrameKind → Bytes → Write → Shown → Shown
unfolding write write_context flush_context
on_frame kind bs flushed later = write kind bs later
on_frame kind bs (unwritten part) later = write kind part (stop (failed (write_context kind)))
on_frame kind bs unflushed later = write kind bs (stop (failed (flush_context kind)))

-- What `stream.message().await` gives, and what the write behind it gives.
abbrev pub Message : Type 0
Message = Result (Option LogFrame) Status × Write

-- `must_ok`: an error is logged, its code and its message, and ends the process with code 1.
unfoldable pub must_ok : {A : Type 0} → Result A Status → (A → Shown) → Shown
must_ok (ok v) next = next v
must_ok (err s) next = stop (exited 1 s)

-- The `while let` of the command `logs`.
unfoldable pub play : List Message → Shown
unfolding kind_of on_frame
play [] = stop waiting
play ((err s, w) ∷ later) = stop (exited 1 s)
play ((ok none, w) ∷ later) = stop done
play ((ok (some f), w) ∷ later) = on_frame (kind_of f.kind) f.bs w (play later)

-- `print_job`
unfoldable pub print_job : Pb.Job → Result String String
print_job job = do state ← ok_or job.state "no job state in reponse"; ok (show_state state)

abbrev pub printed : Result String String → Shown
printed (ok line) = println line
printed (err context) = stop (failed context)

unfoldable pub with_job : Option Pb.Job → (Pb.Job → Shown) → Shown
with_job none next = stop (failed "no job in response")
with_job (some job) next = next job

-- The server, as the client's stub shows it.
pub record Store : Type 0 where
  pub spawn : SpawnRequest → Result SpawnResponse Status
  pub logs : LogsRequest → Result (List Message) Status
  pub ps : PsRequest → Result PsResponse Status
  pub kill : KillRequest → Result KillResponse Status

-- `main`, behind the connection.
unfoldable pub main : Store → Command → Shown
unfolding must_ok play with_job print_job
main store (run cmd args) =
    must_ok (store.spawn (record { name = cmd; args = args }))
      λ r. with_job r.job (λ job. println job.id)
main store (logs id) = must_ok (store.logs (record { job_id = id })) play
main store (ps id) =
    must_ok (store.ps (record { job_id = id })) λ r. with_job r.job (λ job. printed (print_job job))
main store (kill id) =
    must_ok (store.kill (record { job_id = id }))
      λ r. with_job r.job (λ job. printed (print_job job))
