-- ===== src/Client/Replies.antt =====
-- What the client makes of the server's replies.
use Prim.Native.String.{◌++◌}
use rust_job_runner.Common.{String, ◌≡◌, refl, some, ok, err, List, arith, inl, inr, Option-cases}
use rust_job_runner.Common.Int.{ℤ}
use rust_job_runner.Types.{Job, JobState, running, exited, DateTime}
use rust_job_runner.Spawn.{returned}
use rust_job_runner.Pb.{Timestamp, LogsRequest}
use rust_job_runner.Pb
use rust_job_runner.Grpc.Status.{Status}
use rust_job_runner.Grpc.Requests.{show_usize}
use rust_job_runner.Grpc.Convert.{to_job}
use rust_job_runner.Client.Show.{show_i32, show_state}
use rust_job_runner.Client.{Ended, Shown, stop, println, Store, must_ok, with_job, print_job, main}
use rust_job_runner.Client

-- A status in place of a reply is logged and ends every command of the client with exit code 1; nothing
-- is written to its outputs before.
pub main-stop :
    (store : Store) (cmd id : String) (args : List String) (a b c d : Status)
    → store.spawn (record { name = cmd; args = args }) ≡ err a
    → store.logs (record { job_id = id }) ≡ err b
    → store.ps (record { job_id = id }) ≡ err c
    → store.kill (record { job_id = id }) ≡ err d
    → (main store (Client.run cmd args) ≡ stop (Client.exited 1 a))
      × (main store (Client.logs id) ≡ stop (Client.exited 1 b))
      × (main store (Client.ps id) ≡ stop (Client.exited 1 c))
      × (main store (Client.kill id) ≡ stop (Client.exited 1 d))
unfolding main must_ok
main-stop store cmd id args a b c d e f g h = (rw e refl, rw f refl, rw g refl, rw h refl)

-- The line that tells a state.
abbrev pub IsLine : JobState → String → Type 0
IsLine (running pid) line = line ≡ "Running pid=" ++ show_usize pid.pid
IsLine (exited status) line =
    (code : ℤ) × (status.code ≡ some code) × (line ≡ "Exited code=" ++ show_i32 code)

module _ (timestamp : DateTime → Timestamp) where
  print_job-IsLine :
      (job : Job) (m : Pb.Job) (state : JobState)
      → job.state ≡ state
      → to_job timestamp job ≡ returned m
      → (line : String) × (print_job m ≡ ok line) × IsLine state line
  unfolding to_job print_job show_state
  print_job-IsLine job m (running pid) s e =
      ("Running pid=" ++ show_usize pid.pid, ground arith, refl)
  print_job-IsLine job m (exited status) s e = elim (Option-cases status.code) [
    | inl missing ↦ absurd (ground arith)
    | inr (code, there) ↦ ("Exited code=" ++ show_i32 code, ground arith, (code, there, refl))
  ]

  -- When the server answers `ps` and `kill` with the message of a job, both commands print one line
  -- that tells the job's state, its pid while it runs and its exit code when it has exited, and end
  -- well: the client never misses the job or its state, and never prints that the job has crashed.
  main-IsLine :
      (store : Store) (id : String) (job : Job) (m : Pb.Job)
      → to_job timestamp job ≡ returned m
      → store.ps (record { job_id = id }) ≡ ok (record { job = some m })
      → store.kill (record { job_id = id }) ≡ ok (record { job = some m })
      → (line : String) × (main store (Client.ps id) ≡ println line)
        × (main store (Client.kill id) ≡ println line)
        × IsLine job.state line
  unfolding main must_ok with_job
  main-IsLine store id job m e p k =
      let (line, shown, is) = print_job-IsLine job m job.state refl e in
      (line, rw (p, shown) refl, rw (k, shown) refl, is)
