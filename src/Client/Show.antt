-- ===== src/Client/Show.antt =====
-- src/bin/client.rs: how `print_job` shows the state of a job.
use Prim.Native.String.{◌++◌}
use rust_job_runner.Common.{String, suc}
use rust_job_runner.Common.Int.{ℤ, pos, negsuc}
use rust_job_runner.Pb.{State, running, exited, crashed}
use rust_job_runner.Grpc.Requests.{show_usize}

-- `Display for i32`
unfoldable pub show_i32 : ℤ → String
show_i32 (pos n) = show_usize n
show_i32 (negsuc n) = "-" ++ show_usize (suc n)

unfoldable pub show_state : State → String
unfolding show_i32
show_state (running r) = "Running pid=" ++ show_usize r.pid
show_state (exited x) = "Exited code=" ++ show_i32 x.exit_code
show_state (crashed c) = "Crashed signal=" ++ (show_i32 c.signal ++ (" msg=" ++ c.msg))
