-- ===== src/Fleet/Owners.antt =====
-- Whose requests reach the tasks of a job.
use rust_job_runner.Common.{◌≡◌, none, some, ok, err, arith}
use rust_job_runner.Types.{User, JobId, JobKilled, Pid, DateTime}
use rust_job_runner.Types.Life.{started}
use rust_job_runner.Tracker.{
  track, Phase, looping, broken, complete, Tracker, stdout_rx, stderr_rx, kill_rx, child_wait,
  Event, select, epilogue, on_output, on_kill, on_exit, body, loop_head, finish, turn, step,
}

-- A kill request comes from `user`.
abbrev pub IsOwn : User → Event → Type 0
IsOwn user (select (kill_rx (some req) killed now)) = req.user.id ≡ user.id
IsOwn user _ = Unit

-- Only `user` has killed the job.
unfoldable pub KilledBy : User → Tracker → Type 0
KilledBy user t = (k : JobKilled) → t.job.killed ≡ some k → k.user.id ≡ user.id

turn-KilledBy :
    (user : User) (p : Phase) (e : Event) (t : Tracker)
    → IsOwn user e
    → KilledBy user t
    → KilledBy user (turn p e t)
unfolding turn body on_output on_kill on_exit loop_head finish KilledBy
turn-KilledBy user looping (select (stdout_rx none a)) t o v k h = ground (arith, v k)
turn-KilledBy user looping (select (stdout_rx (some (ok f)) a)) t o v k h = ground (arith, v k)
turn-KilledBy user looping (select (stdout_rx (some (err x)) a)) t o v k h = ground (arith, v k)
turn-KilledBy user looping (select (stderr_rx none a)) t o v k h = ground (arith, v k)
turn-KilledBy user looping (select (stderr_rx (some (ok f)) a)) t o v k h = ground (arith, v k)
turn-KilledBy user looping (select (stderr_rx (some (err x)) a)) t o v k h = ground (arith, v k)
turn-KilledBy user looping (select (kill_rx none killed now)) t o v k h = ground (arith, v k)
turn-KilledBy user looping (select (kill_rx (some req) (ok u) now)) t o v k h = ground (arith, v k)
turn-KilledBy user looping (select (kill_rx (some req) (err x) now)) t o v k h = ground (arith, v k)
turn-KilledBy user looping (select (child_wait (ok status) now)) t o v k h = ground (arith, v k)
turn-KilledBy user looping (select (child_wait (err x) now)) t o v k h = ground (arith, v k)
turn-KilledBy user looping (epilogue a) t o v k h = v k h
turn-KilledBy user broken (epilogue a) t o v k h = ground (arith, v k)
turn-KilledBy user broken (select e) t o v k h = v k h
turn-KilledBy user complete e t o v k h = v k h

pub step-KilledBy :
    (user : User) (e : Event) (t : Tracker)
    → IsOwn user e
    → KilledBy user t
    → KilledBy user (step t e)
unfolding step
step-KilledBy user e t o v = turn-KilledBy user t.phase e t o v

pub track-KilledBy :
    (user : User) (id : JobId) (owner : User) (pid : Pid) (now : DateTime)
    → KilledBy user (track (started id owner pid now))
unfolding KilledBy track started
track-KilledBy user id owner pid now k h = ground arith
