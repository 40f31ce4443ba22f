-- ===== src/Coord/Tests.antt =====
-- A table with one job of one user.
use rust_job_runner.Common.{
  ◌≡◌, ◌≢◌, refl, true, none, some, ok, List, [], ◌∷◌, arith, insert, lookup, eq_iff, All,
}
use rust_job_runner.Types.{Ctx, Job, JobId, running, exited_with}
use rust_job_runner.Types.Life.{started}
use rust_job_runner.Spawn.{TokioChild, returned}
use rust_job_runner.Tracker.{Tracker, track, step, select, stdout_rx, child_wait}
use rust_job_runner.Coord.{Memory, empty, get_tracker, spawn, ps}
use rust_job_runner.Common.Int.{pos}
use rust_job_runner.Tracker.Lifecycle.{Later, IsLater}
use rust_job_runner.Coord.Later.{Spares, ps-Later}
use rust_job_runner.Coord.History.{
  Call, spawns, tracker_turn, after, history, IsShown, history-IsShown,
}

abbrev pub ann : Ctx
ann = record { user = record { id = "CN=ann" } }

abbrev pub bob : Ctx
bob = record { user = record { id = "CN=bob" } }

abbrev pub j1 : JobId
j1 = record { value = "j1" }

abbrev pub j2 : JobId
j2 = record { value = "j2" }

abbrev pub child : TokioChild
child = record {
  child = record { id = some 77; stdout = none; stderr = none };
  pid = 77;
  stdout = some 1;
  stderr = some 2;
}

abbrev pub ann_job : Job
ann_job = record {
  id = j1;
  user = ann.user;
  killed = none;
  started_at = 5;
  ended_at = none;
  state = running (record { pid = 77 });
}

abbrev tracker : Tracker
tracker = track ann_job

abbrev table : Memory
table = record { jobs = ("j1", tracker) ∷ [] }

found : lookup "j1" table.jobs ≡ some tracker
unfolding lookup
found = refl

fresh : lookup "j2" table.jobs ≡ none
unfolding lookup
fresh = refl

ann_not_bob : ann.user.id ≢ bob.user.id
ann_not_bob = ground (arith, eq_iff "CN=ann" "CN=bob")

bob_not_ann : bob.user.id ≢ ann.user.id
bob_not_ann = ground (arith, eq_iff "CN=bob" "CN=ann")

tracker_user : tracker.job.user.id ≡ ann.user.id
unfolding track
tracker_user = refl

abbrev pub two_calls : List Call
two_calls =
    spawns ann j1 (returned (ok child)) 5 ∷ tracker_turn "j1" (select (stdout_rx none true)) ∷ []

pub shown : ps (history empty two_calls) ann j1 ≡ ok ann_job
unfolding ps history after spawn empty get_tracker step track lookup insert started
shown = refl

history-IsShown_example : IsShown ann j1 ann_job
history-IsShown_example = history-IsShown two_calls ann j1 ann_job shown

-- The child exits, and bob starts a job of his own.
abbrev pub more_calls : List Call
more_calls =
    tracker_turn "j1" (select (child_wait (ok (exited_with (pos 0))) 9))
    ∷ spawns bob j2 (returned (ok child)) 11
    ∷ []

pub more_calls_spare : All (Spares j1) more_calls
more_calls_spare = (tt, (refl, tt))

ps-Later_example :
    (k : Job) × (ps (history (history empty two_calls) more_calls) ann j1 ≡ ok k)
    × Later ann_job k
    × IsLater ann_job k
ps-Later_example = ps-Later two_calls more_calls ann j1 ann_job shown more_calls_spare
