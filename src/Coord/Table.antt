-- ===== src/Coord/Table.antt =====
-- What a call makes of the entry under each key of the table of jobs.

use rust_job_runner.Common.{
  String, ◌≡◌, some, Option, ok, err, lookup, lookup-insert, str_eq, if◌then◌else◌, arith,
}
use rust_job_runner.Types.Life.{started}
use rust_job_runner.Spawn.{returned, panicked}
use rust_job_runner.Tracker.{Tracker, track}
use rust_job_runner.Coord.{Memory, spawn}
use rust_job_runner.Coord.History.{Call, spawns, tracker_turn, after}
use rust_job_runner.Coord.Later.{stepped, lookup-step_at}

abbrev pub key_of : Call → String
key_of (spawns ctx id child now) = id.value
key_of (tracker_turn k e) = k

-- What a call makes of the entry under its key.
abbrev pub entry_after : Call → Option Tracker → Option Tracker
entry_after (spawns ctx id (returned (ok child)) now) o =
    some (track (started id ctx.user (record { pid = child.pid }) now))
entry_after (spawns ctx id _ now) o = o
entry_after (tracker_turn k e) o = stepped e o

pub lookup-after :
    (m : Memory) (c : Call) (k : String)
    → lookup k (after m c).jobs
      ≡ (if str_eq (key_of c) k then entry_after c (lookup k m.jobs) else lookup k m.jobs)
unfolding after spawn
lookup-after m (spawns ctx id panicked now) k = ground arith
lookup-after m (spawns ctx id (returned (err e)) now) k = ground arith
lookup-after m (spawns ctx id (returned (ok child)) now) k = lookup-insert id.value k _ m.jobs
lookup-after m (tracker_turn j e) k = lookup-step_at k j e m.jobs
