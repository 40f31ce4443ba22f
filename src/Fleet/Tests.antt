-- ===== src/Fleet/Tests.antt =====
-- Two users with one job.
use rust_job_runner.Common.{
  ◌≡◌, refl, true, Option, none, some, ok, err, List, [], ◌∷◌, lookup, insert, map, All,
}
use rust_job_runner.Types.{Ctx, Job, JobId, signaled}
use rust_job_runner.Frames.{FrameEvent, stdout, frame}
use rust_job_runner.Channel.{Bounded, bounded, Mpsc}
use rust_job_runner.Spawn.{TokioChild, returned}
use rust_job_runner.Relay.{Relay, FrameRequest, Turn, deliver, client_reads}
use rust_job_runner.Broadcast.Port.{RelayPort}
use rust_job_runner.Broadcast.Clients.{relay_port}
use rust_job_runner.Types.Life.{started}
use rust_job_runner.Runtime.{start}
use rust_job_runner.Tracker
use rust_job_runner.Tracker.Requests.{kill_request}
use rust_job_runner.Broadcast
use rust_job_runner.Broadcast.System
use rust_job_runner.Relay
use rust_job_runner.Runtime
use rust_job_runner.Output.{frame_new}
use rust_job_runner.Coord.{get_tracker, ps}
use rust_job_runner.Fleet.{
  Entry, Call, spawn, logs, kill, task, output, receive, take_ask, take_kill, held, exit, memory_of,
  update, after, history,
}
use rust_job_runner.Fleet.Isolation.{IsIsolated, history-IsIsolated}
use rust_job_runner.Fleet.Kills.{TakesKills, Outcomes, takes, AllAnswered, takes-AllAnswered}
use rust_job_runner.Fleet.Alone.{mine, alone, HasNewIds}
use rust_job_runner.Fleet.Undisturbed.{history-alone}
use rust_job_runner.Fleet.Watched.{SparesId, watched-IsLater}
use rust_job_runner.Coord.History.{IsShown}
use rust_job_runner.Tracker.Lifecycle.{Later, IsLater}

abbrev queues : Mpsc FrameEvent
queues = bounded FrameEvent

abbrev port : RelayPort (Relay (Bounded FrameEvent)) FrameRequest
port = relay_port queues

abbrev ann : Ctx
ann = record { user = record { id = "CN=ann" } }

abbrev bob : Ctx
bob = record { user = record { id = "CN=bob" } }

abbrev j1 : JobId
j1 = record { value = "j1" }

abbrev child : TokioChild
child = record {
  child = record { id = some 77; stdout = none; stderr = none };
  pid = 77;
  stdout = some 4;
  stderr = some 5;
}

-- Bob, who asks first and also kills first, gets nothing.
abbrev two_users : List (Call FrameRequest Turn)
two_users =
    spawn ann j1 (returned (ok child)) 5
    ∷ logs bob j1 (record { waiting = true })
    ∷ logs ann j1 (record { waiting = true })
    ∷ kill bob j1 0
    ∷ kill ann j1 1
    ∷ task "j1" take_ask
    ∷ task "j1" (output stdout (some (ok (104 ∷ []))))
    ∷ task "j1" receive
    ∷ task "j1" (held 0 Relay.receive)
    ∷ task "j1" (held 0 deliver)
    ∷ task "j1" (held 0 client_reads)
    ∷ task "j1" (take_kill (ok tt) 8)
    ∷ task "j1" take_ask
    ∷ []

abbrev TheEntry : Type 0
TheEntry = Entry (Bounded FrameEvent) (Relay (Bounded FrameEvent)) FrameRequest

abbrev entry_or : TheEntry → Option TheEntry → TheEntry
entry_or e none = e
entry_or e (some f) = f

abbrev fresh : TheEntry
fresh = record {
  tasks = start queues port (started j1 ann.user (record { pid = 77 }) 5);
  kills = [];
  asks = [];
  readers = [];
}

abbrev ann_entry : TheEntry
ann_entry = entry_or fresh (lookup "j1" (history queues port [] two_users))

ann_entry_found : lookup "j1" (history queues port [] two_users) ≡ some ann_entry
unfolding history lookup after update get_tracker insert start Tracker.track started
ann_entry_found = refl

ann_reads :
    (ann_entry.readers ≡ ann.user ∷ [])
    × (map (λ r. r.taken) ann_entry.tasks.bcast.relays
        ≡ (frame (record { kind = stdout; bs = 104 ∷ [] }) ∷ []) ∷ [])
    × (ann_entry.tasks.tracker.job.killed ≡ some (record { killed_at = 8; user = ann.user }))
unfolding history lookup after update get_tracker insert start Tracker.track started Runtime.step
    Tracker.step kill_request Broadcast.turn Broadcast.retain Broadcast.new System.step Relay.start
    Relay.turn Relay.accept frame_new
ann_reads = (refl, refl, refl)

history-IsIsolated_example : IsIsolated queues "j1" ann_entry
history-IsIsolated_example = history-IsIsolated queues two_users "j1" ann_entry ann_entry_found

-- Ann's job is shown behind the kill, and then exits, while bob spawns a job.
abbrev bob_spawns : List (Call FrameRequest Turn)
bob_spawns =
    spawn bob (record { value = "j2" }) (returned (ok child)) 9
    ∷ task "j1" (exit (ok (signaled 9)) 10)
    ∷ []

abbrev ann_job : Job
ann_job = ann_entry.tasks.tracker.job

ann_sees : ps (memory_of (history queues port [] two_users)) ann j1 ≡ ok ann_job
unfolding ps history lookup after update get_tracker insert start Tracker.track started Runtime.step
    Tracker.step kill_request Broadcast.turn Broadcast.retain Broadcast.new System.step Relay.start
    Relay.turn Relay.accept frame_new
ann_sees = refl

bob_spares : All (SparesId queues port j1) bob_spawns
bob_spares = (refl, (tt, tt))

watched-IsLater_example :
    IsShown ann j1 ann_job
    × ((k : Job) × (ps
            (memory_of (history queues port (history queues port [] two_users) bob_spawns))
            ann
            j1
          ≡ ok k)
        × IsShown ann j1 k
        × Later ann_job k
        × IsLater ann_job k)
watched-IsLater_example =
    watched-IsLater queues port two_users bob_spawns ann j1 ann_job ann_sees bob_spares

-- Ann asks twice to kill her job, and bob once.
abbrev two_kills : List (Call FrameRequest Turn)
two_kills =
    spawn ann j1 (returned (ok child)) 5 ∷ kill ann j1 1 ∷ kill bob j1 0 ∷ kill ann j1 2 ∷ []

abbrev asked_entry : TheEntry
asked_entry = record fresh { kills = kill_request ann 1 ∷ kill_request ann 2 ∷ [] }

asked_entry_found : lookup "j1" (history queues port [] two_kills) ≡ some asked_entry
unfolding history lookup after update get_tracker insert start Tracker.track started
asked_entry_found = refl

asked_entry_takes : TakesKills asked_entry.tasks.tracker
unfolding start Tracker.track
asked_entry_takes = record { loops = refl; waits = refl; listens = refl }

-- The first `child.kill()` fails.
abbrev outcomes : Outcomes
outcomes = (err "busy", 8) ∷ (ok tt, 9) ∷ []

takes-AllAnswered_example :
    (f : TheEntry) × (lookup "j1" (
        after queues port
          (history queues port (history queues port [] two_kills) (takes queues port "j1" outcomes))
          (task "j1" (exit (ok (signaled 9)) 10)))
      ≡ some f)
    × AllAnswered queues port asked_entry f
takes-AllAnswered_example =
    takes-AllAnswered queues port (history queues port [] two_kills) "j1" asked_entry outcomes
      (signaled 9) 10 asked_entry_found asked_entry_takes refl

-- What is left of `two_users` without the calls of bob.
abbrev ann_alone : List (Call FrameRequest Turn)
ann_alone =
    spawn ann j1 (returned (ok child)) 5
    ∷ logs ann j1 (record { waiting = true })
    ∷ kill ann j1 1
    ∷ task "j1" take_ask
    ∷ task "j1" (output stdout (some (ok (104 ∷ []))))
    ∷ task "j1" receive
    ∷ task "j1" (held 0 Relay.receive)
    ∷ task "j1" (held 0 deliver)
    ∷ task "j1" (held 0 client_reads)
    ∷ task "j1" (take_kill (ok tt) 8)
    ∷ task "j1" take_ask
    ∷ []

two_users_new : HasNewIds queues port [] two_users
unfolding lookup
two_users_new = (refl, (tt, (tt, (tt, (tt, (tt, (tt, (tt, (tt, (tt, (tt, (tt, (tt, tt)))))))))))))

history-alone_example :
    mine ann (lookup "j1" (history queues port [] two_users))
    ≡ mine ann (lookup "j1" (history queues port [] ann_alone))
unfolding alone
history-alone_example = history-alone queues port ann two_users "j1" two_users_new
