-- ===== src/Fleet/Isolation.antt =====
-- What one user's calls can do to the job of another: nothing.
use rust_job_runner.Common.{
  String, ◌≡◌, refl, ap, sym, subst, ◌∙◌, inl, inr, some, Result, ok, err, List, [], ◌∷◌, ◌++◌,
  lookup, All, All-append, Result-cases,
}
use rust_job_runner.Types.{Ctx, JobId, Pid, DateTime}
use rust_job_runner.Types.Life.{started}
use rust_job_runner.Frames.{FrameEvent}
use rust_job_runner.Channel.{Mpsc}
use rust_job_runner.Spawn.{TokioChild, Outcome, returned, panicked}
use rust_job_runner.Spawn
use rust_job_runner.Coord.{get_tracker}
use rust_job_runner.Coord.Access.{get_tracker-owned}
use rust_job_runner.Relay.{Relay, FrameRequest, Turn}
use rust_job_runner.Tracker.Invariant.{track-IsTracking}
use rust_job_runner.Tracker.Requests.{kill_request}
use rust_job_runner.Broadcast.Port.{RelayPort}
use rust_job_runner.Broadcast.Clients.{relay_port, IsServed}
use rust_job_runner.Runtime.{run, start}
use rust_job_runner.Runtime.Played.{run-IsPlayed}
use rust_job_runner.Fleet.{
  Entry, Call, spawn, logs, kill, task, Jobs, memory_of, update, if_owner, on_spawn, after, history,
}
use rust_job_runner.Fleet.Entries.{update-All, insert-All, lookup-All, lookup-trackers}
use rust_job_runner.Fleet.Owners.{KilledBy, track-KilledBy}
use rust_job_runner.Fleet.Jobs.{IsJob, on_task-IsJob, waiting-IsJob}

module _ {R Req : Type 0} (M : Mpsc FrameEvent) (P : RelayPort R Req) where
  open M use {Chan}
  open P use {Act}

  pub AllJobs : Jobs M P → Type 0
  AllJobs d = All (λ x. IsJob M P x.0 x.1) d

  pub start-AllJobs : AllJobs []
  unfolding AllJobs
  start-AllJobs = tt

  -- Who gets through to the job under a key is the user who started it.
  caller-IsJob :
      (d : Jobs M P) (ctx : Ctx) (id : JobId) (e : Entry Chan R Req) {r : _}
      → lookup id.value d ≡ some e
      → get_tracker (memory_of d) ctx id ≡ ok r
      → (v : IsJob M P id.value e) → ctx.user.id ≡ v.user.id
  unfolding started
  caller-IsJob d ctx id e found passed v =
      sym (
        get_tracker-owned (memory_of d) ctx id e.tasks.tracker (lookup-trackers id.value d found)
          passed)
      ∙ ap (λ u. u.id) v.tracking.same_user

  on_spawn-AllJobs :
      (ctx : Ctx) (id : JobId) (now : DateTime) (child : Outcome (Result TokioChild Spawn.Error))
      (d : Jobs M P)
      → AllJobs d
      → AllJobs (on_spawn M P ctx id now child d)
  unfolding AllJobs start run
  on_spawn-AllJobs ctx id now panicked d v = v
  on_spawn-AllJobs ctx id now (returned (err e)) d v = v
  on_spawn-AllJobs ctx id now (returned (ok child)) d v =
      let pid : Pid = record { pid = child.pid } in
      insert-All (λ x. IsJob M P x.0 x.1) id.value _ d
        (record {
          id = id;
          user = ctx.user;
          pid = pid;
          now = now;
          trace = [];
          right_key = refl;
          tracking = track-IsTracking (started id ctx.user pid now);
          ran = refl;
          killed_by = track-KilledBy ctx.user id ctx.user pid now;
          kills_own = tt;
          asks_own = tt;
          readers_own = tt;
        })
        v

  -- A request of the owner of a job is put into one of its channels.
  if_owner-AllJobs :
      (d : Jobs M P) (ctx : Ctx) (id : JobId) (f : Entry Chan R Req → Entry Chan R Req)
      → ((e : Entry Chan R Req) (v : IsJob M P id.value e)
          → ctx.user.id ≡ v.user.id
          → IsJob M P id.value (f e))
      → AllJobs d
      → AllJobs (if_owner (get_tracker (memory_of d) ctx id) (update id.value f) d)
  unfolding AllJobs
  if_owner-AllJobs d ctx id f keeps v = elim (Result-cases (get_tracker (memory_of d) ctx id)) [
    | inr (e, bad) ↦ rw bad v
    | inl (r, good) ↦ rw good (
        update-All (λ x. IsJob M P x.0 x.1) id.value f d
          (λ e found h. keeps e h (caller-IsJob d ctx id e found good h)) v)
  ]

  pub after-AllJobs : (d : Jobs M P) (c : Call Req Act) → AllJobs d → AllJobs (after M P d c)
  unfolding after kill_request
  after-AllJobs d (spawn ctx id child now) v = on_spawn-AllJobs ctx id now child d v
  after-AllJobs d (logs ctx id q) v =
      if_owner-AllJobs d ctx id _
        (λ e h own.
          waiting-IsJob M P id.value e e.kills _ h h.kills_own
            (All-append _ e.asks ((ctx.user, q) ∷ []) h.asks_own (own, tt)))
        v
  after-AllJobs d (kill ctx id tx) v =
      if_owner-AllJobs d ctx id _
        (λ e h own.
          waiting-IsJob M P id.value e _ e.asks h
            (All-append _ e.kills (kill_request ctx tx ∷ []) h.kills_own (own, tt)) h.asks_own)
        v
  after-AllJobs d (task k t) v =
      unfold AllJobs in
      update-All (λ x. IsJob M P x.0 x.1) k _ d (λ e found h. on_task-IsJob M P k t e h) v

  history-AllJobs :
      (d : Jobs M P) (cs : List (Call Req Act)) → AllJobs d → AllJobs (history M P d cs)
  unfolding history
  history-AllJobs d [] v = v
  history-AllJobs d (c ∷ cs) v = history-AllJobs (after M P d c) cs (after-AllJobs d c v)

  pub lookup-IsJob :
      (d : Jobs M P) (k : String) {e : Entry Chan R Req}
      → AllJobs d
      → lookup k d ≡ some e
      → IsJob M P k e
  unfolding AllJobs
  lookup-IsJob d k v found = lookup-All (λ x. IsJob M P x.0 x.1) k d v found

  found-IsJob :
      (cs : List (Call Req Act)) (k : String) {e : Entry Chan R Req}
      → lookup k (history M P [] cs) ≡ some e
      → IsJob M P k e
  unfolding AllJobs
  found-IsJob cs k found = lookup-IsJob (history M P [] cs) k (history-AllJobs [] cs tt) found

module _ (M : Mpsc FrameEvent) where
  open M use {Chan}

  -- The job under the key `k` is its owner's alone.
  pub record IsIsolated (k : String) (e : Entry Chan (Relay Chan) FrameRequest) : Type 0 where
    pub right_id : e.tasks.tracker.job.id.value ≡ k
    pub killed_by : KilledBy e.tasks.tracker.job.user e.tasks.tracker
    pub readers_own : All (λ u. u.id ≡ e.tasks.tracker.job.user.id) e.readers
    pub played :
        All (IsServed M e.tasks.tracker.sent) (e.tasks.bcast.relays ++ e.tasks.bcast.detached)

  -- After any history of calls by any users and of steps of all tasks, in any order: a job that was
  -- killed was killed by its owner, each log stream of the job was opened for its owner, and each has
  -- given a first part of what this job's own tracker sent, and nothing of another job.
  pub history-IsIsolated :
      (cs : List (Call FrameRequest Turn)) (k : String) (e : Entry Chan (Relay Chan) FrameRequest)
      → lookup k (history M (relay_port M) [] cs) ≡ some e
      → IsIsolated k e
  unfolding started KilledBy
  history-IsIsolated cs k e found =
      let v = found-IsJob M (relay_port M) cs k found in
      let user = ap (λ u. u.id) v.tracking.same_user in
      record {
        right_id = ap (λ i. i.value) v.tracking.same_id ∙ v.right_key;
        killed_by = λ who h. v.killed_by who h ∙ sym user;
        readers_own = subst (λ u. All (λ r. r.id ≡ u) e.readers) (sym user) v.readers_own;
        played =
            subst (λ t. All (IsServed M t.tracker.sent) (t.bcast.relays ++ t.bcast.detached))
              (sym v.ran) (run-IsPlayed M (started v.id v.user v.pid v.now) v.trace);
      }
