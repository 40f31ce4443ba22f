-- ===== src/Fleet/Projects.antt =====
-- The coordinator with the tasks of its jobs does what its table alone does.
use rust_job_runner.Common.{
  String, ◌≡◌, refl, ap, sym, subst, ◌∙◌, ◌⊎◌, inl, inr, some, Result, ok, err, List, [], ◌∷◌, ◌++◌,
  Dict, insert, lookup, All, All-append, str_eq, Bool-cases, Option-cases, Result-cases, arith,
}
use rust_job_runner.Types.{Ctx, JobId, DateTime}
use rust_job_runner.Frames.{FrameEvent, IoError}
use rust_job_runner.Channel.{Mpsc}
use rust_job_runner.Spawn.{TokioChild, Outcome, returned, panicked}
use rust_job_runner.Spawn
use rust_job_runner.Tracker.{Tracker, KillRequest, track}
use rust_job_runner.Tracker
use rust_job_runner.Coord.{get_tracker}
use rust_job_runner.Coord.Spawned.{spawn-jobs}
use rust_job_runner.Coord.History.{step_at, spawns, tracker_turn, history-append}
use rust_job_runner.Coord.History
use rust_job_runner.Broadcast.Port.{RelayPort}
use rust_job_runner.Runtime.{Step, to_event, start, step}
use rust_job_runner.Runtime
use rust_job_runner.Runtime.Turns.{TurnsBy, step-TurnsBy}
use rust_job_runner.Fleet.{
  Entry, Task, output, exit, end, receive, take_kill, take_ask, held, free, Call, spawn, logs, kill,
  task, Jobs, trackers, memory_of, update, if_owner, on_take_kill, on_take_ask, on_task, on_spawn,
  after, history,
}

module _ {C R Req : Type 0} where
  trackers-insert :
      (k : String) (e : Entry C R Req) (d : Dict (Entry C R Req))
      → trackers (insert k e d) ≡ insert k e.tasks.tracker (trackers d)
  unfolding insert
  trackers-insert k e [] = refl
  trackers-insert k e ((j, a) ∷ d) = elim (Bool-cases (str_eq j k)) [
    | inl same ↦ rw same refl
    | inr other ↦ rw other (ap (λ l. (j, a.tasks.tracker) ∷ l) (trackers-insert k e d))
  ]

  -- A change that leaves the tracker alone.
  trackers-kept :
      (k : String) (f : Entry C R Req → Entry C R Req) (d : Dict (Entry C R Req))
      → ((e : Entry C R Req) → lookup k d ≡ some e → (f e).tasks.tracker ≡ e.tasks.tracker)
      → trackers (update k f d) ≡ trackers d
  unfolding update lookup
  trackers-kept k f [] h = refl
  trackers-kept k f ((j, a) ∷ d) h = elim (Bool-cases (str_eq j k)) [
    | inl same ↦ rw same (ap (λ t. (j, t) ∷ trackers d) (h a (rw same refl)))
    | inr other ↦
        rw other (
          ap (λ l. (j, a.tasks.tracker) ∷ l)
            (trackers-kept k f d (λ e found. h e (rw other found))))
  ]

  -- A change that is a round of the tracker.
  trackers-stepped :
      (k : String) (f : Entry C R Req → Entry C R Req) (ev : Tracker.Event)
      (d : Dict (Entry C R Req))
      → ((e : Entry C R Req)
          → lookup k d ≡ some e
          → (f e).tasks.tracker ≡ Tracker.step e.tasks.tracker ev)
      → trackers (update k f d) ≡ step_at k ev (trackers d)
  unfolding update lookup step_at
  trackers-stepped k f ev [] h = refl
  trackers-stepped k f ev ((j, a) ∷ d) h = elim (Bool-cases (str_eq j k)) [
    | inl same ↦ rw same (ap (λ t. (j, t) ∷ trackers d) (h a (rw same refl)))
    | inr other ↦ rw other (
        ap (λ l. (j, a.tasks.tracker) ∷ l)
          (trackers-stepped k f ev d (λ e found. h e (rw other found))))
  ]

module _ {R Req : Type 0} (M : Mpsc FrameEvent) (P : RelayPort R Req) where
  open M use {Chan}
  open P use {Act}

  -- A step of a task is a round of the tracker, or none.
  Turned : Tracker → Tracker → Type 0
  Turned t u = (u ≡ t) ⊎ ((ev : Tracker.Event) × (u ≡ Tracker.step t ev))

  TurnsBy-Turned : (s : Step Req Act) (t u : Tracker) → TurnsBy M P s t u → Turned t u
  unfolding TurnsBy Turned
  TurnsBy-Turned (Runtime.wake w) t u (inl e) = inl e
  TurnsBy-Turned (Runtime.wake w) t u (inr (b, e)) = inr (to_event b w, e)
  TurnsBy-Turned Runtime.receive t u e = inl e
  TurnsBy-Turned (Runtime.request q) t u e = inl e
  TurnsBy-Turned (Runtime.held i a) t u e = inl e
  TurnsBy-Turned (Runtime.free i a) t u e = inl e

  stepped :
      (s : Step Req Act) (e : Entry Chan R Req)
      → Turned e.tasks.tracker (step M P e.tasks s).tracker
  stepped s e = TurnsBy-Turned s _ _ (step-TurnsBy M P e.tasks s)

  on_take_kill-Turned :
      (killed : Result (Unit {0}) IoError) (now : DateTime) (e : Entry Chan R Req)
      (kills : List KillRequest)
      → Turned e.tasks.tracker (on_take_kill M P killed now e kills).tasks.tracker
  unfolding Turned
  on_take_kill-Turned killed now e [] = inl refl
  on_take_kill-Turned killed now e (req ∷ later) = stepped _ e

  on_take_ask-Turned :
      (e : Entry Chan R Req) (asks : List (_ × Req))
      → Turned e.tasks.tracker (on_take_ask M P e asks).tasks.tracker
  unfolding Turned
  on_take_ask-Turned e [] = inl refl
  on_take_ask-Turned e ((user, q) ∷ later) = stepped _ e

  on_task-Turned :
      (t : Task Act) (e : Entry Chan R Req) → Turned e.tasks.tracker (on_task M P t e).tasks.tracker
  unfolding on_task
  on_task-Turned (output kind o) e = stepped _ e
  on_task-Turned (exit status now) e = stepped _ e
  on_task-Turned end e = stepped _ e
  on_task-Turned receive e = stepped _ e
  on_task-Turned (take_kill killed now) e = on_take_kill-Turned killed now e e.kills
  on_task-Turned take_ask e = on_take_ask-Turned e e.asks
  on_task-Turned (held i a) e = stepped _ e
  on_task-Turned (free i a) e = stepped _ e

-- `Q` is kept by the calls that the table alone is given.
module _ {R Req : Type 0} (M : Mpsc FrameEvent) (P : RelayPort R Req) (Q : History.Call → Type 0)
    (turns : (k : String) (ev : Tracker.Event) → Q (tracker_turn k ev)) where
  open M use {Chan}
  open P use {Act}

  -- The calls of the table alone that do the same.
  pub record Projects (d d' : Jobs M P) : Type 0 where
    pub calls : List History.Call
    pub kept : All Q calls
    pub same_table : memory_of d' ≡ History.history (memory_of d) calls

  abbrev pub Keeps : Call Req Act → Type 0
  Keeps (spawn ctx id child now) = Q (spawns ctx id child now)
  Keeps _ = Unit {0}

  no_calls : (d d' : Jobs M P) → trackers d' ≡ trackers d → Projects d d'
  unfolding History.history
  no_calls d d' e = record { calls = []; kept = tt; same_table = ap (λ l. record { jobs = l }) e }

  one_call :
      (d d' : Jobs M P) (c : History.Call)
      → Q c
      → trackers d' ≡ (History.after (memory_of d) c).jobs
      → Projects d d'
  unfolding History.history
  one_call d d' c q e = record {
    calls = c ∷ [];
    kept = (q, tt);
    same_table = ap (λ l. record { jobs = l }) e;
  }

  if_owner-Projects :
      (d : Jobs M P) (ctx : Ctx) (id : JobId) (f : Entry Chan R Req → Entry Chan R Req)
      → ((e : Entry Chan R Req) → (f e).tasks.tracker ≡ e.tasks.tracker)
      → Projects d (if_owner (get_tracker (memory_of d) ctx id) (update id.value f) d)
  if_owner-Projects d ctx id f keeps = elim (Result-cases (get_tracker (memory_of d) ctx id)) [
    | inr (e, bad) ↦ rw bad (no_calls d d refl)
    | inl (r, good) ↦
        rw good (no_calls d (update id.value f d) (trackers-kept id.value f d (λ e found. keeps e)))
  ]

  spawn-Projects :
      (d : Jobs M P) (ctx : Ctx) (id : JobId) (now : DateTime)
      (child : Outcome (Result TokioChild Spawn.Error))
      → Q (spawns ctx id child now)
      → Projects d (on_spawn M P ctx id now child d)
  unfolding History.after start
  spawn-Projects d ctx id now panicked q = no_calls d d refl
  spawn-Projects d ctx id now (returned (err e)) q = no_calls d d refl
  spawn-Projects d ctx id now (returned (ok child)) q =
      one_call d _ (spawns ctx id (returned (ok child)) now) q (
        trackers-insert id.value _ d
        ∙ ap (λ m. m.jobs) (sym (spawn-jobs (memory_of d) ctx id child now)))

  task-Projects :
      (d : Jobs M P) (k : String) (t : Task Act) → Projects d (update k (on_task M P t) d)
  unfolding History.after Turned
  task-Projects d k t = elim (Option-cases (lookup k d)) [
    | inl missing ↦
        no_calls d _ (trackers-kept k (on_task M P t) d (λ e found. absurd (ground arith)))
    | inr (a, there) ↦ elim (on_task-Turned M P t a) [
      | inl same ↦ no_calls d _ (
          trackers-kept k (on_task M P t) d (λ e found.
            let eq : a ≡ e = cc in
            subst (λ e. (on_task M P t e).tasks.tracker ≡ e.tasks.tracker) eq same))
      | inr (ev, turned) ↦ one_call d _ (tracker_turn k ev) (turns k ev) (
          trackers-stepped k (on_task M P t) ev d (λ e found.
            let eq : a ≡ e = cc in
            subst (λ e. (on_task M P t e).tasks.tracker ≡ Tracker.step e.tasks.tracker ev) eq
              turned))
    ]
  ]

  after-Projects : (d : Jobs M P) (c : Call Req Act) → Keeps c → Projects d (after M P d c)
  unfolding after
  after-Projects d (spawn ctx id child now) q = spawn-Projects d ctx id now child q
  after-Projects d (logs ctx id r) q = if_owner-Projects d ctx id _ (λ e. refl)
  after-Projects d (kill ctx id tx) q = if_owner-Projects d ctx id _ (λ e. refl)
  after-Projects d (task k t) q = task-Projects d k t

  -- With the channels, the broadcasters, the relays and the waiting requests forgotten, what users call
  -- and the tasks of the jobs do, in any order, is a history of spawns and rounds of the trackers.
  pub history-Projects :
      (d : Jobs M P) (cs : List (Call Req Act)) → All Keeps cs → Projects d (history M P d cs)
  unfolding history History.history
  history-Projects d [] q = no_calls d d refl
  history-Projects d (c ∷ cs) (q, qs) =
      let v = after-Projects d c q in
      let w = history-Projects (after M P d c) cs qs in
      record {
        calls = v.calls ++ w.calls;
        kept = All-append Q v.calls w.calls v.kept w.kept;
        same_table =
            w.same_table
            ∙ ap (λ m. History.history m w.calls) v.same_table
            ∙ sym (history-append (memory_of d) v.calls w.calls);
      }
