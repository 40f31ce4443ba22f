-- ===== src/Fleet/Kills.antt =====
-- What comes of the kill requests that wait for a job.
use rust_job_runner.Common.{
  ℕ, ◌+◌, String, ◌≡◌, refl, ap, sym, ◌∙◌, subst, true, Option, none, some, Result, ok, err, List,
  [], ◌∷◌, length, count, lookup, arith,
}
use rust_job_runner.Types.{ProcessExit, DateTime}
use rust_job_runner.Types.Life.{is_exited}
use rust_job_runner.Frames.{FrameEvent, IoError}
use rust_job_runner.Channel.{Mpsc}
use rust_job_runner.Tracker.{
  Phase, looping, broken, complete, KillRequest, Tracker, kill_rx, child_wait, select, on_kill,
  on_exit,
}
use rust_job_runner.Tracker
use rust_job_runner.Tracker.Replies.{answered, waiting, held, turn-held}
use rust_job_runner.Broadcast.Port.{RelayPort}
use rust_job_runner.Runtime.{Runtime, Wake, kill_request, outgoing}
use rust_job_runner.Runtime
use rust_job_runner.Runtime.Turns.{quiet-step}
use rust_job_runner.Fleet.Entries.{lookup-update}
use rust_job_runner.Fleet.{
  Entry, exit, take_kill, Call, task, update, Jobs, on_task, after, history,
}

-- The loop of the tracker goes on, with the branches of the child and of the kill requests on.
pub record TakesKills (t : Tracker) : Type 0 where
  pub loops : t.phase ≡ looping
  pub waits : t.child_ok ≡ true
  pub listens : t.kill_ok ≡ true

on_kill-TakesKills :
    (t : Tracker) (req : KillRequest) (killed : Result (Unit {0}) IoError) (now : DateTime)
    → TakesKills t
    → TakesKills (Tracker.step t (select (kill_rx (some req) killed now)))
unfolding Tracker.step Tracker.loop_head on_kill
on_kill-TakesKills t req (ok u) now v =
    simp (v.loops, v.listens, v.waits) (record { loops = refl; waits = refl; listens = refl })
on_kill-TakesKills t req (err e) now v =
    simp (v.loops, v.listens, v.waits) (record { loops = refl; waits = refl; listens = refl })

kill-held :
    (i : ℕ) (t : Tracker) (req : KillRequest) (killed : Result (Unit {0}) IoError) (now : DateTime)
    → TakesKills t
    → held i (Tracker.step t (select (kill_rx (some req) killed now)))
      ≡ held i t + count i (req.tx ∷ [])
unfolding Tracker.step
kill-held i t req killed now v =
    turn-held i t.phase (select (kill_rx (some req) killed now)) t ∙ simp (v.loops, v.listens) refl

-- With the exit of the child no request is kept.
exit-answers :
    (t : Tracker) (status : ProcessExit) (now : DateTime)
    → TakesKills t
    → let u = Tracker.step t (select (child_wait (ok status) now)) in
      (u.kill_reqs ≡ []) × (is_exited u.job.state ≡ true) × ((i : ℕ) → held i u ≡ held i t)
unfolding Tracker.step Tracker.loop_head on_exit
exit-answers t status now v =
    let e = select (child_wait (ok status) now) in
    (
      simp (v.loops, v.waits) (ground arith),
      simp (v.loops, v.waits) (ground arith),
      λ i. turn-held i t.phase e t ∙ simp (v.loops, v.waits) (omega arith),
    )

kill-outgoing :
    (p : Phase) (q : Option KillRequest) (killed : Result (Unit {0}) IoError) (now : DateTime)
    (t : Tracker)
    → outgoing p (kill_request q killed now) t ≡ none
kill-outgoing looping q killed now t = refl
kill-outgoing broken q killed now t = refl
kill-outgoing complete q killed now t = refl

exit-outgoing :
    (p : Phase) (status : Result ProcessExit IoError) (now : DateTime) (t : Tracker)
    → outgoing p (Runtime.exit status now) t ≡ none
exit-outgoing looping status now t = refl
exit-outgoing broken status now t = refl
exit-outgoing complete status now t = refl

-- The requests with what `child.kill()` gives for each, and when.
abbrev pub Outcomes : Type 0
Outcomes = List (Result (Unit {0}) IoError × DateTime)

module _ {R Req : Type 0} (M : Mpsc FrameEvent) (P : RelayPort R Req) where
  open M use {Chan}
  open P use {Act}

  -- The steps in which the tracker takes a request for each outcome.
  abbrev pub takes : String → Outcomes → List (Call Req Act)
  takes k [] = []
  takes k ((killed, now) ∷ later) = task k (take_kill killed now) ∷ takes k later

  -- What one such step makes of an entry.
  record HasTaken (e : Entry Chan R Req) (req : KillRequest) (later : List KillRequest)
      (f : Entry Chan R Req) : Type 0 where
    rest : f.kills ≡ later
    takes_more : TakesKills f.tasks.tracker
    one_more : (i : ℕ) → held i f.tasks.tracker ≡ held i e.tasks.tracker + count i (req.tx ∷ [])

  take-HasTaken :
      (e : Entry Chan R Req) (req : KillRequest) (later : List KillRequest)
      (killed : Result (Unit {0}) IoError) (now : DateTime)
      → TakesKills e.tasks.tracker
      → e.kills ≡ req ∷ later
      → HasTaken e req later (on_task M P (take_kill killed now) e)
  unfolding on_task
  take-HasTaken e req later killed now v w =
      let t = e.tasks.tracker in
      let turned =
        quiet-step M P e.tasks (kill_request (some req) killed now)
          (kill-outgoing t.phase (some req) killed now t) in
      rw w record {
        rest = refl;
        takes_more = subst TakesKills (sym turned) (on_kill-TakesKills t req killed now v);
        one_more = λ i. ap (held i) turned ∙ kill-held i t req killed now v;
      }

  -- The entry behind a step for each request.
  record HaveTaken (e : Entry Chan R Req) (reqs : List KillRequest) (f : Entry Chan R Req)
      : Type 0 where
    none_left : f.kills ≡ []
    takes_on : TakesKills f.tasks.tracker
    all_more : (i : ℕ) → held i f.tasks.tracker ≡ held i e.tasks.tracker + count i (waiting reqs)

  takes-HaveTaken :
      (k : String) (d : Jobs M P) (e : Entry Chan R Req) (reqs : List KillRequest) (ks : Outcomes)
      → lookup k d ≡ some e
      → TakesKills e.tasks.tracker
      → e.kills ≡ reqs
      → length ks ≡ length reqs
      → (f : Entry Chan R Req) × (lookup k (history M P d (takes k ks)) ≡ some f)
        × HaveTaken e reqs f
  unfolding history after
  takes-HaveTaken k d e [] [] found v w l =
      (e, found, record { none_left = w; takes_on = v; all_more = λ i. omega arith })
  takes-HaveTaken k d e [] (o ∷ ks) found v w l = absurd (ground arith)
  takes-HaveTaken k d e (req ∷ reqs) [] found v w l = absurd (ground arith)
  takes-HaveTaken k d e (req ∷ reqs) ((killed, now) ∷ ks) found v w l =
      let one = take-HasTaken e req reqs killed now v w in
      let f = on_task M P (take_kill killed now) e in
      let (g, at, later) =
        takes-HaveTaken k (update k (on_task M P (take_kill killed now)) d) f reqs ks
          (lookup-update k (on_task M P (take_kill killed now)) d found) one.takes_more one.rest
          (ground arith) in
      (
        g,
        at,
        record {
          none_left = later.none_left;
          takes_on = later.takes_on;
          all_more = λ i. omega (arith, later.all_more i, one.one_more i);
        },
      )

  -- Every kill request that waits has its answer: no request is in the channel or kept for later, the
  -- job is shown as exited, and each oneshot is answered as often as it was, was kept or has waited.
  pub record AllAnswered (e f : Entry Chan R Req) : Type 0 where
    pub none_waits : f.kills ≡ []
    pub none_kept : f.tasks.tracker.kill_reqs ≡ []
    pub has_exited : is_exited f.tasks.tracker.job.state ≡ true
    pub each_once :
        (i : ℕ)
        → count i (answered f.tasks.tracker.replies)
          ≡ count i (answered e.tasks.tracker.replies)
            + (count i (waiting e.tasks.tracker.kill_reqs) + count i (waiting e.kills))

  exit-AllAnswered :
      (e f : Entry Chan R Req) (status : ProcessExit) (now : DateTime)
      → HaveTaken e e.kills f
      → AllAnswered e (on_task M P (exit (ok status) now) f)
  unfolding on_task
  exit-AllAnswered e f status now v =
      let t = f.tasks.tracker in
      let turned =
        quiet-step M P f.tasks (Runtime.exit (ok status) now)
          (exit-outgoing t.phase (ok status) now t) in
      let (empty, over, same) = exit-answers t status now v.takes_on in
      let none_kept = ap (λ t. t.kill_reqs) turned ∙ empty in
      record {
        none_waits = v.none_left;
        none_kept = none_kept;
        has_exited = ap (λ t. is_exited t.job.state) turned ∙ over;
        each_once = λ i.
            let kept = ap (λ l. count i (waiting l)) none_kept in
            omega (arith, kept, ap (held i) turned, same i, v.all_more i);
      }

  -- In any table, for a job whose tracker's loop goes on with the branches of the child and of the kill
  -- requests on: when the tracker has taken the requests that wait, whatever `child.kill()` gives for
  -- each, and the child has exited, every one of them is answered once, and so is every request that
  -- was kept before; none is left in the channel or with the tracker, and the job has exited.
  pub takes-AllAnswered :
      (d : Jobs M P) (k : String) (e : Entry Chan R Req) (ks : Outcomes) (status : ProcessExit)
      (now : DateTime)
      → lookup k d ≡ some e
      → TakesKills e.tasks.tracker
      → length ks ≡ length e.kills
      → (f : Entry Chan R Req) × (lookup k
            (after M P (history M P d (takes k ks)) (task k (exit (ok status) now)))
          ≡ some f)
        × AllAnswered e f
  unfolding after
  takes-AllAnswered d k e ks status now found v l =
      let (f, at, taken) = takes-HaveTaken k d e e.kills ks found v refl l in
      (
        on_task M P (exit (ok status) now) f,
        lookup-update k (on_task M P (exit (ok status) now)) (history M P d (takes k ks)) at,
        exit-AllAnswered e f status now taken,
      )
