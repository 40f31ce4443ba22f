-- ===== src/Fleet/Watched.antt =====
-- src/proc/coord.rs: what `ps` shows the owner of a job while users call and the tasks of all jobs
-- run.
use rust_job_runner.Common.{◌≡◌, sym, ap, ◌∙◌, ok, List, [], ◌∷◌, ◌++◌, All}
use rust_job_runner.Types.{Ctx, Job, JobId}
use rust_job_runner.Frames.{FrameEvent}
use rust_job_runner.Channel.{Mpsc}
use rust_job_runner.Tracker.Lifecycle.{Later, IsLater}
use rust_job_runner.Coord.{empty, ps}
use rust_job_runner.Coord.History.{IsShown, history-IsShown, history-append}
use rust_job_runner.Coord.History
use rust_job_runner.Coord.Later.{Spares, ps-Later}
use rust_job_runner.Broadcast.Port.{RelayPort}
use rust_job_runner.Fleet.{Call, spawn, logs, kill, task, memory_of, history}
use rust_job_runner.Fleet.Projects.{Keeps, history-Projects}

module _ {R Req : Type 0} (M : Mpsc FrameEvent) (P : RelayPort R Req) where
  open P use {Act}

  abbrev pub SparesId : JobId → Call Req Act → Type 0
  SparesId id = Keeps M P (Spares id) (λ k e. tt)

  all_kept : (cs : List (Call Req Act)) → All (Keeps M P (λ c. Unit {0}) (λ k e. tt)) cs
  all_kept [] = tt
  all_kept (spawn ctx id child now ∷ cs) = (tt, all_kept cs)
  all_kept (logs ctx id q ∷ cs) = (tt, all_kept cs)
  all_kept (kill ctx id tx ∷ cs) = (tt, all_kept cs)
  all_kept (task k t ∷ cs) = (tt, all_kept cs)

  -- Let `ps` show a job to a caller at any moment, while any users spawn, kill and ask for logs, and the
  -- trackers, broadcasters and relays of all jobs take their steps in any order, from the start of the
  -- server on. Then it is the job that was asked for, it belongs to the caller, and it has an end time
  -- exactly when it has exited. And whatever follows, in which the id is not used for a spawn again, `ps`
  -- still shows the job to the caller, further in its life: id, user and start are the same, an exit
  -- with its time is final, and a kill is not taken back.
  pub watched-IsLater :
      (before later : List (Call Req Act)) (ctx : Ctx) (id : JobId) (job : Job)
      → let d = history M P [] before in
        ps (memory_of d) ctx id ≡ ok job
        → All (SparesId id) later
        → IsShown ctx id job
          × ((k : Job) × (ps (memory_of (history M P d later)) ctx id ≡ ok k)
              × IsShown ctx id k
              × Later job k
              × IsLater job k)
  unfolding empty
  watched-IsLater before later ctx id job e spares =
      let d = history M P [] before in
      let v = history-Projects M P (λ c. Unit {0}) (λ k e. tt) [] before (all_kept before) in
      let w = history-Projects M P (Spares id) (λ k e. tt) d later spares in
      let shown = ap (λ m. ps m ctx id) (sym v.same_table) ∙ e in
      let (k, found, p, l) = ps-Later v.calls w.calls ctx id job shown w.kept in
      let whole = w.same_table ∙ ap (λ m. History.history m w.calls) v.same_table in
      (
        history-IsShown v.calls ctx id job shown,
        (
          k,
          ap (λ m. ps m ctx id) whole ∙ found,
          history-IsShown (v.calls ++ w.calls) ctx id k
              (ap (λ m. ps m ctx id) (history-append empty v.calls w.calls) ∙ found),
          p,
          l,
        ),
      )
