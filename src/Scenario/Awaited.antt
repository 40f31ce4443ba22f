-- ===== src/Scenario/Awaited.antt =====
-- What the wait for the end of a job comes to.
use rust_job_runner.Common.{
  ◌≡◌, refl, sym, ap, ◌∙◌, ◌⊎◌, inl, inr, true, false, Result, ok, List, [], ◌∷◌, ◌++◌, is_some,
  arith, All, Bool-cases,
}
use rust_job_runner.Types.{Ctx, Job, JobId, JobState, running, exited}
use rust_job_runner.Types.Life.{is_running, is_exited}
use rust_job_runner.Tracker.Lifecycle.{Later, same, Later-trans}
use rust_job_runner.Coord.{Error, Memory, empty, ps}
use rust_job_runner.Coord.History.{Call, after, history, history-IsShown}
use rust_job_runner.Coord.Later.{Spares, ps-Later}
use rust_job_runner.Scenario.{going, returns, wait_on_job}

-- What `ps` gives, time after time, where each list is what happens in between.
abbrev pub polls : Memory → Ctx → JobId → List (List Call) → List (Result Job Error)
polls m ctx id [] = []
polls m ctx id (cs ∷ css) = ps (history m cs) ctx id ∷ polls (history m cs) ctx id css

not_running-exited : (s : JobState) → is_running s ≡ false → is_exited s ≡ true
not_running-exited (running pid) e = absurd (ground arith)
not_running-exited (exited status) e = refl

history-append : (m : Memory) (xs ys : List Call) → history m (xs ++ ys) ≡ history (history m xs) ys
unfolding history
history-append m [] ys = refl
history-append m (x ∷ xs) ys = history-append (after m x) xs ys

-- The job has ended, and is the one that was spawned.
pub record HasEnded (first last : Job) : Type 0 where
  pub has_exited : is_exited last.state ≡ true
  pub has_end : is_some last.ended_at ≡ true
  pub later : Later first last

abbrev pub IsRunning : Result Job Error → Type 0
IsRunning r = (job : Job) × (r ≡ ok job) × (is_running job.state ≡ true)

-- The wait goes on only while each poll has shown the job running.
abbrev pub HasWaited : Job → List (Result Job Error) → Type 0
HasWaited first rs =
    ((wait_on_job rs ≡ going) × All IsRunning rs)
    ⊎ ((last : Job) × (wait_on_job rs ≡ returns last) × HasEnded first last)

HasWaited-cons :
    (first k : Job) (rs : List (Result Job Error))
    → is_running k.state ≡ true
    → HasWaited first rs
    → HasWaited first (ok k ∷ rs)
unfolding wait_on_job
HasWaited-cons first k rs on (inl (goes, all)) = inl (rw on goes, ((k, refl, on), all))
HasWaited-cons first k rs on (inr (last, done, v)) = inr (last, rw on done, v)

ended-HasEnded :
    (before : List Call) (ctx : Ctx) (id : JobId) (first last : Job)
    → ps (history empty before) ctx id ≡ ok last
    → is_running last.state ≡ false
    → Later first last
    → HasEnded first last
ended-HasEnded before ctx id first last e off p =
    let exit = not_running-exited last.state off in
    record {
      has_exited = exit;
      has_end = sym (history-IsShown before ctx id last e).consistent ∙ exit;
      later = p;
    }

polls-HasWaited :
    (before : List Call) (css : List (List Call)) (ctx : Ctx) (id : JobId) (first job : Job)
    → ps (history empty before) ctx id ≡ ok job
    → Later first job
    → All (All (Spares id)) css
    → HasWaited first (polls (history empty before) ctx id css)
unfolding wait_on_job
polls-HasWaited before [] ctx id first job e p v = inl (refl, tt)
polls-HasWaited before (cs ∷ css) ctx id first job e p (w, v) =
    let (k, shown, q, _) = ps-Later before cs ctx id job e w in
    let at = ap (λ m. ps m ctx id) (history-append empty before cs) ∙ shown in
    elim (Bool-cases (is_running k.state)) [
      | inl on ↦ rw shown (
          HasWaited-cons first k _ on (
            rw (← history-append empty before cs)
              (polls-HasWaited (before ++ cs) css ctx id first k at (Later-trans p q) v)))
      | inr off ↦
          rw (shown, off)
            (inr (k, refl, ended-HasEnded (before ++ cs) ctx id first k at off (Later-trans p q)))
    ]

-- Whatever happens between the polls, as long as no spawn uses the id again: `wait_on_job` never
-- panics on a job that `ps` has shown to its owner. It goes on only while each poll has shown the job
-- running, and else it has returned the job with its end time set, exited, and further in the life
-- that began with what was shown.
pub wait-HasWaited :
    (before : List Call) (css : List (List Call)) (ctx : Ctx) (id : JobId) (job : Job)
    → ps (history empty before) ctx id ≡ ok job
    → All (All (Spares id)) css
    → HasWaited job (polls (history empty before) ctx id css)
wait-HasWaited before css ctx id job e v = polls-HasWaited before css ctx id job job e same v
