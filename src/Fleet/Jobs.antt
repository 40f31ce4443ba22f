-- ===== src/Fleet/Jobs.antt =====
-- What holds of one job while its tasks run and requests come.
use rust_job_runner.Common.{
  String, ◌≡◌, ap, sym, subst, ◌∙◌, inl, inr, Bool, some, Result, List, [], ◌∷◌, ◌++◌, All,
}
use rust_job_runner.Types.{User, Job, JobId, Pid, DateTime}
use rust_job_runner.Types.Life.{started}
use rust_job_runner.Frames.{FrameEvent, IoError, stdout, stderr}
use rust_job_runner.Channel.{Mpsc}
use rust_job_runner.Tracker.{KillRequest, Tracker}
use rust_job_runner.Tracker.Invariant.{IsTracking, step-IsTracking}
use rust_job_runner.Broadcast.Port.{RelayPort}
use rust_job_runner.Runtime.{Runtime, Step, start, step, run, to_event}
use rust_job_runner.Runtime
use rust_job_runner.Runtime.Turns.{TurnsBy, step-TurnsBy}
use rust_job_runner.Runtime.Drained.{run-append}
use rust_job_runner.Fleet.{
  Entry, Task, output, exit, end, receive, take_kill, take_ask, held, free, on_tasks, on_take_kill,
  on_take_ask, on_task,
}
use rust_job_runner.Fleet.Owners.{IsOwn, KilledBy, step-KilledBy}

-- A step with no kill request but of `user`.
abbrev pub IsOwnStep : {Req Act : Type 0} → User → Step Req Act → Type 0
IsOwnStep user (Runtime.wake w) = (accepted : Bool) → IsOwn user (to_event accepted w)
IsOwnStep user _ = Unit

module _ {R Req : Type 0} (M : Mpsc FrameEvent) (P : RelayPort R Req) where
  open M use {Chan}
  open P use {Act}

  -- The entry of a job that `user` has started under the key `k`.
  pub record IsJob (k : String) (e : Entry Chan R Req) : Type 0 where
    pub id : JobId
    pub user : User
    pub pid : Pid
    pub now : DateTime
    pub trace : List (Step Req Act)
    pub right_key : id.value ≡ k
    pub tracking : IsTracking (started id user pid now) e.tasks.tracker
    -- its tasks have run by themselves, from the start of the job
    pub ran : e.tasks ≡ run M P (start M P (started id user pid now)) trace
    -- only the owner has killed it or asked for its logs, and no one else's request waits
    pub killed_by : KilledBy user e.tasks.tracker
    pub kills_own : All (λ r. r.user.id ≡ user.id) e.kills
    pub asks_own : All (λ a. a.0.id ≡ user.id) e.asks
    pub readers_own : All (λ u. u.id ≡ user.id) e.readers

  turned-to :
      (job : Job) (user : User) {t u : Tracker}
      → t ≡ u
      → IsTracking job t × KilledBy user t
      → IsTracking job u × KilledBy user u
  turned-to job user e v = subst (λ t. IsTracking job t × KilledBy user t) e v

  turned :
      (user : User) (job : Job) (s : Step Req Act) {t u : Tracker}
      → IsOwnStep user s
      → TurnsBy M P s t u
      → IsTracking job t × KilledBy user t
      → IsTracking job u × KilledBy user u
  unfolding TurnsBy
  turned user job (Runtime.wake w) own (inl e) v = turned-to job user (sym e) v
  turned user job (Runtime.wake w) {t} own (inr (b, e)) (v, k) =
      turned-to job user (sym e)
        (step-IsTracking job t (to_event b w) v, step-KilledBy user (to_event b w) t (own b) k)
  turned user job Runtime.receive own e v = turned-to job user (sym e) v
  turned user job (Runtime.request q) own e v = turned-to job user (sym e) v
  turned user job (Runtime.held i a) own e v = turned-to job user (sym e) v
  turned user job (Runtime.free i a) own e v = turned-to job user (sym e) v

  -- A step of the tasks, with a change of what waits.
  stepped-IsJob :
      (k : String) (e : Entry Chan R Req) (s : Step Req Act) (kills : List KillRequest)
      (asks : List (User × Req)) (readers : List User) (v : IsJob k e)
      → IsOwnStep v.user s
      → All (λ r. r.user.id ≡ v.user.id) kills
      → All (λ a. a.0.id ≡ v.user.id) asks
      → All (λ u. u.id ≡ v.user.id) readers
      → IsJob k
          (record { tasks = step M P e.tasks s; kills = kills; asks = asks; readers = readers })
  unfolding run
  stepped-IsJob k e s kills asks readers v own x y z =
      let job = started v.id v.user v.pid v.now in
      let (tracking, killed) =
        turned v.user job s own (step-TurnsBy M P e.tasks s) (v.tracking, v.killed_by) in
      record {
        id = v.id;
        user = v.user;
        pid = v.pid;
        now = v.now;
        trace = v.trace ++ s ∷ [];
        right_key = v.right_key;
        tracking = tracking;
        ran = ap (λ t. step M P t s) v.ran ∙ sym (run-append M P (start M P job) v.trace (s ∷ []));
        killed_by = killed;
        kills_own = x;
        asks_own = y;
        readers_own = z;
      }

  on_tasks-IsJob :
      (k : String) (e : Entry Chan R Req) (s : Step Req Act) (v : IsJob k e)
      → IsOwnStep v.user s
      → IsJob k (on_tasks M P s e)
  on_tasks-IsJob k e s v own =
      stepped-IsJob k e s e.kills e.asks e.readers v own v.kills_own v.asks_own v.readers_own

  on_take_kill-IsJob :
      (k : String) (killed : Result (Unit {0}) IoError) (now : DateTime) (e : Entry Chan R Req)
      (kills : List KillRequest) (v : IsJob k e)
      → All (λ r. r.user.id ≡ v.user.id) kills
      → IsJob k (on_take_kill M P killed now e kills)
  on_take_kill-IsJob k killed now e [] v h = v
  on_take_kill-IsJob k killed now e (req ∷ later) v (h, w) =
      stepped-IsJob k e (Runtime.wake (Runtime.kill_request (some req) killed now)) later e.asks
        e.readers v (λ b. h) w v.asks_own v.readers_own

  on_take_ask-IsJob :
      (k : String) (e : Entry Chan R Req) (asks : List (User × Req)) (v : IsJob k e)
      → All (λ a. a.0.id ≡ v.user.id) asks
      → IsJob k (on_take_ask M P e asks)
  on_take_ask-IsJob k e [] v h = v
  on_take_ask-IsJob k e ((user, q) ∷ later) v (h, w) =
      stepped-IsJob k e (Runtime.request q) e.kills later (user ∷ e.readers) v tt v.kills_own w
        (h, v.readers_own)

  pub on_task-IsJob :
      (k : String) (t : Task Act) (e : Entry Chan R Req) → IsJob k e → IsJob k (on_task M P t e)
  unfolding on_task
  on_task-IsJob k (output stdout o) e v = on_tasks-IsJob k e _ v (λ b. tt)
  on_task-IsJob k (output stderr o) e v = on_tasks-IsJob k e _ v (λ b. tt)
  on_task-IsJob k (exit status now) e v = on_tasks-IsJob k e _ v (λ b. tt)
  on_task-IsJob k end e v = on_tasks-IsJob k e _ v (λ b. tt)
  on_task-IsJob k receive e v = on_tasks-IsJob k e _ v tt
  on_task-IsJob k (take_kill killed now) e v =
      on_take_kill-IsJob k killed now e e.kills v v.kills_own
  on_task-IsJob k take_ask e v = on_take_ask-IsJob k e e.asks v v.asks_own
  on_task-IsJob k (held i a) e v = on_tasks-IsJob k e _ v tt
  on_task-IsJob k (free i a) e v = on_tasks-IsJob k e _ v tt

  -- Requests that wait for the tasks.
  pub waiting-IsJob :
      (k : String) (e : Entry Chan R Req) (kills : List KillRequest) (asks : List (User × Req))
      (v : IsJob k e)
      → All (λ r. r.user.id ≡ v.user.id) kills
      → All (λ a. a.0.id ≡ v.user.id) asks
      → IsJob k (record e { kills = kills; asks = asks })
  waiting-IsJob k e kills asks v x y = record {
    id = v.id;
    user = v.user;
    pid = v.pid;
    now = v.now;
    trace = v.trace;
    right_key = v.right_key;
    tracking = v.tracking;
    ran = v.ran;
    killed_by = v.killed_by;
    kills_own = x;
    asks_own = y;
    readers_own = v.readers_own;
  }
