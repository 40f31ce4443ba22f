-- ===== src/Fleet/Alone.antt =====
-- The jobs of one user, with and without the calls of all others.
use rust_job_runner.Common.{
  String, ◌≡◌, refl, sym, ap, ◌∙◌, Bool, false, not, Option, none, some, Result, ok, err, List, [],
  ◌∷◌, lookup, str_eq, if◌then◌else◌, arith, eq_iff, inl, inr, Bool-cases,
}
use rust_job_runner.Types.{Ctx, Job, User, DateTime}
use rust_job_runner.Frames.{FrameEvent, IoError}
use rust_job_runner.Channel.{Mpsc}
use rust_job_runner.Spawn.{returned, panicked}
use rust_job_runner.Tracker.Invariant.{IsTracking, step-IsTracking}
use rust_job_runner.Tracker.{Tracker, KillRequest}
use rust_job_runner.Broadcast.Port.{RelayPort}
use rust_job_runner.Runtime.{Runtime, Step, start, step, to_event}
use rust_job_runner.Runtime
use rust_job_runner.Runtime.Turns.{TurnsBy, step-TurnsBy}
use rust_job_runner.Fleet.{
  Entry, Task, output, exit, end, receive, take_kill, take_ask, held, free, Call, spawn, logs, kill,
  task, Jobs, on_take_kill, on_take_ask, on_task, after,
}
use rust_job_runner.Fleet.Changes.{changed, owner, asked, entry_after}
use rust_job_runner.Fleet.Jobs.{IsJob}
use rust_job_runner.Fleet.Isolation.{AllJobs, lookup-IsJob}

module _ {C R Req : Type 0} where
  -- An entry under a key, if the user owns the job.
  abbrev pub mine : Ctx → Option (Entry C R Req) → Option (Entry C R Req)
  mine ctx none = none
  mine ctx (some e) = if str_eq (owner e) ctx.user.id then some e else none

  -- A change that leaves the owner.
  mine-changed :
      (ctx : Ctx) (f : Entry C R Req → Entry C R Req) (o : Option (Entry C R Req))
      → ((e : Entry C R Req) → o ≡ some e → owner (f e) ≡ owner e)
      → mine ctx (changed f o) ≡ changed f (mine ctx o)
  mine-changed ctx f none keeps = refl
  mine-changed ctx f (some e) keeps = elim (Bool-cases (str_eq (owner e) ctx.user.id)) [
    | inl own ↦ rw (ap (λ u. str_eq u ctx.user.id) (keeps e refl), own) refl
    | inr other ↦ rw (ap (λ u. str_eq u ctx.user.id) (keeps e refl), other) refl
  ]

  -- A request of the user, and one of another user.
  mine-asked :
      (ctx c : Ctx) (f : Entry C R Req → Entry C R Req) (o : Option (Entry C R Req))
      → c.user.id ≡ ctx.user.id
      → ((e : Entry C R Req) → owner (f e) ≡ owner e)
      → mine ctx (asked c f o) ≡ changed f (mine ctx o)
  mine-asked ctx c f none same keeps = refl
  mine-asked ctx c f (some e) same keeps = elim (Bool-cases (str_eq (owner e) ctx.user.id)) [
    | inl own ↦ rw (same, own, ap (λ u. str_eq u ctx.user.id) (keeps e), own) refl
    | inr other ↦ rw (same, other, other) refl
  ]

  pub mine-asked_by :
      (ctx c : Ctx) (f : Entry C R Req → Entry C R Req) (o : Option (Entry C R Req))
      → str_eq c.user.id ctx.user.id ≡ false
      → ((e : Entry C R Req) → owner (f e) ≡ owner e)
      → mine ctx (asked c f o) ≡ mine ctx o
  mine-asked_by ctx c f none other keeps = refl
  mine-asked_by ctx c f (some e) other keeps = elim (Bool-cases (str_eq (owner e) c.user.id)) [
    | inl theirs ↦
        let e_is : owner e ≡ c.user.id = (eq_iff (owner e) c.user.id).0 theirs in
        let not_mine : str_eq (owner e) ctx.user.id ≡ false =
          ap (λ u. str_eq u ctx.user.id) e_is ∙ other in
        rw (theirs, ap (λ u. str_eq u ctx.user.id) (keeps e), not_mine) refl
    | inr foreign ↦ rw foreign refl
  ]

module _ {R Req : Type 0} (M : Mpsc FrameEvent) (P : RelayPort R Req) where
  open M use {Chan}
  open P use {Act}

  -- The tasks of a job keep its owner.
  turned-owner :
      (s : Step Req Act) {job : Job} (t u : Tracker)
      → IsTracking job t
      → TurnsBy M P s t u
      → u.job.user.id ≡ t.job.user.id
  unfolding TurnsBy
  turned-owner (Runtime.wake w) t u v (inl e) = ap (λ t. t.job.user.id) e
  turned-owner (Runtime.wake w) {job} t u v (inr (b, e)) =
      ap (λ t. t.job.user.id) e
      ∙ ap (λ u. u.id) ((step-IsTracking job t (to_event b w) v).same_user ∙ sym v.same_user)
  turned-owner Runtime.receive t u v e = ap (λ t. t.job.user.id) e
  turned-owner (Runtime.request q) t u v e = ap (λ t. t.job.user.id) e
  turned-owner (Runtime.held i a) t u v e = ap (λ t. t.job.user.id) e
  turned-owner (Runtime.free i a) t u v e = ap (λ t. t.job.user.id) e

  step-owner :
      (k : String) (e : Entry Chan R Req) (s : Step Req Act)
      → IsJob M P k e
      → (step M P e.tasks s).tracker.job.user.id ≡ owner e
  step-owner k e s v = turned-owner s e.tasks.tracker _ v.tracking (step-TurnsBy M P e.tasks s)

  on_take_kill-owner :
      (k : String) (killed : Result (Unit {0}) IoError) (now : DateTime) (e : Entry Chan R Req)
      (kills : List KillRequest)
      → IsJob M P k e
      → owner (on_take_kill M P killed now e kills) ≡ owner e
  on_take_kill-owner k killed now e [] v = refl
  on_take_kill-owner k killed now e (req ∷ later) v = step-owner k e _ v

  on_take_ask-owner :
      (k : String) (e : Entry Chan R Req) (asks : List (User × Req))
      → IsJob M P k e
      → owner (on_take_ask M P e asks) ≡ owner e
  on_take_ask-owner k e [] v = refl
  on_take_ask-owner k e ((user, q) ∷ later) v = step-owner k e _ v

  on_task-owner :
      (k : String) (t : Task Act) (e : Entry Chan R Req)
      → IsJob M P k e
      → owner (on_task M P t e) ≡ owner e
  unfolding on_task
  on_task-owner k (output kind o) e v = step-owner k e _ v
  on_task-owner k (exit status now) e v = step-owner k e _ v
  on_task-owner k end e v = step-owner k e _ v
  on_task-owner k receive e v = step-owner k e _ v
  on_task-owner k (take_kill killed now) e v = on_take_kill-owner k killed now e e.kills v
  on_task-owner k take_ask e v = on_take_ask-owner k e e.asks v
  on_task-owner k (held i a) e v = step-owner k e _ v
  on_task-owner k (free i a) e v = step-owner k e _ v

  -- A call of another user; the steps of the tasks are no one's.
  abbrev pub is_others : Ctx → Call Req Act → Bool
  is_others ctx (spawn c id child now) = not (str_eq c.user.id ctx.user.id)
  is_others ctx (logs c id q) = not (str_eq c.user.id ctx.user.id)
  is_others ctx (kill c id tx) = not (str_eq c.user.id ctx.user.id)
  is_others ctx (task k t) = false

  -- The history without the calls of the others.
  unfoldable pub alone : Ctx → List (Call Req Act) → List (Call Req Act)
  alone ctx [] = []
  alone ctx (c ∷ cs) = let rest = alone ctx cs in if is_others ctx c then rest else c ∷ rest

  -- Each spawn comes with an id that is not in use.
  abbrev pub IsNew : Jobs M P → Call Req Act → Type 0
  IsNew d (spawn c id child now) = lookup id.value d ≡ none
  IsNew d _ = Unit {0}

  abbrev pub HasNewIds : Jobs M P → List (Call Req Act) → Type 0
  HasNewIds d [] = Unit {0}
  HasNewIds d (c ∷ cs) = IsNew d c × HasNewIds (after M P d c) cs

  abbrev pub Agree : Ctx → Jobs M P → Jobs M P → Type 0
  Agree ctx d e = (k : String) → mine ctx (lookup k d) ≡ mine ctx (lookup k e)

  -- A call that both tables take.
  pub own-mine :
      (ctx : Ctx) (c : Call Req Act) (d e : Jobs M P) (k : String)
      → AllJobs M P d
      → AllJobs M P e
      → is_others ctx c ≡ false
      → Agree ctx d e
      → mine ctx (entry_after M P c (lookup k d)) ≡ mine ctx (entry_after M P c (lookup k e))
  own-mine ctx (spawn c id panicked now) d e k v w own h = h k
  own-mine ctx (spawn c id (returned (err x)) now) d e k v w own h = h k
  own-mine ctx (spawn c id (returned (ok child)) now) d e k v w own h = refl
  own-mine ctx (logs c id q) d e k v w own h =
      let same : c.user.id ≡ ctx.user.id = ground (arith, eq_iff c.user.id ctx.user.id) in
      mine-asked ctx c _ (lookup k d) same (λ x. refl)
      ∙ ap (changed _) (h k)
      ∙ sym (mine-asked ctx c _ (lookup k e) same (λ x. refl))
  own-mine ctx (kill c id tx) d e k v w own h =
      let same : c.user.id ≡ ctx.user.id = ground (arith, eq_iff c.user.id ctx.user.id) in
      mine-asked ctx c _ (lookup k d) same (λ x. refl)
      ∙ ap (changed _) (h k)
      ∙ sym (mine-asked ctx c _ (lookup k e) same (λ x. refl))
  own-mine ctx (task j t) d e k v w own h =
      mine-changed ctx (on_task M P t) (lookup k d)
        (λ x found. on_task-owner k t x (lookup-IsJob M P d k v found))
      ∙ ap (changed (on_task M P t)) (h k)
      ∙ sym (
          mine-changed ctx (on_task M P t) (lookup k e)
            (λ x found. on_task-owner k t x (lookup-IsJob M P e k w found)))
