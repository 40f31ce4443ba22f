-- ===== src/Fleet/Undisturbed.antt =====
-- What one user's calls do to the jobs of another, to their tasks and to their log streams: nothing.
use rust_job_runner.Common.{
  String, ◌≡◌, refl, subst, ◌∙◌, true, false, ok, err, List, [], ◌∷◌, lookup, str_eq, arith, eq_iff,
  inl, inr, Bool-cases,
}
use rust_job_runner.Types.{Ctx}
use rust_job_runner.Types.Life.{started}
use rust_job_runner.Frames.{FrameEvent}
use rust_job_runner.Channel.{Mpsc}
use rust_job_runner.Spawn.{returned, panicked}
use rust_job_runner.Tracker.{track}
use rust_job_runner.Broadcast.Port.{RelayPort}
use rust_job_runner.Runtime.{start}
use rust_job_runner.Fleet.{Call, spawn, logs, kill, task, Jobs, after, history}
use rust_job_runner.Fleet.Changes.{key_of, entry_after, lookup-after}
use rust_job_runner.Fleet.Isolation.{AllJobs, start-AllJobs, after-AllJobs}
use rust_job_runner.Fleet.Alone.{
  mine, mine-asked_by, own-mine, is_others, alone, IsNew, HasNewIds, Agree,
}

module _ {R Req : Type 0} (M : Mpsc FrameEvent) (P : RelayPort R Req) where
  open M use {Chan}
  open P use {Act}

  -- A call of another user to the entry under its key.
  other-mine :
      (ctx : Ctx) (c : Call Req Act) (d : Jobs M P)
      → is_others M P ctx c ≡ true
      → IsNew M P d c
      → mine ctx (entry_after M P c (lookup (key_of M P c) d)) ≡ mine ctx (lookup (key_of M P c) d)
  unfolding start track started
  other-mine ctx (spawn c id panicked now) d other new = refl
  other-mine ctx (spawn c id (returned (err x)) now) d other new = refl
  other-mine ctx (spawn c id (returned (ok child)) now) d other new =
      let foreign : str_eq c.user.id ctx.user.id ≡ false = ground arith in rw (new, foreign) refl
  other-mine ctx (logs c id q) d other new =
      let foreign : str_eq c.user.id ctx.user.id ≡ false = ground arith in
      mine-asked_by ctx c _ (lookup id.value d) foreign (λ e. refl)
  other-mine ctx (kill c id tx) d other new =
      let foreign : str_eq c.user.id ctx.user.id ≡ false = ground arith in
      mine-asked_by ctx c _ (lookup id.value d) foreign (λ e. refl)
  other-mine ctx (task k t) d other new = absurd (ground arith)

  own-Agree :
      (ctx : Ctx) (c : Call Req Act) (d e : Jobs M P)
      → AllJobs M P d
      → AllJobs M P e
      → is_others M P ctx c ≡ false
      → Agree M P ctx d e
      → Agree M P ctx (after M P d c) (after M P e c)
  own-Agree ctx c d e v w own h k = elim (Bool-cases (str_eq (key_of M P c) k)) [
    | inl hit ↦
        rw (lookup-after M P d c k, lookup-after M P e c k, hit)
          (own-mine M P ctx c d e k v w own h)
    | inr miss ↦ rw (lookup-after M P d c k, lookup-after M P e c k, miss) (h k)
  ]

  other-Agree :
      (ctx : Ctx) (c : Call Req Act) (d e : Jobs M P)
      → is_others M P ctx c ≡ true
      → IsNew M P d c
      → Agree M P ctx d e
      → Agree M P ctx (after M P d c) e
  other-Agree ctx c d e other new h k = elim (Bool-cases (str_eq (key_of M P c) k)) [
    | inl hit ↦
        let at : key_of M P c ≡ k = (eq_iff (key_of M P c) k).0 hit in
        rw (lookup-after M P d c k, hit)
          (subst (λ j. mine ctx (entry_after M P c (lookup j d)) ≡ mine ctx (lookup j d)) at
              (other-mine ctx c d other new)
            ∙ h k)
    | inr miss ↦ rw (lookup-after M P d c k, miss) (h k)
  ]

  history-Agree :
      (ctx : Ctx) (cs : List (Call Req Act)) (d e : Jobs M P)
      → AllJobs M P d
      → AllJobs M P e
      → HasNewIds M P d cs
      → Agree M P ctx d e
      → Agree M P ctx (history M P d cs) (history M P e (alone M P ctx cs))
  unfolding history alone
  history-Agree ctx [] d e v w new h = h
  history-Agree ctx (c ∷ cs) d e v w (new, later) h = elim (Bool-cases (is_others M P ctx c)) [
    | inl other ↦ rw other (
        history-Agree ctx cs (after M P d c) e (after-AllJobs M P d c v) w later
          (other-Agree ctx c d e other new h))
    | inr own ↦ rw own (
        history-Agree ctx cs (after M P d c) (after M P e c) (after-AllJobs M P d c v)
          (after-AllJobs M P e c w) later (own-Agree ctx c d e v w own h))
  ]

  -- After any history of calls by any users and of steps of all tasks, in any order, where each spawn
  -- comes with an id that is not in use: under every key a user has the very job, or none, that would be
  -- there if no other user had ever called: with the same state of its tracker, its broadcaster and its
  -- relays, the same frames and requests in its channels, and the same readers of its logs.
  pub history-alone :
      (ctx : Ctx) (cs : List (Call Req Act)) (k : String)
      → HasNewIds M P [] cs
      → mine ctx (lookup k (history M P [] cs))
        ≡ mine ctx (lookup k (history M P [] (alone M P ctx cs)))
  history-alone ctx cs k new =
      history-Agree ctx cs [] [] (start-AllJobs M P) (start-AllJobs M P) new (λ j. refl) k
