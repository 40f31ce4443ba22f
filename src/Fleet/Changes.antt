-- ===== src/Fleet/Changes.antt =====
-- What a call of a user, or a step of a task, makes of the entry under each key.
use rust_job_runner.Common.{
  String, ◌≡◌, refl, subst, ◌∙◌, Option, none, some, ok, err, [], ◌∷◌, ◌++◌, lookup, lookup-insert,
  Dict, str_eq, if◌then◌else◌, arith, eq_iff, inl, inr, Bool-cases, Option-cases,
}
use rust_job_runner.Types.{Ctx, JobId}
use rust_job_runner.Types.Life.{started}
use rust_job_runner.Frames.{FrameEvent}
use rust_job_runner.Channel.{Mpsc}
use rust_job_runner.Spawn.{returned, panicked}
use rust_job_runner.Tracker.{Tracker}
use rust_job_runner.Tracker.Requests.{kill_request}
use rust_job_runner.Coord.{get_tracker}
use rust_job_runner.Broadcast.Port.{RelayPort}
use rust_job_runner.Runtime.{start}
use rust_job_runner.Fleet.{
  Entry, trackers, memory_of, Call, spawn, logs, kill, task, Jobs, update, if_owner, on_task, after,
}

abbrev pub changed : {A : Type 0} → (A → A) → Option A → Option A
changed f none = none
changed f (some a) = some (f a)

lookup-update_at :
    {A : Type 0} (k j : String) (f : A → A) (d : Dict A)
    → lookup j (update k f d) ≡ (if str_eq k j then changed f (lookup j d) else lookup j d)
unfolding update lookup
lookup-update_at k j f [] = ground arith
lookup-update_at k j f ((i, a) ∷ d) =
    ground (arith, eq_iff k j, eq_iff i k, eq_iff i j, lookup-update_at k j f d)

module _ {C R Req : Type 0} where
  abbrev pub owner : Entry C R Req → String
  owner e = e.tasks.tracker.job.user.id

  abbrev tracker_of : Option (Entry C R Req) → Option Tracker
  tracker_of none = none
  tracker_of (some e) = some e.tasks.tracker

  lookup-trackers_at :
      (k : String) (d : Dict (Entry C R Req)) → lookup k (trackers d) ≡ tracker_of (lookup k d)
  unfolding lookup
  lookup-trackers_at k [] = refl
  lookup-trackers_at k ((j, e) ∷ d) = elim (Bool-cases (str_eq j k)) [
    | inl same ↦ rw same refl
    | inr other ↦ rw other (lookup-trackers_at k d)
  ]

  -- A request of a user to a job.
  abbrev pub asked :
      Ctx → (Entry C R Req → Entry C R Req) → Option (Entry C R Req) → Option (Entry C R Req)
  asked c f none = none
  asked c f (some e) = if str_eq (owner e) c.user.id then some (f e) else some e

  -- Two functions that agree on the entry under the key.
  at_key :
      (k j : String) (g h : Option (Entry C R Req) → Option (Entry C R Req))
      (d : Dict (Entry C R Req))
      → g (lookup k d) ≡ h (lookup k d)
      → (if str_eq k j then g (lookup j d) else lookup j d)
        ≡ (if str_eq k j then h (lookup j d) else lookup j d)
  at_key k j g h d e = elim (Bool-cases (str_eq k j)) [
    | inl hit ↦ rw hit (subst (λ i. g (lookup i d) ≡ h (lookup i d)) ((eq_iff k j).0 hit) e)
    | inr miss ↦ rw miss refl
  ]

  unchanged :
      (k j : String) (d : Dict (Entry C R Req))
      → lookup j d ≡ (if str_eq k j then lookup j d else lookup j d)
  unchanged k j d = ground arith

  lookup-asked :
      (c : Ctx) (id : JobId) (f : Entry C R Req → Entry C R Req) (d : Dict (Entry C R Req))
      (j : String)
      → lookup j (if_owner (get_tracker (memory_of d) c id) (update id.value f) d)
        ≡ (if str_eq id.value j then asked c f (lookup j d) else lookup j d)
  unfolding get_tracker
  lookup-asked c id f d j = elim (Option-cases (lookup id.value d)) [
    | inl missing ↦
        rw (lookup-trackers_at id.value d, missing)
          (unchanged id.value j d ∙ at_key id.value j (λ o. o) (asked c f) d (rw missing refl))
    | inr (e, found) ↦ elim (Bool-cases (str_eq (owner e) c.user.id)) [
      | inl own ↦
          rw (lookup-trackers_at id.value d, found, own)
            (lookup-update_at id.value j f d
              ∙ at_key id.value j (changed f) (asked c f) d (rw (found, own) refl))
      | inr other ↦
          rw (lookup-trackers_at id.value d, found, other)
            (unchanged id.value j d
              ∙ at_key id.value j (λ o. o) (asked c f) d (rw (found, other) refl))
    ]
  ]

module _ {R Req : Type 0} (M : Mpsc FrameEvent) (P : RelayPort R Req) where
  open M use {Chan}
  open P use {Act}

  abbrev pub key_of : Call Req Act → String
  key_of (spawn ctx id child now) = id.value
  key_of (logs ctx id q) = id.value
  key_of (kill ctx id tx) = id.value
  key_of (task k t) = k

  abbrev pub entry_after : Call Req Act → Option (Entry Chan R Req) → Option (Entry Chan R Req)
  entry_after (spawn ctx id (returned (ok child)) now) o = some (record {
    tasks = start M P (started id ctx.user (record { pid = child.pid }) now);
    kills = [];
    asks = [];
    readers = [];
  })
  entry_after (spawn ctx id _ now) o = o
  entry_after (logs ctx id q) o =
      asked ctx (λ e. record e { asks = e.asks ++ (ctx.user, q) ∷ [] }) o
  entry_after (kill ctx id tx) o =
      asked ctx (λ e. record e { kills = e.kills ++ kill_request ctx tx ∷ [] }) o
  entry_after (task k t) o = changed (on_task M P t) o

  pub lookup-after :
      (d : Jobs M P) (c : Call Req Act) (j : String)
      → lookup j (after M P d c)
        ≡ (if str_eq (key_of c) j then entry_after c (lookup j d) else lookup j d)
  unfolding after
  lookup-after d (spawn ctx id panicked now) j = ground arith
  lookup-after d (spawn ctx id (returned (err e)) now) j = ground arith
  lookup-after d (spawn ctx id (returned (ok child)) now) j = lookup-insert id.value j _ d
  lookup-after d (logs ctx id q) j = lookup-asked ctx id _ d j
  lookup-after d (kill ctx id tx) j = lookup-asked ctx id _ d j
  lookup-after d (task k t) j = lookup-update_at k j (on_task M P t) d
