-- ===== src/Broadcast/Clients.antt =====
-- The relays of Relay as the broadcaster's relays: what the clients of the logs API read.
use rust_job_runner.Common.{
  ℕ, ◌≡◌, ◌≢◌, sym, ap, ◌∙◌, true, arith, false, some, List, [], ◌∷◌, ◌++◌, append_assoc, All,
  All-append,
}
use rust_job_runner.Frames.{FrameEvent}
use rust_job_runner.Channel.{closed, Mpsc}
use rust_job_runner.Relay.{Relay, FrameRequest, Turn, draining, start, accept, release, turn}
use rust_job_runner.Relay.Order.{
  IsPrefix, IsOrdered, start-IsOrdered, accept-IsOrdered, release-IsOrdered, turn-IsOrdered,
}
use rust_job_runner.Relay.Delivery.{
  turn-IsPrefix, turn-offered, accept-IsPrefix, accept-true, accept-false, release-offered,
  release-taken,
}
use rust_job_runner.Broadcast.Port.{RelayPort}
use rust_job_runner.Broadcast.{new}
use rust_job_runner.Broadcast.Streams.{IsCurrent, IsLeft}
use rust_job_runner.Broadcast.System.{Event, run, run-new-IsSynced}
use rust_job_runner.Broadcast.Buffer.{received, run-frames}

module _ (M : Mpsc FrameEvent) where
  open M use {Chan, senders, recv}

  -- A relay with `n` handles outside its task, whose client has read a first part of what it gets.
  pub record IsPlaying (n : ℕ) (r : Relay Chan) : Type 0 where
    pub ordered : IsOrdered M n r
    pub taken_prefix : IsPrefix r.taken r.offered

  pub start-IsPlaying :
      (fs : List FrameEvent) (q : FrameRequest) {r : Relay Chan}
      → start M fs q ≡ some r
      → IsPlaying 1 r × (r.offered ≡ fs)
  start-IsPlaying fs q {r} e =
      let (v, o, t) = start-IsOrdered M fs q e in
      (record { ordered = v; taken_prefix = (r.offered, rw t) }, o)

  pub accept-IsPlaying :
      (r : Relay Chan) (ev : FrameEvent) → IsPlaying 1 r → IsPlaying 1 (accept M r ev).0
  accept-IsPlaying r ev v = record {
    ordered = accept-IsOrdered M 1 r ev v.ordered;
    taken_prefix = accept-IsPrefix M r ev v.taken_prefix;
  }

  pub release-IsPlaying : (r : Relay Chan) → IsPlaying 1 r → IsPlaying 0 (release M r)
  release-IsPlaying r v = record {
    ordered = release-IsOrdered M 0 r v.ordered;
    taken_prefix = rw (release-offered M r, release-taken M r) v.taken_prefix;
  }

  pub turn-IsPlaying :
      (n : ℕ) (r : Relay Chan) (t : Turn) → IsPlaying n r → IsPlaying n (turn M r t)
  turn-IsPlaying n r t v = record {
    ordered = turn-IsOrdered M n r t v.ordered;
    taken_prefix = turn-IsPrefix M n r t v.ordered v.taken_prefix;
  }

  abbrev pub relay_port : RelayPort (Relay Chan) FrameRequest
  relay_port = record {
    start = start M;
    accept = accept M;
    release = release M;
    Act = Turn;
    act = turn M;
    offered = λ r. r.offered;
    Held = IsPlaying 1;
    Free = IsPlaying 0;
    start_held = start-IsPlaying;
    accept_held = accept-IsPlaying;
    accept_true = accept-true M;
    accept_false = accept-false M;
    release_free = release-IsPlaying;
    release_offered = release-offered M;
    act_held = turn-IsPlaying 1;
    act_free = turn-IsPlaying 0;
    act_offered = turn-offered M;
  }

  pub IsPrefix-trans :
      (xs ys zs : List FrameEvent) → IsPrefix xs ys → IsPrefix ys zs → IsPrefix xs zs
  IsPrefix-trans xs ys zs (r, e) (q, d) =
      (r ++ q, sym (append_assoc xs r q) ∙ ap (λ l. l ++ q) e ∙ d)

  -- A client's channel with a sender gives no `None`.
  fed-open :
      (r : Relay Chan)
      → (r.attached ≡ true → senders r.client ≡ 1)
      → r.attached ≡ true
      → recv r.client ≢ closed
  fed-open r fed stays e = absurd (omega (arith, fed stays, (M.recv_closed r.client e).1))

  -- What is true of a relay in every run: its client has read a first part of `frames`, it was never
  -- told that the broadcaster is gone, and its client, while it holds its receiver, gets no `None`.
  pub record IsServed (frames : List FrameEvent) (r : Relay Chan) : Type 0 where
    pub read_prefix : IsPrefix r.taken frames
    pub never_drains : r.phase ≢ draining
    pub drain_unset : r.drain ≡ false
    pub never_cut : r.attached ≡ true → recv r.client ≢ closed

  IsServed-current :
      (frames : List FrameEvent) (rs : List (Relay Chan))
      → All (IsCurrent relay_port frames) rs
      → All (IsServed frames) rs
  IsServed-current frames [] v = tt
  IsServed-current frames (r ∷ rs) ((h, o), v) = (
    record {
      read_prefix = rw o at h.taken_prefix;
      never_drains = h.ordered.never_drains;
      drain_unset = h.ordered.drain_unset;
      never_cut = fed-open r (h.ordered.fed);
    },
    IsServed-current frames rs v,
  )

  IsServed-left :
      (frames : List FrameEvent) (rs : List (Relay Chan))
      → All (IsLeft relay_port frames) rs
      → All (IsServed frames) rs
  IsServed-left frames [] v = tt
  IsServed-left frames (r ∷ rs) ((h, p), v) = (
    record {
      read_prefix = IsPrefix-trans r.taken r.offered frames h.taken_prefix p;
      never_drains = h.ordered.never_drains;
      drain_unset = h.ordered.drain_unset;
      never_cut = fed-open r (h.ordered.fed);
    },
    IsServed-left frames rs v,
  )

  -- In every run of the broadcaster, its relays and their clients, each client has read a first part
  -- of what the tracker sent: in order, nothing missing in between, nothing twice, nothing made up.
  -- No relay ever drains, for its own task keeps a sender of its inbox alive; and no client that holds
  -- its receiver ever gets a `None` in place of an event.
  pub run-IsServed :
      (es : List (Event FrameRequest Turn))
      → let s = run relay_port new es in
        All (IsServed (received relay_port es)) (s.relays ++ s.detached)
  run-IsServed es =
      let s = run relay_port new es in
      let v = run-new-IsSynced relay_port es in
      rw (← run-frames relay_port es) (
        All-append _ s.relays s.detached (IsServed-current s.frames s.relays v.current)
          (IsServed-left s.frames s.detached v.behind))
