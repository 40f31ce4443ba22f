-- ===== src/Scenario/Demuxed.antt =====
-- What a test reads from a log stream.
use rust_job_runner.Common.{
  ◌≡◌, ◌≢◌, refl, sym, ap, ◌∙◌, subst, ◌⊎◌, inl, inr, arith, Bool, true, false, some, none, Option,
  List, [], ◌∷◌, ◌++◌, map, append-nil, append_assoc, concat, All,
}
use rust_job_runner.Frames.{stdout, stderr, Frame, FrameEvent, frame, error, eof, Bytes}
use rust_job_runner.Output.Stream.{bytes_of, bytes_of-consume, Chunks, stream_of}
use rust_job_runner.Client.Demux.{
  IsMerge, nothing, from_out, from_err, frames_of, IsOf, frames_of-IsOf,
}
use rust_job_runner.Client.EndToEnd.{
  from_stdout, from_stderr, from_both, from_both-IsMerge, to_the_end, run-sent_to_the_end,
}
use rust_job_runner.Channel.{Recv, pending, closed, got, Mpsc}
use rust_job_runner.Types.{Job}
use rust_job_runner.Output
use rust_job_runner.Tracker.{Event, track}
use rust_job_runner.Tracker
use rust_job_runner.Tracker.Passed.{IsSchedule}
use rust_job_runner.Relay.{Relay, FrameRequest, Turn}
use rust_job_runner.Relay.Order.{IsPrefix}
use rust_job_runner.Broadcast.Clients.{relay_port, IsServed}
use rust_job_runner.Runtime.{Step, start, run}
use rust_job_runner.Runtime.Trace.{trace, run-start-tracker}
use rust_job_runner.Runtime.Played.{run-IsPlayed}
use rust_job_runner.Scenario.{FrameDemux, Progress, going, returns, no_output, extend, consume}

-- Events that `rx.recv()` gave one after the other.
abbrev received : List FrameEvent → List (Option FrameEvent)
received evs = map some evs

consume-merge :
    {xs ys zs : List Frame} (d : FrameDemux)
    → IsMerge xs ys zs
    → All (IsOf stdout) xs
    → All (IsOf stderr) ys
    → consume d (received (map frame zs ++ eof ∷ []))
      ≡ returns (record { out = d.out ++ bytes_of xs; errs = d.errs ++ bytes_of ys })
unfolding consume
consume-merge d nothing v w = rw (append-nil d.out, append-nil d.errs) refl
consume-merge d (from_out f {xs} {ys} m) (k, v) w = rw k (
    consume-merge (extend stdout f.bs d) m v w
    ∙ ap (λ l. returns (record { out = l; errs = d.errs ++ bytes_of ys }))
        (append_assoc d.out f.bs (bytes_of xs)))
consume-merge d (from_err f {xs} {ys} m) v (k, w) = rw k (
    consume-merge (extend stderr f.bs d) m v w
    ∙ ap (λ l. returns (record { out = d.out ++ bytes_of xs; errs = l }))
        (append_assoc d.errs f.bs (bytes_of ys)))

consume-Chunks :
    (outs errs : List Bytes) (zs : List Frame)
    → Chunks outs
    → Chunks errs
    → IsMerge (frames_of stdout outs) (frames_of stderr errs) zs
    → consume no_output (received (map frame zs ++ eof ∷ []))
      ≡ returns (record { out = concat outs; errs = concat errs })
consume-Chunks outs errs zs c d m =
    consume-merge no_output m (frames_of-IsOf stdout outs c) (frames_of-IsOf stderr errs d)
    ∙ ap (λ l. returns (record { out = l; errs = bytes_of (frames_of stderr errs) }))
        (bytes_of-consume stdout outs c)
    ∙ ap (λ l. returns (record { out = concat outs; errs = l })) (bytes_of-consume stderr errs d)

going-ne-returns : {d : FrameDemux} → ◌≢◌ {A = Progress FrameDemux} going (returns d)
going-ne-returns e = ground arith

-- A reader that has read a part waits for more.
consume-cut :
    (d : FrameDemux) (zs : List Frame) (l rest : List FrameEvent)
    → l ++ rest ≡ map frame zs ++ eof ∷ []
    → (consume d (received l) ≡ going) ⊎ (l ≡ map frame zs ++ eof ∷ [])
unfolding consume
consume-cut d zs [] rest e = inl refl
consume-cut d [] (x ∷ []) rest e = inr (ground arith)
consume-cut d [] (x ∷ y ∷ l) rest e = absurd (ground arith)
consume-cut d (f ∷ zs) (eof ∷ l) rest e = absurd (ground arith)
consume-cut d (f ∷ zs) (error x ∷ l) rest e = absurd (ground arith)
consume-cut d (f ∷ zs) (frame g ∷ l) rest e =
    let same : g ≡ f = ground arith in
    let later : l ++ rest ≡ map frame zs ++ eof ∷ [] = ground arith in
    elim (consume-cut (extend g.kind g.bs d) zs l rest later) [
      | inl waits ↦ inl waits
      | inr all ↦ inr (ground arith)
    ]

-- What a reader of the stream of a job that is over has come to: it waits for more of what was sent,
-- or it has returned.
abbrev pub HasDemuxed : List FrameEvent → Bytes → Bytes → List (Option FrameEvent) → Type 0
HasDemuxed sent out errs got_evs =
    ((consume no_output got_evs ≡ going) × (got_evs ≢ map some sent))
    ⊎ (consume no_output got_evs ≡ returns (record { out = out; errs = errs }))

prefix-HasDemuxed :
    (outs errs : List Bytes) (zs : List Frame) (evs : List FrameEvent)
    → Chunks outs
    → Chunks errs
    → IsMerge (frames_of stdout outs) (frames_of stderr errs) zs
    → IsPrefix evs (map frame zs ++ eof ∷ [])
    → HasDemuxed (map frame zs ++ eof ∷ []) (concat outs) (concat errs) (received evs)
prefix-HasDemuxed outs errs zs evs c d m (rest, e) =
    let whole = consume-Chunks outs errs zs c d m in
    elim (consume-cut no_output zs evs rest e) [
      | inl waits ↦
          inl (waits, λ all. going-ne-returns (sym waits ∙ ap (consume no_output) all ∙ whole))
      | inr all ↦ inr (ap (λ l. consume no_output (received l)) all ∙ whole)
    ]

module _ (M : Mpsc FrameEvent) where
  open M use {Chan, recv}

  -- What `rx.recv()` gives next to a reader that holds the receiver, if that is its `None`.
  abbrev pub next_none : Bool → Recv Chan FrameEvent → List (Option FrameEvent)
  next_none true closed = none ∷ []
  next_none _ _ = []

  -- What `rx.recv()` has given to the client of a relay, with the `None` behind it if it gives one.
  abbrev pub given_to : Relay Chan → List (Option FrameEvent)
  given_to r = received r.taken ++ next_none r.attached (recv r.client)

  next_none-open :
      (b : Bool) (o : Recv Chan FrameEvent) → (b ≡ true → o ≢ closed) → next_none b o ≡ []
  next_none-open false o h = refl
  next_none-open true pending h = refl
  next_none-open true closed h = absurd (h refl refl)
  next_none-open true (got ev c) h = refl

  IsServed-given :
      (frames : List FrameEvent) (r : Relay Chan)
      → IsServed M frames r
      → given_to r ≡ received r.taken
  IsServed-given frames r v =
      ap (λ l. received r.taken ++ l) (next_none-open r.attached (recv r.client) v.never_cut)
      ∙ append-nil (received r.taken)

  All-HasDemuxed :
      (outs errs : List Bytes) (zs : List Frame) (rs : List (Relay Chan))
      → Chunks outs
      → Chunks errs
      → IsMerge (frames_of stdout outs) (frames_of stderr errs) zs
      → All (IsServed M (map frame zs ++ eof ∷ [])) rs
      → All (λ r. HasDemuxed (map frame zs ++ eof ∷ []) (concat outs) (concat errs) (given_to r)) rs
  All-HasDemuxed outs errs zs [] c d m v = tt
  All-HasDemuxed outs errs zs (r ∷ rs) c d m (h, v) = (
    rw (IsServed-given _ r h) (prefix-HasDemuxed outs errs zs r.taken c d m h.read_prefix),
    All-HasDemuxed outs errs zs rs c d m v,
  )

  -- Let the tasks of a job run in any order, with any number of clients at any times, while the
  -- tracker's rounds are a schedule of its whole task that tokio can run, in which every frame of the
  -- two readers is taken and the loop meets no error, so that no error event is sent; and let the chunks
  -- of the child's streams be not empty and fit the readers' buffer. Then no relay leaves its client
  -- early: `FrameDemux::consume`, fed with all that `rx.recv()` gives to the client, and with the `None`
  -- at the end of the channel should that be what it gives next, does not panic. It goes on only while it
  -- has not got all that the tracker sent, and else it has returned the bytes of the child's stdout and
  -- those of its stderr, the same for every client.
  pub run-demuxed :
      (job : Job) (outs errs : List Bytes) (es : List (Step FrameRequest Turn)) (evs : List Event)
      → trace M (relay_port M) (start M (relay_port M) job) es ≡ to_the_end evs
      → IsSchedule (track job) (to_the_end evs)
      → let s = run M (relay_port M) (start M (relay_port M) job) es in
        s.tracker.loop_err ≡ none
        → Chunks outs
        → Chunks errs
        → from_stdout evs ≡ (Output.consume stdout (stream_of outs)).0
        → from_stderr evs ≡ (Output.consume stderr (stream_of errs)).0
        → All
            (λ r. HasDemuxed s.tracker.sent (concat outs) (concat errs) (given_to r))
            (s.bcast.relays ++ s.bcast.detached)
  run-demuxed job outs errs es evs made v clean c d o e =
      let s = run M (relay_port M) (start M (relay_port M) job) es in
      let whole = run-start-tracker M (relay_port M) job es ∙ ap (Tracker.run (track job)) made in
      let sent =
        ap (λ t. t.sent) whole
        ∙ run-sent_to_the_end job evs v (ap (λ t. t.loop_err) (sym whole) ∙ clean) in
      let m =
        subst (λ x. IsMerge x (frames_of stderr errs) (from_both evs)) o
          (subst (λ y. IsMerge (from_stdout evs) y (from_both evs)) e (from_both-IsMerge evs)) in
      let rs = s.bcast.relays ++ s.bcast.detached in
      subst (λ l. All (λ r. HasDemuxed l (concat outs) (concat errs) (given_to r)) rs) (sym sent)
        (All-HasDemuxed outs errs (from_both evs) rs c d m
          (subst (λ l. All (IsServed M l) rs) sent (run-IsPlayed M job es)))
