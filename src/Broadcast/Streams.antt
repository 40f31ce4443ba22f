-- ===== src/Broadcast/Streams.antt =====
-- What the broadcaster gives to its relays, whatever the order of frames, requests, and acts of the
-- relays and their clients.
use rust_job_runner.Common.{
  ◌≡◌, refl, sym, ◌∙◌, Bool, true, false, Option, none, some, List, [], ◌∷◌, ◌++◌, map, append-nil,
  arith, All, All-append, Bool-cases, inl, inr, not, ◌&&◌, true≢false,
}
use rust_job_runner.Frames.{FrameEvent}
use rust_job_runner.Relay.Order.{IsPrefix, IsPrefix-append}
use rust_job_runner.Broadcast.Port.{RelayPort}
use rust_job_runner.Broadcast.{
  retain_one, Bcast, Select, frame_rx, req_rx, loop_head, enabled, retain, on_frame, track, body,
  turn,
}

module _ {R Req : Type 0} (P : RelayPort R Req) where
  open P use {start, accept, release, offered, Held, Free, Act, act}

  -- A relay that is tracked was offered all frames so far; one that was dropped, a first part.
  abbrev pub IsCurrent : List FrameEvent → R → Type 0
  IsCurrent frames r = Held r × (offered r ≡ frames)

  abbrev pub IsLeft : List FrameEvent → R → Type 0
  IsLeft frames r = Free r × IsPrefix (offered r) frames

  pub record IsSynced (s : Bcast R) : Type 0 where
    pub current : All (IsCurrent s.frames) s.relays
    pub behind : All (IsLeft s.frames) s.detached
    -- a relay is tracked only while frames may come
    pub tracked_open : s.frame_rx_ok ≡ false → s.relays ≡ []

  abbrev Retained : FrameEvent → List FrameEvent → List R × List R → Type 0
  Retained ev frames (kept, gone) =
      All (IsCurrent (frames ++ ev ∷ [])) kept × All (IsLeft (frames ++ ev ∷ [])) gone

  retain_one-Retained :
      (ev : FrameEvent) (frames : List FrameEvent) (r : R) (taken : Bool) (rest : List R × List R)
      → (accept r ev).1 ≡ taken
      → IsCurrent frames r
      → Retained ev frames rest
      → Retained ev frames (retain_one P ((accept r ev).0, taken) rest)
  unfolding retain_one
  retain_one-Retained ev frames r true rest e (h, o) v =
      (((P.accept_held r ev h, rw (P.accept_true r ev e, o)), v.0), v.1)
  retain_one-Retained ev frames r false rest e (h, o) v = (
    v.0,
    (
      (
        P.release_free _ (P.accept_held r ev h),
        (ev ∷ [], rw (P.release_offered (accept r ev).0, P.accept_false r ev e, o)),
      ),
      v.1,
    ),
  )

  retain-Retained :
      (ev : FrameEvent) (frames : List FrameEvent) (rs : List R)
      → All (IsCurrent frames) rs
      → Retained ev frames (retain P ev rs)
  unfolding retain
  retain-Retained ev frames [] v = (tt, tt)
  retain-Retained ev frames (r ∷ rs) (h, v) =
      retain_one-Retained ev frames r (accept r ev).1 (retain P ev rs) refl h
        (retain-Retained ev frames rs v)

  IsLeft-append :
      (frames later : List FrameEvent) (rs : List R)
      → All (IsLeft frames) rs
      → All (IsLeft (frames ++ later)) rs
  IsLeft-append frames later [] v = tt
  IsLeft-append frames later (r ∷ rs) ((f, p), v) =
      ((f, IsPrefix-append (offered r) frames later p), IsLeft-append frames later rs v)

  release-IsLeft :
      (frames : List FrameEvent) (r : R) → IsCurrent frames r → IsLeft frames (release r)
  release-IsLeft frames r (h, o) =
      (P.release_free r h, ([], rw (P.release_offered r, o) (append-nil frames)))

  release-All :
      (frames : List FrameEvent) (rs : List R)
      → All (IsCurrent frames) rs
      → All (IsLeft frames) (map release rs)
  release-All frames [] v = tt
  release-All frames (r ∷ rs) (h, v) = (release-IsLeft frames r h, release-All frames rs v)

  on_frame-IsSynced :
      (s : Bcast R) (o : Option FrameEvent)
      → s.frame_rx_ok ≡ true
      → IsSynced s
      → IsSynced (on_frame P s o)
  unfolding on_frame
  on_frame-IsSynced s none f v = record {
    current = tt;
    behind = All-append _ s.detached _ v.behind (release-All s.frames s.relays v.current);
    tracked_open = λ _. refl;
  }
  on_frame-IsSynced s (some ev) f v =
      let after = retain-Retained ev s.frames s.relays v.current in
      record {
        current = after.0;
        behind =
            All-append _ s.detached _ (IsLeft-append s.frames (ev ∷ []) s.detached v.behind)
              after.1;
        tracked_open = λ shut. absurd (true≢false (sym f ∙ shut));
      }

  track-IsSynced :
      (s : Bcast R) (o : Option R)
      → ((r : R) → o ≡ some r → IsCurrent s.frames r)
      → IsSynced s
      → IsSynced (track P s o)
  unfolding track
  track-IsSynced s none h v = v
  track-IsSynced s (some r) h v = elim (Bool-cases s.frame_rx_ok) [
    | inl open_yet ↦
        rw (open_yet, track)
          (record {
            current = All-append _ s.relays (r ∷ []) v.current (h r refl, tt);
            behind = v.behind;
            tracked_open = λ shut. absurd (true≢false shut);
          })
    | inr shut ↦
        rw (shut, track)
          (record {
            current = v.current;
            behind = All-append _ s.detached _ v.behind (release-IsLeft s.frames r (h r refl), tt);
            tracked_open = λ _. v.tracked_open shut;
          })
  ]

  body-IsSynced :
      (s : Bcast R) (e : Select Req) → enabled s e ≡ true → IsSynced s → IsSynced (body P s e)
  unfolding body
  body-IsSynced s (frame_rx o) on v = on_frame-IsSynced s o on v
  body-IsSynced s (req_rx none) on v = record {
    current = v.current;
    behind = v.behind;
    tracked_open = v.tracked_open;
  }
  body-IsSynced s (req_rx (some req)) on v =
      track-IsSynced s (start s.frames req) (λ r e. P.start_held s.frames req e) v

  loop_head-IsSynced : (s : Bcast R) → IsSynced s → IsSynced (loop_head s)
  unfolding loop_head
  loop_head-IsSynced s v = elim (Bool-cases (not s.frame_rx_ok && not s.req_rx_ok)) [
    | inl over ↦
        rw over (record { current = v.current; behind = v.behind; tracked_open = v.tracked_open })
    | inr more ↦ rw more v
  ]

  pub turn-IsSynced : (s : Bcast R) (e : Select Req) → IsSynced s → IsSynced (turn P s e)
  unfolding turn
  turn-IsSynced s e v = elim (Bool-cases (s.looping && enabled s e)) [
    | inl on ↦ rw on (loop_head-IsSynced (body P s e) (body-IsSynced s e (ground arith) v))
    | inr off ↦ rw off v
  ]
