-- ===== src/Broadcast/Buffer.antt =====
-- The buffer of the broadcaster, the end of its loop, and the branches of its `select!`.
use rust_job_runner.Common.{
  ◌≡◌, refl, ap, ◌∙◌, sym, true, false, Option, none, some, List, [], ◌∷◌, ◌++◌, append-nil,
  append_assoc, arith, ◌||◌, ◌&&◌, not, Bool,
}
use rust_job_runner.Frames.{FrameEvent}
use rust_job_runner.Broadcast.Port.{RelayPort}
use rust_job_runner.Broadcast.{Bcast, Select, frame_rx, req_rx, new, track, turn}
use rust_job_runner.Broadcast.System.{Event, broadcaster, held_acts, free_acts, step, run}

module _ {R Req : Type 0} (P : RelayPort R Req) where
  open P use {start, Act}

  -- What the tracker sent before it dropped its end of the channel.
  abbrev pub received : List (Event Req Act) → List FrameEvent
  received [] = []
  received (broadcaster (frame_rx none) ∷ es) = []
  received (broadcaster (frame_rx (some ev)) ∷ es) = ev ∷ received es
  received (broadcaster (req_rx req) ∷ es) = received es
  received (held_acts i a ∷ es) = received es
  received (free_acts i a ∷ es) = received es

  -- The loop runs while frames may come.
  abbrev IsOpen : Bcast R → Type 0
  IsOpen s = (s.frame_rx_ok ≡ true) × (s.looping ≡ true)

  track-same :
      (s : Bcast R) (o : Option R)
      → ((track P s o).frames ≡ s.frames)
        × ((track P s o).frame_rx_ok ≡ s.frame_rx_ok)
        × ((track P s o).req_rx_ok ≡ s.req_rx_ok)
        × ((track P s o).looping ≡ s.looping)
  unfolding track
  track-same s o = ground arith

  turn-frame-IsOpen :
      (s : Bcast R) (ev : FrameEvent)
      → IsOpen s
      → IsOpen (turn P s (frame_rx (some ev)))
        × ((turn P s (frame_rx (some ev))).frames ≡ s.frames ++ ev ∷ [])
  unfolding turn
  turn-frame-IsOpen s ev v = ground arith

  turn-req-IsOpen :
      (s : Bcast R) (req : Option Req)
      → IsOpen s
      → IsOpen (turn P s (req_rx req)) × ((turn P s (req_rx req)).frames ≡ s.frames)
  unfolding turn
  turn-req-IsOpen s none v = ground arith
  turn-req-IsOpen s (some req) v = ground (arith, track-same s (start s.frames req))

  turn-shut :
      (s : Bcast R) (e : Select Req)
      → s.frame_rx_ok ≡ false
      → ((turn P s e).frame_rx_ok ≡ false) × ((turn P s e).frames ≡ s.frames)
  unfolding turn
  turn-shut s (frame_rx o) v = ground arith
  turn-shut s (req_rx none) v = ground arith
  turn-shut s (req_rx (some req)) v = ground (arith, track-same s (start s.frames req))

  turn-end :
      (s : Bcast R)
      → IsOpen s
      → ((turn P s (frame_rx none)).frame_rx_ok ≡ false)
        × ((turn P s (frame_rx none)).frames ≡ s.frames)
  unfolding turn
  turn-end s v = ground arith

  run-shut :
      (s : Bcast R) (es : List (Event Req Act))
      → s.frame_rx_ok ≡ false
      → (run P s es).frames ≡ s.frames
  unfolding run step
  run-shut s [] v = refl
  run-shut s (broadcaster e ∷ es) v =
      run-shut (turn P s e) es (turn-shut s e v).0 ∙ (turn-shut s e v).1
  run-shut s (held_acts i a ∷ es) v = run-shut (step P s (held_acts i a)) es v
  run-shut s (free_acts i a ∷ es) v = run-shut (step P s (free_acts i a)) es v

  run-open :
      (s : Bcast R) (es : List (Event Req Act))
      → IsOpen s
      → (run P s es).frames ≡ s.frames ++ received es
  unfolding run step
  run-open s [] v = sym (append-nil s.frames)
  run-open s (broadcaster (frame_rx none) ∷ es) v =
      run-shut (turn P s (frame_rx none)) es (turn-end s v).0
      ∙ (turn-end s v).1
      ∙ sym (append-nil s.frames)
  run-open s (broadcaster (frame_rx (some ev)) ∷ es) v =
      run-open (turn P s (frame_rx (some ev))) es (turn-frame-IsOpen s ev v).0
      ∙ rw ((turn-frame-IsOpen s ev v).1) (append_assoc s.frames (ev ∷ []) (received es))
  run-open s (broadcaster (req_rx req) ∷ es) v =
      run-open (turn P s (req_rx req)) es (turn-req-IsOpen s req v).0
      ∙ ap (λ l. l ++ received es) (turn-req-IsOpen s req v).1
  run-open s (held_acts i a ∷ es) v = run-open (step P s (held_acts i a)) es v
  run-open s (free_acts i a ∷ es) v = run-open (step P s (free_acts i a)) es v

  -- The buffer is exactly what the tracker sent, in order, up to the end of the channel, whatever
  -- the requests and the relays do in between.
  pub run-frames : (es : List (Event Req Act)) → (run P new es).frames ≡ received es
  unfolding new
  run-frames es = run-open new es (refl, refl)

  -- `select!` is entered only with a branch that is on; with none tokio would panic.
  abbrev pub HasBranch : Bcast R → Type 0
  HasBranch s = s.looping ≡ (s.frame_rx_ok || s.req_rx_ok)

  turn-HasBranch : (s : Bcast R) (e : Select Req) → HasBranch s → HasBranch (turn P s e)
  unfolding turn
  turn-HasBranch s (frame_rx none) v = ground arith
  turn-HasBranch s (frame_rx (some ev)) v = ground arith
  turn-HasBranch s (req_rx none) v = ground arith
  turn-HasBranch s (req_rx (some req)) v = ground (arith, track-same s (start s.frames req))

  run-from-HasBranch :
      (s : Bcast R) (es : List (Event Req Act)) → HasBranch s → HasBranch (run P s es)
  unfolding run step
  run-from-HasBranch s [] v = v
  run-from-HasBranch s (broadcaster e ∷ es) v =
      run-from-HasBranch (turn P s e) es (turn-HasBranch s e v)
  run-from-HasBranch s (held_acts i a ∷ es) v = run-from-HasBranch (step P s (held_acts i a)) es v
  run-from-HasBranch s (free_acts i a ∷ es) v = run-from-HasBranch (step P s (free_acts i a)) es v

  -- Whether the channel of frames, and that of requests, has given its end.
  abbrev pub frames_end : List (Event Req Act) → Bool
  frames_end [] = false
  frames_end (broadcaster (frame_rx none) ∷ es) = true
  frames_end (_ ∷ es) = frames_end es

  abbrev pub requests_end : List (Event Req Act) → Bool
  requests_end [] = false
  requests_end (broadcaster (req_rx none) ∷ es) = true
  requests_end (_ ∷ es) = requests_end es

  -- Which branches are on behind a run.
  record HasFlags (s : Bcast R) (es : List (Event Req Act)) (t : Bcast R) : Type 0 where
    frames_on : t.frame_rx_ok ≡ (s.frame_rx_ok && not (frames_end es))
    requests_on : t.req_rx_ok ≡ (s.req_rx_ok && not (requests_end es))

  run-HasFlags :
      (s : Bcast R) (es : List (Event Req Act)) → HasBranch s → HasFlags s es (run P s es)
  unfolding run step turn
  run-HasFlags s [] v = ground arith
  run-HasFlags s (broadcaster (frame_rx none) ∷ es) v =
      let w = turn-HasBranch s (frame_rx none) v in
      let r = run-HasFlags (turn P s (frame_rx none)) es w in ground arith
  run-HasFlags s (broadcaster (frame_rx (some ev)) ∷ es) v =
      let w = turn-HasBranch s (frame_rx (some ev)) v in
      let r = run-HasFlags (turn P s (frame_rx (some ev))) es w in ground arith
  run-HasFlags s (broadcaster (req_rx none) ∷ es) v =
      let w = turn-HasBranch s (req_rx none) v in
      let r = run-HasFlags (turn P s (req_rx none)) es w in ground arith
  run-HasFlags s (broadcaster (req_rx (some req)) ∷ es) v =
      let w = turn-HasBranch s (req_rx (some req)) v in
      let r = run-HasFlags (turn P s (req_rx (some req))) es w in
      ground (arith, track-same s (start s.frames req))
  run-HasFlags s (held_acts i a ∷ es) v =
      let r = run-HasFlags (step P s (held_acts i a)) es v in
      record { frames_on = r.frames_on; requests_on = r.requests_on }
  run-HasFlags s (free_acts i a ∷ es) v =
      let r = run-HasFlags (step P s (free_acts i a)) es v in
      record { frames_on = r.frames_on; requests_on = r.requests_on }

  -- The loop has ended exactly when both channels have given their end: not before, whatever comes out
  -- of them and whatever the relays do, and at once then. While it runs, one of its two branches is on,
  -- so that `select!` never panics for lack of a branch.
  pub run-looping :
      (es : List (Event Req Act))
      → ((run P new es).looping ≡ not (frames_end es && requests_end es)) × HasBranch (run P new es)
  unfolding new
  run-looping es =
      let v = run-from-HasBranch new es refl in
      let r = run-HasFlags new es refl in (ground (arith, v, r.frames_on, r.requests_on), v)
