-- ===== src/Tracker/Passed.antt =====
-- The output that the tracker passes on.
use rust_job_runner.Common.{
  ◌≡◌, refl, sym, ap, ◌∙◌, true, false, none, some, ok, List, [], ◌∷◌, ◌++◌, append-nil,
  append_assoc, arith, Bool-cases, inl, inr,
}
use rust_job_runner.Types.{Job}
use rust_job_runner.Frames.{FrameEvent, frame, eof}
use rust_job_runner.Tracker.{
  Phase, looping, broken, complete, Tracker, Select, stdout_rx, stderr_rx, Event, select, epilogue,
  track, on_output, on_kill, on_exit, enabled, body, loop_head, finish, turn, step, run,
}

-- The frames that come out of the two streams, in the order in which `select!` takes them, and the
-- event at the end.
abbrev pub output_of : List Event → List FrameEvent
output_of [] = []
output_of (select (stdout_rx (some (ok f)) accepted) ∷ es) = frame f ∷ output_of es
output_of (select (stderr_rx (some (ok f)) accepted) ∷ es) = frame f ∷ output_of es
output_of (epilogue true ∷ es) = eof ∷ output_of es
output_of (_ ∷ es) = output_of es

-- A schedule that tokio can run: each branch taken is on, and the epilogue runs once, at its place.
abbrev pub IsPossible : Phase → Event → Tracker → Type 0
IsPossible looping (select e) s = enabled e s ≡ true
IsPossible broken (epilogue accepted) s = Unit {0}
IsPossible _ _ s = ⊥

abbrev pub IsSchedule : Tracker → List Event → Type 0
IsSchedule s [] = Unit {0}
IsSchedule s (e ∷ es) = IsPossible s.phase e s × IsSchedule (step s e) es

abbrev output_one : Event → List FrameEvent
output_one e = output_of (e ∷ [])

body-sent :
    (s : Tracker) (e : Select)
    → (loop_head (body e s)).loop_err ≡ none
    → ((loop_head (body e s)).sent ≡ s.sent ++ output_one (select e)) × (s.loop_err ≡ none)
unfolding body on_output on_kill on_exit loop_head
body-sent s e h = ground (arith, append-nil s.sent)

output_of-cons : (e : Event) (es : List Event) → output_of (e ∷ es) ≡ output_one e ++ output_of es
output_of-cons (select (stdout_rx (some (ok f)) accepted)) es = refl
output_of-cons (select (stderr_rx (some (ok f)) accepted)) es = refl
output_of-cons (epilogue true) es = refl
output_of-cons _ es = refl

turn-sent :
    (p : Phase) (e : Event) (s : Tracker)
    → IsPossible p e s
    → (turn p e s).loop_err ≡ none
    → ((turn p e s).sent ≡ s.sent ++ output_one e) × (s.loop_err ≡ none)
unfolding turn
turn-sent looping (select e) s on h = elim (Bool-cases (enabled e s)) [
  | inl yes_on ↦ simp yes_on (body-sent s e (simp yes_on at h))
  | inr off ↦ cc
]
turn-sent broken (epilogue true) s on h = unfold finish in ground arith
turn-sent broken (epilogue false) s on h = unfold finish in ground (arith, append-nil s.sent)
turn-sent looping (epilogue accepted) s on h = elim on [ ]
turn-sent broken (select e) s on h = elim on [ ]
turn-sent complete e s on h = elim on [ ]

run-from-sent :
    (s : Tracker) (es : List Event)
    → IsSchedule s es
    → (run s es).loop_err ≡ none
    → ((run s es).sent ≡ s.sent ++ output_of es) × (s.loop_err ≡ none)
unfolding run step
run-from-sent s [] v h = (sym (append-nil s.sent), h)
run-from-sent s (e ∷ es) v h =
    let (later, unbroken) = run-from-sent (step s e) es v.1 h in
    let (now, clean) = turn-sent s.phase e s v.0 unbroken in
    (
      later
          ∙ ap (λ l. l ++ output_of es) now
          ∙ append_assoc s.sent (output_one e) (output_of es)
          ∙ ap (λ l. s.sent ++ l) (sym (output_of-cons e es)),
      clean,
    )

-- In every schedule that tokio can run, while no error is met, the broadcaster is given exactly the
-- frames that come out of the child's two streams, in the order in which they come, and behind them
-- the end marker once the code behind the loop has sent it.
pub run-sent :
    (job : Job) (es : List Event)
    → IsSchedule (track job) es
    → (run (track job) es).loop_err ≡ none
    → (run (track job) es).sent ≡ output_of es
unfolding track
run-sent job es v h = (run-from-sent (track job) es v h).0
