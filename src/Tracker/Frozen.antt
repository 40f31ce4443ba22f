-- ===== src/Tracker/Frozen.antt =====
-- The job's snapshot after the select loop: nothing writes it any more.
use rust_job_runner.Common.{◌≡◌, ◌≢◌, refl, ap, ◌∙◌, true, some, err, List, [], ◌∷◌, ◌++◌, arith}
use rust_job_runner.Types.{Job}
use rust_job_runner.Tracker.{
  Phase, looping, broken, complete, Tracker, stdout_rx, stderr_rx, Event, select, epilogue, track,
  on_output, body, loop_head, finish, turn, step, run,
}
use rust_job_runner.Tracker.Invariant.{run-IsTracking}

pub run-append : (s : Tracker) (xs ys : List Event) → run s (xs ++ ys) ≡ run (run s xs) ys
unfolding run
run-append s [] ys = refl
run-append s (x ∷ xs) ys = run-append (step s x) xs ys

turn-frozen :
    (p : Phase) (e : Event) (s : Tracker)
    → p ≢ looping
    → s.phase ≡ p
    → ((turn p e s).job ≡ s.job) × ((turn p e s).phase ≢ looping)
unfolding turn finish
turn-frozen looping e s n l = absurd (n refl)
turn-frozen broken (epilogue accepted) s n l = ground arith
turn-frozen broken (select e) s n l = ground arith
turn-frozen complete e s n l = ground arith

run-frozen : (s : Tracker) (es : List Event) → s.phase ≢ looping → (run s es).job ≡ s.job
unfolding run step
run-frozen s [] n = refl
run-frozen s (e ∷ es) n =
    let (same, out) = turn-frozen s.phase e s n refl in run-frozen (step s e) es out ∙ same

-- An item of an output stream that is an error, on either stream.
abbrev pub FailsOn : Tracker → Event → Type 0
FailsOn s (select (stdout_rx (some (err x)) accepted)) = s.stdout_ok ≡ true
FailsOn s (select (stderr_rx (some (err x)) accepted)) = s.stderr_ok ≡ true
FailsOn s _ = ⊥

step-fails :
    (s : Tracker) (e : Event)
    → s.phase ≡ looping
    → FailsOn s e
    → ((step s e).job ≡ s.job) × ((step s e).phase ≢ looping)
unfolding step turn body on_output loop_head
step-fails s (select (stdout_rx (some (err x)) accepted)) l on = ground arith
step-fails s (select (stderr_rx (some (err x)) accepted)) l on = ground arith
step-fails s _ l on = elim on [ ]

-- A read error on an output stream of a child that has not exited leaves the job's state and end
-- time as they were at the start, whatever happens later: the job is shown as running for ever.
pub run-fails :
    (job : Job) (before : List Event) (e : Event) (later : List Event)
    → let s = run (track job) before in
      s.phase ≡ looping
      → s.child_ok ≡ true
      → FailsOn s e
      → let t = run (track job) (before ++ e ∷ later) in
        (t.job.state ≡ job.state) × (t.job.ended_at ≡ job.ended_at)
unfolding run
run-fails job before e later l child on =
    let s = run (track job) before in
    let (same, out) = step-fails s e l on in
    let kept =
      ap (λ t. t.job) (run-append (track job) before (e ∷ later))
      ∙ run-frozen (step s e) later out
      ∙ same in
    let (state, ended) = (run-IsTracking job before).running_yet child in
    (ap (λ j. j.state) kept ∙ state, ap (λ j. j.ended_at) kept ∙ ended)
