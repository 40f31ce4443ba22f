-- ===== src/Tracker/Ends.antt =====
-- The number of rounds of a tracker's loop.
use rust_job_runner.Common.{
  ℕ, Result, Option, ◌+◌, ◌≤◌, ◌≡◌, refl, Bool, true, false, none, some, ok, err, List, [], ◌∷◌,
  length, ◌⊎◌, inl, inr, arith, Bool-cases,
}
use rust_job_runner.Types.{Job, ProcessExit, DateTime}
use rust_job_runner.Frames.{Frame, TrackerError, IoError}
use rust_job_runner.Tracker.{
  Phase, looping, broken, complete, Tracker, Select, stdout_rx, stderr_rx, kill_rx, child_wait,
  Event, select, epilogue, track, forward, break_err, KillRequest, on_output, on_kill, on_exit,
  enabled, body, loop_head, finish, turn, step, run,
}
use rust_job_runner.Tracker.Invariant.{IsTracking, run-IsTracking}
use rust_job_runner.Tracker.Passed.{IsPossible, IsSchedule}

-- The frames and kill requests that a run takes.
abbrev pub taken : List Event → ℕ
taken [] = 0
taken (select (stdout_rx (some (ok f)) accepted) ∷ es) = 1 + taken es
taken (select (stderr_rx (some (ok f)) accepted) ∷ es) = 1 + taken es
taken (select (kill_rx (some req) killed now) ∷ es) = 1 + taken es
taken (_ ∷ es) = taken es

abbrev bit : Bool → ℕ
bit true = 1
bit false = 0

-- The branches that are still on, and the code behind the loop.
abbrev left_in : Phase → Tracker → ℕ
left_in looping s = 1 + (bit s.stdout_ok + (bit s.stderr_ok + (bit s.kill_ok + bit s.child_ok)))
left_in broken s = 1
left_in complete s = 0

abbrev left : Tracker → ℕ
left s = left_in s.phase s

loop_head-left : (s : Tracker) → 1 ≤ left s → left (loop_head s) ≤ left s
unfolding loop_head
loop_head-left s h = ground arith

on_output-left :
    (s : Tracker) (o : Option (Result Frame TrackerError)) (accepted : Bool)
    → s.phase ≡ looping
    → (s.stdout_ok ≡ true
        → (1 ≤ left (on_output (record s { stdout_ok = false }) o accepted s))
          × (1 + left (on_output (record s { stdout_ok = false }) o accepted s)
              ≤ left s + taken (select (stdout_rx o accepted) ∷ [])))
      × (s.stderr_ok ≡ true
          → (1 ≤ left (on_output (record s { stderr_ok = false }) o accepted s))
            × (1 + left (on_output (record s { stderr_ok = false }) o accepted s)
                ≤ left s + taken (select (stderr_rx o accepted) ∷ [])))
unfolding on_output forward break_err
on_output-left s none accepted l = ground arith
on_output-left s (some (ok f)) true l = ground arith
on_output-left s (some (ok f)) false l = ground arith
on_output-left s (some (err e)) accepted l = ground arith

on_kill-left :
    (s : Tracker) (o : Option KillRequest) (killed : Result (Unit {0}) IoError) (now : DateTime)
    → s.phase ≡ looping
    → s.kill_ok ≡ true
    → (1 ≤ left (on_kill o killed now s))
      × (1 + left (on_kill o killed now s) ≤ left s + taken (select (kill_rx o killed now) ∷ []))
unfolding on_kill
on_kill-left s none killed now l on = ground arith
on_kill-left s (some req) (err e) now l on = ground arith
on_kill-left s (some req) (ok u) now l on = ground arith

on_exit-left :
    (s : Tracker) (status : Result ProcessExit IoError) (now : DateTime)
    → s.phase ≡ looping
    → s.child_ok ≡ true
    → (1 ≤ left (on_exit status now s)) × (1 + left (on_exit status now s) ≤ left s)
unfolding on_exit break_err
on_exit-left s (ok status) now l on = ground arith
on_exit-left s (err e) now l on = ground arith

body-left :
    (s : Tracker) (e : Select)
    → s.phase ≡ looping
    → enabled e s ≡ true
    → 1 + left (loop_head (body e s)) ≤ left s + taken (select e ∷ [])
unfolding body
body-left s (stdout_rx o accepted) l on =
    let (some_left, less) = (on_output-left s o accepted l).0 on in
    ground (arith, loop_head-left (body (stdout_rx o accepted) s) some_left)
body-left s (stderr_rx o accepted) l on =
    let (some_left, less) = (on_output-left s o accepted l).1 on in
    ground (arith, loop_head-left (body (stderr_rx o accepted) s) some_left)
body-left s (kill_rx o killed now) l on =
    let (some_left, less) = on_kill-left s o killed now l on in
    ground (arith, loop_head-left (body (kill_rx o killed now) s) some_left)
body-left s (child_wait status now) l on =
    let (some_left, less) = on_exit-left s status now l on in
    ground (arith, loop_head-left (body (child_wait status now) s) some_left)

turn-left :
    (p : Phase) (e : Event) (s : Tracker)
    → s.phase ≡ p
    → IsPossible p e s
    → 1 + left (turn p e s) ≤ left s + taken (e ∷ [])
unfolding turn
turn-left looping (select e) s l on = simp (on) (body-left s e l on)
turn-left broken (epilogue accepted) s l on = unfold finish in ground arith
turn-left looping (epilogue accepted) s l on = elim on [ ]
turn-left broken (select e) s l on = elim on [ ]
turn-left complete e s l on = elim on [ ]

taken-cons : (e : Event) (es : List Event) → taken (e ∷ es) ≡ taken (e ∷ []) + taken es
taken-cons (select (stdout_rx (some (ok f)) accepted)) es = refl
taken-cons (select (stderr_rx (some (ok f)) accepted)) es = refl
taken-cons (select (kill_rx (some req) killed now)) es = refl
taken-cons _ es = ground arith

run-left :
    (s : Tracker) (es : List Event)
    → IsSchedule s es
    → length es + left (run s es) ≤ left s + taken es
unfolding run step
run-left s [] v = ground arith
run-left s (e ∷ es) (now, later) =
    ground (arith, taken-cons e es, turn-left s.phase e s refl now, run-left (step s e) es later)

-- The futures give what they may: what counts is the branch that is on.
next :
    (job : Job) (s : Tracker) (p : Phase)
    → s.phase ≡ p
    → IsTracking job s
    → (p ≡ complete) ⊎ ((e : Event) × IsPossible p e s)
next job s complete l v = inl refl
next job s broken l v = inr (epilogue true, tt)
next job s looping l v = elim (Bool-cases s.stdout_ok) [
  | inl on ↦ inr (select (stdout_rx none true), on)
  | inr off ↦ elim (Bool-cases s.stderr_ok) [
    | inl on ↦ inr (select (stderr_rx none true), on)
    | inr off_too ↦ inr (select (child_wait (err "") 0), ground (arith, v.loops l))
  ]
]

-- In every schedule that tokio can run, the number of rounds, with the code behind the loop, is at
-- most five above the number of the frames and kill requests that the run takes; and as long as
-- the tracker has not returned, a further round, or the code behind the loop, is possible. So the
-- task returns once its child's streams, its requests and its child have come to an end.
pub run-ends :
    (job : Job) (es : List Event)
    → IsSchedule (track job) es
    → let s = run (track job) es in
      (length es ≤ 5 + taken es) × ((s.phase ≡ complete) ⊎ ((e : Event) × IsPossible s.phase e s))
unfolding track
run-ends job es v =
    let s = run (track job) es in
    (ground (arith, run-left (track job) es v), next job s s.phase refl (run-IsTracking job es))
