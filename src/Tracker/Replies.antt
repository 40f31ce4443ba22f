-- ===== src/Tracker/Replies.antt =====
-- What the senders of kill requests are told.
use rust_job_runner.Common.{
  ℕ, ◌+◌, ◌≡◌, refl, Bool, false, Option, none, some, Result, ok, err, List, [], ◌∷◌, ◌++◌, map,
  arith, count, count-append, if◌then◌else◌, Bool-cases, inl, inr,
}
use rust_job_runner.Types.{Job, ProcessExit, DateTime}
use rust_job_runner.Frames.{Frame, TrackerError, IoError}
use rust_job_runner.Tracker.{
  KillRequest, Phase, looping, broken, Tracker, Select, stdout_rx, stderr_rx, kill_rx, child_wait,
  Event, select, epilogue, track, ended_job, on_output, on_kill, on_exit, enabled, body, loop_head,
  finish, turn, step, run,
}

abbrev pub answered : List (ℕ × Result Job IoError) → List ℕ
answered = map (λ r. r.0)

abbrev pub waiting : List KillRequest → List ℕ
waiting = map (λ r. r.tx)

abbrev pub request_of : Select → List ℕ
request_of (kill_rx (some req) killed now) = req.tx ∷ []
request_of _ = []

-- The request that an event takes off the channel.
abbrev pub taken_by : Phase → Event → Tracker → List ℕ
taken_by looping (select e) s = if enabled e s then request_of e else []
taken_by _ _ s = []

abbrev pub asked : Tracker → List Event → List ℕ
asked s [] = []
asked s (e ∷ es) = taken_by s.phase e s ++ asked (step s e) es

-- How often the oneshot `i` is used or kept.
abbrev pub held : ℕ → Tracker → ℕ
held i s = count i (answered s.replies) + count i (waiting s.kill_reqs)

waiting-replies :
    (i : ℕ) (job : Job) (reqs : List KillRequest)
    → count i (answered (map (λ req. (req.tx, ok job)) reqs)) ≡ count i (waiting reqs)
waiting-replies i job [] = refl
waiting-replies i job (req ∷ reqs) = ground (arith, waiting-replies i job reqs)

answered-append :
    (i : ℕ) (xs ys : List (ℕ × Result Job IoError))
    → count i (answered (xs ++ ys)) ≡ count i (answered xs) + count i (answered ys)
answered-append i [] ys = omega arith
answered-append i (x ∷ xs) ys = omega (arith, answered-append i xs ys)

waiting-append :
    (i : ℕ) (xs ys : List KillRequest)
    → count i (waiting (xs ++ ys)) ≡ count i (waiting xs) + count i (waiting ys)
waiting-append i [] ys = omega arith
waiting-append i (x ∷ xs) ys = omega (arith, waiting-append i xs ys)

on_output-held :
    (i : ℕ) (s : Tracker) (o : Option (Result Frame TrackerError)) (accepted : Bool)
    → (held i (loop_head (on_output (record s { stdout_ok = false }) o accepted s)) ≡ held i s)
      × (held i (loop_head (on_output (record s { stderr_ok = false }) o accepted s)) ≡ held i s)
unfolding on_output loop_head
on_output-held i s o accepted = ground arith

on_kill-held :
    (i : ℕ) (s : Tracker) (req : KillRequest) (killed : Result (Unit {0}) IoError) (now : DateTime)
    → held i (loop_head (on_kill (some req) killed now s)) ≡ held i s + count i (req.tx ∷ [])
unfolding on_kill loop_head
on_kill-held i s req (ok u) now = ground (arith, waiting-append i s.kill_reqs (req ∷ []))
on_kill-held i s req (err e) now =
    ground (arith, answered-append i s.replies ((req.tx, err e) ∷ []))

on_exit-held :
    (i : ℕ) (s : Tracker) (status : Result ProcessExit IoError) (now : DateTime)
    → held i (loop_head (on_exit status now s)) ≡ held i s
unfolding on_exit loop_head
on_exit-held i s (err e) now = ground arith
on_exit-held i s (ok status) now =
    let job = ended_job s.job status now in
    ground (
      arith,
      answered-append i s.replies (map (λ req. (req.tx, ok job)) s.kill_reqs),
      waiting-replies i job s.kill_reqs,
    )

body-held :
    (i : ℕ) (e : Select) (s : Tracker)
    → held i (loop_head (body e s)) ≡ held i s + count i (request_of e)
unfolding body
body-held i (stdout_rx o accepted) s = omega (arith, (on_output-held i s o accepted).0)
body-held i (stderr_rx o accepted) s = omega (arith, (on_output-held i s o accepted).1)
body-held i (kill_rx (some req) killed now) s = on_kill-held i s req killed now
body-held i (kill_rx none killed now) s = unfold on_kill loop_head in ground arith
body-held i (child_wait status now) s = omega (arith, on_exit-held i s status now)

pub turn-held :
    (i : ℕ) (p : Phase) (e : Event) (s : Tracker)
    → held i (turn p e s) ≡ held i s + count i (taken_by p e s)
unfolding turn finish
turn-held i looping (select e) s = elim (Bool-cases (enabled e s)) [
  | inl on ↦ simp on (body-held i e s)
  | inr off ↦ simp off (omega arith)
]
turn-held i broken (epilogue accepted) s = omega arith
turn-held i _ _ s = omega arith

run-from-held :
    (i : ℕ) (s : Tracker) (es : List Event) → held i (run s es) ≡ held i s + count i (asked s es)
unfolding run step
run-from-held i s [] = omega arith
run-from-held i s (e ∷ es) = omega (
  arith,
  turn-held i s.phase e s,
  run-from-held i (step s e) es,
  count-append i (taken_by s.phase e s) (asked (step s e) es),
)

held-track : (i : ℕ) (job : Job) → held i (track job) ≡ 0
unfolding track
held-track i job = refl

-- Every kill request that the tracker takes is answered once, or is kept for the end of the job, and
-- nothing else is answered: each oneshot stands as often among the requests taken as among the
-- answers and the kept requests together.
pub run-held :
    (i : ℕ) (job : Job) (es : List Event)
    → count i (answered (run (track job) es).replies)
        + count i (waiting (run (track job) es).kill_reqs)
      ≡ count i (asked (track job) es)
run-held i job es = omega (arith, run-from-held i (track job) es, held-track i job)
