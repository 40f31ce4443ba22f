-- ===== src/Spawn/Win/KillAnswers.antt =====
-- src/proc/spawn/win.rs: what `child.kill().await` gives, and when it gives nothing.
use rust_job_runner.Common.{
  ◌≡◌, ◌≢◌, refl, ap, ◌∙◌, true, false, Option, none, some, Result, ok, err, List, [], ◌∷◌, ◌++◌,
  arith, is_some, Bool-cases, inl, inr,
}
use rust_job_runner.Frames.{IoError}
use rust_job_runner.Spawn.Win.Killing.{
  Thread, terminating, returning, sending, waking, gone, KillChild, Step, polls, thread_runs,
  other_wake, new, poll, on_poll, on_thread, step, run,
}

-- What holds of the future in every run.
pub record IsKill (s : KillChild) : Type 0 where
  -- a result is the one of `TerminateProcess`
  pub result_true : is_some s.done ≡ true → s.done ≡ s.terminated
  pub got : (r : Result (Unit {0}) IoError) → s.thread ≡ some (returning r) → s.terminated ≡ some r
  pub starts_once : s.thread ≡ none → s.terminated ≡ none
  pub starts : s.thread ≡ some terminating → s.terminated ≡ none
  -- the thread waits in `send` with what it got, and gets no further before a poll takes it
  pub waits : (r : Result (Unit {0}) IoError) → s.thread ≡ some (sending r) → s.terminated ≡ some r
  pub taken : s.thread ≡ some waking → is_some s.done ≡ true
  pub over : s.thread ≡ some gone → is_some s.done ≡ true

new-IsKill : IsKill new
unfolding new
new-IsKill = ground arith

on_poll-IsKill :
    (s : KillChild) (t : Option Thread)
    → s.thread ≡ t
    → s.done ≡ none
    → IsKill s
    → IsKill (on_poll s none)
unfolding poll
on_poll-IsKill s none e d v = ground arith
on_poll-IsKill s (some terminating) e d v = ground arith
on_poll-IsKill s (some (returning r)) e d v = ground (arith, v.got r e)
on_poll-IsKill s (some (sending (ok u))) e d v = ground (arith, v.waits (ok tt) e)
on_poll-IsKill s (some (sending (err x))) e d v = ground (arith, v.waits (err x) e)
on_poll-IsKill s (some waking) e d v = ground arith
on_poll-IsKill s (some gone) e d v = ground arith

on_thread-IsKill :
    (r : Result (Unit {0}) IoError) (s : KillChild) (t : Option Thread)
    → s.thread ≡ t
    → IsKill s
    → IsKill (on_thread r s t)
on_thread-IsKill r s none e v = v
on_thread-IsKill r s (some terminating) e v = ground arith
on_thread-IsKill r s (some (returning q)) e v = ground (arith, v.got q e)
on_thread-IsKill r s (some (sending q)) e v = v
on_thread-IsKill r s (some waking) e v = ground arith
on_thread-IsKill r s (some gone) e v = v

polls-IsKill :
    (s : KillChild) (o : Option (Result (Unit {0}) IoError))
    → s.done ≡ o
    → IsKill s
    → IsKill (on_poll s o)
polls-IsKill s none e v = on_poll-IsKill s s.thread refl e v
polls-IsKill s (some r) e v = v

step-IsKill : (s : KillChild) (e : Step) → IsKill s → IsKill (step s e)
unfolding step
step-IsKill s polls v = elim (Bool-cases s.woken) [
  | inl on ↦ simp on (polls-IsKill s s.done refl v)
  | inr off ↦ simp off v
]
step-IsKill s (thread_runs r) v = on_thread-IsKill r s s.thread refl v
step-IsKill s other_wake v = record {
  result_true = v.result_true;
  starts_once = v.starts_once;
  starts = v.starts;
  got = v.got;
  waits = v.waits;
  taken = v.taken;
  over = v.over;
}

run-from-IsKill : (s : KillChild) (es : List Step) → IsKill s → IsKill (run s es)
unfolding run
run-from-IsKill s [] v = v
run-from-IsKill s (e ∷ es) v = run-from-IsKill (step s e) es (step-IsKill s e v)

run-append : (s : KillChild) (xs ys : List Step) → run s (xs ++ ys) ≡ run (run s xs) ys
unfolding run
run-append s [] ys = refl
run-append s (x ∷ xs) ys = run-append (step s x) xs ys

-- In every run a result of `kill` is what `TerminateProcess` gave.
pub run-IsKill : (es : List Step) → IsKill (run new es)
run-IsKill es = run-from-IsKill new es new-IsKill

-- The thread has gone past `TerminateProcess`, and stands in `send` or behind it.
abbrev HasTried : KillChild → Type 0
HasTried s =
    (s.thread ≢ some terminating)
    × ((q : Result (Unit {0}) IoError) → s.thread ≢ some (returning q))

-- One step of the thread takes it there.
on_thread-HasTried :
    (q : Result (Unit {0}) IoError) (s : KillChild) (t : Option Thread)
    (r : Result (Unit {0}) IoError)
    → s.thread ≡ t
    → s.terminated ≡ some r
    → IsKill s
    → HasTried (on_thread q s t) × ((on_thread q s t).terminated ≡ some r)
on_thread-HasTried q s none r e f v = absurd (ground (arith, v.starts_once e))
on_thread-HasTried q s (some terminating) r e f v = absurd (ground (arith, v.starts e))
on_thread-HasTried q s (some (returning x)) r e f v =
    ((λ h. absurd (ground arith), λ y h. absurd (ground arith)), f)
on_thread-HasTried q s (some (sending x)) r e f v =
    ((λ h. absurd (ground arith), λ y h. absurd (ground arith)), f)
on_thread-HasTried q s (some waking) r e f v =
    ((λ h. absurd (ground arith), λ y h. absurd (ground arith)), f)
on_thread-HasTried q s (some gone) r e f v =
    ((λ h. absurd (ground arith), λ y h. absurd (ground arith)), f)

-- A poll takes what the thread sends.
on_poll-done :
    (s : KillChild) (t : Option Thread) (r : Result (Unit {0}) IoError)
    → s.thread ≡ t
    → s.terminated ≡ some r
    → s.done ≡ none
    → HasTried s
    → IsKill s
    → (on_poll s none).done ≡ some r
unfolding poll
on_poll-done s none r e f d w v = absurd (ground (arith, v.starts_once e))
on_poll-done s (some terminating) r e f d (w, w') v = absurd (w e)
on_poll-done s (some (returning q)) r e f d (w, w') v = absurd (w' q e)
on_poll-done s (some (sending (ok u))) r e f d w v = ground (arith, v.waits (ok tt) e)
on_poll-done s (some (sending (err x))) r e f d w v = ground (arith, v.waits (err x) e)
on_poll-done s (some waking) r e f d w v = absurd (ground (arith, v.taken e))
on_poll-done s (some gone) r e f d w v = absurd (ground (arith, v.over e))

polls-done :
    (s : KillChild) (o : Option (Result (Unit {0}) IoError)) (r : Result (Unit {0}) IoError)
    → s.done ≡ o
    → s.terminated ≡ some r
    → HasTried s
    → IsKill s
    → (on_poll s o).done ≡ some r
polls-done s none r d f w v = on_poll-done s s.thread r refl f d w v
polls-done s (some q) r d f w v = v.result_true (rw d refl) ∙ f

-- Once `TerminateProcess` has returned, in whatever run: one more step of the thread, which takes it
-- into `send` if it does not stand there yet, and then any wake of the task from elsewhere and the poll
-- that it causes are enough. The future has given what `TerminateProcess` gave.
pub run-answers :
    (es : List Step) (r other : Result (Unit {0}) IoError)
    → (run new es).terminated ≡ some r
    → (run new (es ++ thread_runs other ∷ other_wake ∷ polls ∷ [])).done ≡ some r
unfolding run step
run-answers es r other f =
    let s = run new es in
    let t = on_thread other s s.thread in
    let (w, g) = on_thread-HasTried other s s.thread r refl f (run-IsKill es) in
    ap (λ s. s.done) (run-append new es (thread_runs other ∷ other_wake ∷ polls ∷ []))
    ∙ polls-done (step t other_wake) t.done r refl g w
        (step-IsKill t other_wake (on_thread-IsKill other s s.thread refl (run-IsKill es)))

-- Nothing but the thread of the kill wakes the task.
abbrev pub IsAlone : List Step → Type 0
IsAlone [] = Unit
IsAlone (other_wake ∷ es) = ⊥
IsAlone (polls ∷ es) = IsAlone es
IsAlone (thread_runs r ∷ es) = IsAlone es

-- The thread waits for a poll, and the poll for a wake by the thread.
record IsStuck (s : KillChild) : Type 0 where
  not_done : s.done ≡ none
  asleep : is_some s.thread ≡ true → s.woken ≡ false
  not_waking : s.thread ≢ some waking
  not_gone : s.thread ≢ some gone

new-IsStuck : IsStuck new
unfolding new
new-IsStuck = ground arith

on_poll-IsStuck :
    (s : KillChild) (o : Option (Result (Unit {0}) IoError)) (t : Option Thread)
    → s.done ≡ o
    → s.thread ≡ t
    → s.woken ≡ true
    → IsStuck s
    → IsStuck (on_poll s o)
unfolding poll
on_poll-IsStuck s none none d e on v = ground arith
on_poll-IsStuck s none (some t) d e on v = absurd (ground arith)
on_poll-IsStuck s (some r) t d e on v = v

on_thread-IsStuck :
    (r : Result (Unit {0}) IoError) (s : KillChild) (t : Option Thread)
    → s.thread ≡ t
    → IsStuck s
    → IsStuck (on_thread r s t)
on_thread-IsStuck r s none e v = v
on_thread-IsStuck r s (some terminating) e v = ground arith
on_thread-IsStuck r s (some (returning q)) e v = ground arith
on_thread-IsStuck r s (some (sending q)) e v = v
on_thread-IsStuck r s (some waking) e v = ground arith
on_thread-IsStuck r s (some gone) e v = v

run-IsStuck : (s : KillChild) (es : List Step) → IsAlone es → IsStuck s → IsStuck (run s es)
unfolding run step
run-IsStuck s [] a v = v
run-IsStuck s (polls ∷ es) a v = elim (Bool-cases s.woken) [
  | inl on ↦
      simp on
        (run-IsStuck (on_poll s s.done) es a (on_poll-IsStuck s s.done s.thread refl refl on v))
  | inr off ↦ simp off (run-IsStuck s es a v)
]
run-IsStuck s (thread_runs r ∷ es) a v =
    run-IsStuck (on_thread r s s.thread) es a (on_thread-IsStuck r s s.thread refl v)
run-IsStuck s (other_wake ∷ es) a v = absurd a

-- Left to itself `kill` never gives a result, however long it runs and whatever `TerminateProcess`
-- gives: the thread wakes the task only behind its send, a send on a channel with no room returns
-- only with a receive, and the future receives only when it is polled again.
pub run-hangs : (es : List Step) → IsAlone es → (run new es).done ≡ none
run-hangs es a = (run-IsStuck new es a new-IsStuck).not_done
