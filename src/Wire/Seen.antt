-- ===== src/Wire/Seen.antt =====
-- What a client makes of the replies of the server's methods.
use Prim.Native.String.{◌++◌}
use rust_job_runner.Common.{
  ◌≡◌, refl, String, Option, none, some, Result, ok, err, List, inl, inr, Option-cases,
}
use rust_job_runner.Common.Int.{ℤ}
use rust_job_runner.Types.{DateTime, Job, JobState, running, exited}
use rust_job_runner.Spawn.{Outcome, returned, panicked}
use rust_job_runner.Pb.{
  Timestamp, SpawnRequest, LogsRequest, PsRequest, KillRequest, SpawnResponse, PsResponse,
  KillResponse,
}
use rust_job_runner.Pb
use rust_job_runner.Coord.{Error}
use rust_job_runner.Grpc.Status.{Status, from_error}
use rust_job_runner.Grpc.Requests.{show_usize}
use rust_job_runner.Grpc.Convert.{to_job, to_state, with_state}
use rust_job_runner.Grpc.Service.{reply, log_reply}
use rust_job_runner.Client.{Shown, stop, println, play, main, must_ok, with_job, printed, print_job}
use rust_job_runner.Client
use rust_job_runner.Client.Show.{show_i32, show_state}
use rust_job_runner.Wire.{given}
use rust_job_runner.Wire.Callers.{map_ok}

-- Without an exit code the server has panicked, and the client logs the status of a broken connection.
abbrev pub with_code : Status → Option ℤ → (ℤ → Shown) → Shown
with_code broken (some code) shown = shown code
with_code broken none shown = stop (Client.exited 1 broken)

-- What is to be seen of a job by `ps` and `kill`, and by `run`.
abbrev pub shown_as : Status → JobState → Shown
shown_as broken (running pid) = println ("Running pid=" ++ show_usize pid.pid)
shown_as broken (exited status) =
    with_code broken status.code λ code. println ("Exited code=" ++ show_i32 code)

abbrev pub started_as : Status → String → JobState → Shown
started_as broken id (running pid) = println id
started_as broken id (exited status) = with_code broken status.code λ code. println id

-- An answer of the coordinator; the status of an error, or that of a broken connection behind a panic,
-- is logged with the client's exit code 1.
abbrev pub shown_answer : {A : Type 0} → Status → (A → Shown) → Outcome (Result A Error) → Shown
shown_answer broken shown (returned (ok a)) = shown a
shown_answer broken shown (returned (err e)) = stop (Client.exited 1 (from_error e))
shown_answer broken shown panicked = stop (Client.exited 1 broken)

module _ (timestamp : DateTime → Timestamp) (broken : Status) where
  module _ {R : Type 0} (response : Pb.Job → R) (job_of : R → Option Pb.Job)
      (same_job : (j : Pb.Job) → job_of (response j) ≡ some j) where
    -- What the client makes of a reply that crosses the network.
    abbrev pub sees : (Pb.Job → Shown) → Outcome (Result R Status) → Shown
    sees show out = must_ok (given broken out) (λ r. with_job (job_of r) show)

    sees-state :
        (job : Job) (state : JobState)
        → job.state ≡ state
        → sees (λ j. printed (print_job j)) (reply timestamp response (returned (ok job)))
          ≡ shown_as broken state
    unfolding reply to_job to_state must_ok with_job print_job show_state with_state
    sees-state job (running pid) e = simp (e, same_job) refl
    sees-state job (exited status) e = elim (Option-cases status.code) [
      | inl missing ↦ simp (e, missing) refl
      | inr (code, there) ↦ simp (e, there, same_job) refl
    ]

    sees-id :
        (job : Job) (state : JobState)
        → job.state ≡ state
        → sees (λ j. println j.id) (reply timestamp response (returned (ok job)))
          ≡ started_as broken job.id.value state
    unfolding reply to_job to_state must_ok with_job with_state
    sees-id job (running pid) e = simp (e, same_job) refl
    sees-id job (exited status) e = elim (Option-cases status.code) [
      | inl missing ↦ simp (e, missing) refl
      | inr (code, there) ↦ simp (e, there, same_job) refl
    ]

    sees-answer :
        (show : Pb.Job → Shown) (shown : Job → Shown)
        → ((job : Job) → sees show (reply timestamp response (returned (ok job))) ≡ shown job)
        → (out : Outcome (Result Job Error))
        → sees show (reply timestamp response out) ≡ shown_answer broken shown out
    unfolding reply must_ok
    sees-answer show shown same panicked = refl
    sees-answer show shown same (returned (err e)) = refl
    sees-answer show shown same (returned (ok job)) = same job

    pub state-answer :
        (out : Outcome (Result Job Error))
        → sees (λ j. printed (print_job j)) (reply timestamp response out)
          ≡ shown_answer broken (λ job. shown_as broken job.state) out
    state-answer =
        sees-answer (λ j. printed (print_job j)) (λ job. shown_as broken job.state)
          (λ job. sees-state job job.state refl)

    pub id-answer :
        (out : Outcome (Result Job Error))
        → sees (λ j. println j.id) (reply timestamp response out)
          ≡ shown_answer broken (λ job. started_as broken job.id.value job.state) out
    id-answer =
        sees-answer (λ j. println j.id) (λ job. started_as broken job.id.value job.state)
          (λ job. sees-id job job.state refl)

  pub plays-answer :
      {Rx : Type 0} (messages : Rx → List Client.Message) (out : Outcome (Result Rx Error))
      → must_ok (map_ok messages (given broken (log_reply out))) play
        ≡ shown_answer broken (λ rx. play (messages rx)) out
  unfolding log_reply must_ok
  plays-answer messages panicked = refl
  plays-answer messages (returned (err e)) = refl
  plays-answer messages (returned (ok rx)) = refl
