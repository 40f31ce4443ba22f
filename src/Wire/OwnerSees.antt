-- ===== src/Wire/OwnerSees.antt =====
-- What the owner of a job sees of it by the commands `ps` and `kill`, over the whole way to the table
-- and back.

use rust_job_runner.Common.{
  ◌≡◌, ◌≢◌, refl, sym, ap, ◌∙◌, String, Bool, true, false, some, Result, ok, err, List, [], ◌∷◌,
  lookup, subst,
}
use rust_job_runner.Types.{Ctx, OsString, DateTime, Job, JobId}
use rust_job_runner.Frames.{Bytes, IoError}
use rust_job_runner.Spawn.{Outcome, returned}
use rust_job_runner.Tracker.{Tracker}
use rust_job_runner.Tracker.Requests.{Waited, elapsed, dropped, arrived, req_send_failed}
use rust_job_runner.Tracker.Requests
use rust_job_runner.Pb.{Timestamp, PsResponse, KillResponse}
use rust_job_runner.Coord.{Memory, kill_result}
use rust_job_runner.Coord.Access.{owner_served}
use rust_job_runner.Grpc.Status.{Status, status, internal, not_found, from_error}
use rust_job_runner.Grpc.Service.{Env, memory_coordinator, reply}
use rust_job_runner.Client.{Shown, stop, println, main, must_ok, with_job, printed, print_job}
use rust_job_runner.Client
use rust_job_runner.Wire.{Codec, Tonic}
use rust_job_runner.Wire.Served.{Answers}
use rust_job_runner.Wire.Seen.{shown_as, shown_answer}
use rust_job_runner.Wire.Commands.{ps-shows, kill-shows}
use rust_job_runner.Wire.Callers.{server, connected, IsSmall}

-- What is to be seen of a kill: the job that the tracker answers with, if it takes the request and
-- answers in time. Else the client logs a status and has exit code 1; a job whose tracker takes no
-- more requests is told as one that is not found.
abbrev pub shown_kill : Status → Bool → Waited (Result Job IoError) → Shown
shown_kill broken true (arrived (ok job)) = shown_as broken job.state
shown_kill broken true _ = stop (Client.exited 1 (status internal ""))
shown_kill broken false _ = stop (Client.exited 1 (status not_found "job not found"))

kill-answer :
    (broken : Status) (id : JobId) (accepted : Bool) (answer : Waited (Result Job IoError))
    → shown_answer broken
        (λ job. shown_as broken job.state)
        (returned (kill_result id (Requests.kill accepted answer)))
      ≡ shown_kill broken accepted answer
unfolding from_error kill_result Requests.kill Requests.kill_answer
kill-answer broken id false answer = refl
kill-answer broken id true elapsed = refl
kill-answer broken id true dropped = refl
kill-answer broken id true (arrived (err e)) = refl
kill-answer broken id true (arrived (ok job)) = refl

module _ {B Rx Encodings : Type 0} {C : Codec B} (T : Tonic B Rx C) (no_encodings : Encodings)
    (parse : Bytes → Result String String) (os : String → OsString)
    (timestamp : DateTime → Timestamp) (messages : Rx → List Client.Message) where
  -- What the handlers make of a job, or of the answer to a kill.
  abbrev pub ps_reply : Job → Outcome (Result PsResponse Status)
  ps_reply job = reply timestamp (λ j. record { job = some j }) (returned (ok job))

  abbrev pub kill_reply : JobId → Env Rx → Outcome (Result KillResponse Status)
  kill_reply id env =
      reply timestamp (λ j. record { job = some j })
        (returned (kill_result id (Requests.kill env.accepted env.answer)))

  -- What the command `ps` writes for the owner of a job tells where the job is in its life: the pid of
  -- a job that runs, the exit code of one that has exited, and nothing but the client's exit code 1 when
  -- the job has exited without a code, since the server's conversion then panics. The command `kill`
  -- tells the same of the job that the tracker answers with, and ends with exit code 1 when the tracker
  -- does not take the request, does not answer in time, drops it or answers with an error; the status in
  -- its log then is that of a job that is not found, or an internal one. The
  -- certificate names the job's user, the job is in the table under an id that is not empty, and the
  -- requests and the replies are within tonic's limit.
  pub owner-sees :
      (env : Env Rx) (m : Memory) (cert : Bytes) (subject id : String) (t : Tracker)
      → parse cert ≡ ok subject
      → id ≢ ""
      → lookup id m.jobs ≡ some t
      → t.job.user.id ≡ subject
      → IsSmall T no_encodings parse os timestamp messages
          (C.ps_request.encode (record { job_id = id }))
      → IsSmall T no_encodings parse os timestamp messages
          (C.kill_request.encode (record { job_id = id }))
      → let host = server T no_encodings parse os timestamp messages env in
        Answers T host parse C.ps_response (ps_reply t.job)
        → Answers T host parse C.kill_response (kill_reply (record { value = id }) env)
        → let store =
            connected T no_encodings parse os timestamp messages env m (some (cert ∷ [])) in
          (main store (Client.ps id) ≡ shown_as T.broken t.job.state)
          × (main store (Client.kill id) ≡ shown_kill T.broken env.accepted env.answer)
  owner-sees env m cert subject id t read named found owner p k shown killed =
      let ctx : Ctx = record { user = record { id = subject } } in
      let (snapshot, _, passed_on) =
        owner_served m ctx (record { value = id }) t env.accepted env.rx env.answer found owner in
      let host = server T no_encodings parse os timestamp messages env in
      (
        ps-shows T no_encodings parse os timestamp messages (memory_coordinator env) m cert subject
              read id named p
              (subst
                (λ r.
                  Answers T host parse C.ps_response
                    (reply timestamp (λ j. record { job = some j }) (returned r)))
                (sym snapshot) shown)
            ∙ ap (λ r. shown_answer T.broken (λ job. shown_as T.broken job.state) (returned r))
                snapshot,
        kill-shows T no_encodings parse os timestamp messages (memory_coordinator env) m cert
              subject read id named k
              (subst
                (λ r.
                  Answers T host parse C.kill_response
                    (reply timestamp (λ j. record { job = some j }) (returned r)))
                (sym passed_on) killed)
            ∙ ap (λ r. shown_answer T.broken (λ job. shown_as T.broken job.state) (returned r))
                passed_on
            ∙ kill-answer T.broken (record { value = id }) env.accepted env.answer,
      )
