-- ===== src/Wire/OwnerLogs.antt =====
-- The whole way of the output of a job: from the child's streams through the tasks of the job, the
-- handlers, the network and the stub to the two outputs of the client of its owner.
use rust_job_runner.Common.{
  ℕ, ◌≤◌, ◌≡◌, ◌≢◌, refl, sym, ap, subst, ◌∙◌, String, true, none, some, Result, ok, List, [], ◌∷◌,
  ◌++◌, concat, length, suc, lookup,
}
use rust_job_runner.Types.{Ctx, OsString, DateTime, Job}
use rust_job_runner.Frames.{Bytes, FrameEvent, stdout, stderr}
use rust_job_runner.Spawn.{returned}
use rust_job_runner.Channel.{Mpsc}
use rust_job_runner.Output.{consume}
use rust_job_runner.Output.Stream.{stream_of, Chunks}
use rust_job_runner.Tracker.{Tracker, Event, track}
use rust_job_runner.Tracker.Passed.{IsSchedule}
use rust_job_runner.Tracker.Invariant.{run-IsTracking}
use rust_job_runner.Tracker.Requests.{arrived}
use rust_job_runner.Tracker.Requests
use rust_job_runner.Relay.{Relay, FrameRequest, Turn}
use rust_job_runner.Relay.Progress.{rounds}
use rust_job_runner.Broadcast.Clients.{relay_port}
use rust_job_runner.Runtime.{Step, request, start, step, run}
use rust_job_runner.Runtime.Trace.{trace, run-start-tracker}
use rust_job_runner.Runtime.Drained.{receives}
use rust_job_runner.Pb.{Timestamp}
use rust_job_runner.Coord.{Memory}
use rust_job_runner.Coord.Access.{owner_served}
use rust_job_runner.Grpc.Stream.{forward}
use rust_job_runner.Grpc.Service.{Env, memory_coordinator}
use rust_job_runner.Client.{done, play, main, must_ok}
use rust_job_runner.Client
use rust_job_runner.Client.Demux.{messages, HasShown}
use rust_job_runner.Client.EndToEnd.{from_stdout, from_stderr, to_the_end, reads}
use rust_job_runner.Client.Replayed.{run-replayed}
use rust_job_runner.Wire.{Codec, Tonic}
use rust_job_runner.Wire.Seen.{shown_answer}
use rust_job_runner.Wire.Commands.{logs-shows}
use rust_job_runner.Wire.Callers.{connected, IsSmall}

module _ {B Rx Encodings : Type 0} {C : Codec B} (T : Tonic B Rx C) (no_encodings : Encodings)
    (parse : Bytes → Result String String) (os : String → OsString)
    (timestamp : DateTime → Timestamp) (shown : Rx → List Client.Message) where
  -- The client of the owner is given the log stream that the broadcaster opened.
  pub owner-plays :
      (env : Env Rx) (m : Memory) (cert : Bytes) (subject id : String) (t : Tracker) (rx : Rx)
      → parse cert ≡ ok subject
      → id ≢ ""
      → lookup id m.jobs ≡ some t
      → t.job.user.id ≡ subject
      → env.accepted ≡ true
      → env.rx ≡ arrived rx
      → IsSmall T no_encodings parse os timestamp shown
          (C.logs_request.encode (record { job_id = id }))
      → main
          (connected T no_encodings parse os timestamp shown env m (some (cert ∷ [])))
          (Client.logs id)
        ≡ play (shown rx)
  unfolding Requests.stream
  owner-plays env m cert subject id t rx read named found owner open_tx came small =
      let ctx : Ctx = record { user = record { id = subject } } in
      let (_, served, _) =
        owner_served m ctx (record { value = id }) t env.accepted env.rx env.answer found owner in
      logs-shows T no_encodings parse os timestamp shown (memory_coordinator env) m cert subject
        read id named small
      ∙ ap (λ r. shown_answer T.broken (λ rx. play (shown rx)) (returned r)) served
      ∙ rw (open_tx, came) refl

-- What the client reads from the stream of a relay within `n` rounds; its writes succeed.
abbrev pub stream_of_relay :
    (M : Mpsc FrameEvent) → String → ℕ → Relay (M.Chan) → List Client.Message
stream_of_relay M text n r = messages (forward text (reads (rounds M n r).taken)).0

module _ (M : Mpsc FrameEvent) {B Encodings : Type 0} {C : Codec B} (T : Tonic B (Relay (M.Chan)) C)
    (no_encodings : Encodings) (parse : Bytes → Result String String) (os : String → OsString)
    (timestamp : DateTime → Timestamp) where
  open M use {Chan, queue}

  -- Let the tasks of a job run in any order, with any clients, while the tracker's rounds are a
  -- schedule of its whole task that tokio can run, in which every frame of the two readers is taken and
  -- no error is met; let the chunks of the child's streams be not empty and fit the readers' buffer;
  -- and let the table hold the job's tracker under an id that is not empty. Then the broadcaster, once it
  -- has emptied its channel, opens a stream for a request that waits; and if it does so for the request
  -- of a caller whose certificate names the job's user, then the command `logs` of the caller's client
  -- writes the bytes of the child's stdout to its stdout and those of the stderr to its stderr, and ends
  -- well. The client stays for a round of its relay for each event, its writes succeed, and its request
  -- is within tonic's limit.
  pub owner-HasShown :
      (job : Job) (text : String) (outs errs : List Bytes) (es : List (Step FrameRequest Turn))
      (evs : List Event) (req : FrameRequest) (env : Env (Relay Chan)) (m : Memory) (cert : Bytes)
      (id : String)
      → trace M (relay_port M) (start M (relay_port M) job) es ≡ to_the_end evs
      → IsSchedule (track job) (to_the_end evs)
      → let s = run M (relay_port M) (start M (relay_port M) job) es in
        s.tracker.loop_err ≡ none
        → Chunks outs
        → Chunks errs
        → from_stdout evs ≡ (consume stdout (stream_of outs)).0
        → from_stderr evs ≡ (consume stderr (stream_of errs)).0
        → req.waiting ≡ true
        → parse cert ≡ ok job.user.id
        → id ≢ ""
        → lookup id m.jobs ≡ some s.tracker
        → C.size (C.logs_request.encode (record { job_id = id })) ≤ 4194304
        → let t = run M (relay_port M) s (receives (suc (length (queue s.frames)))) in
          let plays = stream_of_relay M text (length s.tracker.sent) in
          (r : Relay Chan) × ((step M (relay_port M) t (request req)).bcast.detached
            ≡ t.bcast.detached ++ r ∷ [])
          × HasShown
              (main
                (connected T no_encodings parse os timestamp plays
                  (record env { accepted = true; rx = arrived r })
                  m
                  (some (cert ∷ [])))
                (Client.logs id))
              (concat outs)
              (concat errs)
              done
  owner-HasShown job text outs errs es evs req env m cert id made v clean c d o e w read named found
        small =
      let s = run M (relay_port M) (start M (relay_port M) job) es in
      let plays = stream_of_relay M text (length s.tracker.sent) in
      let (r, starts, shown) =
        run-replayed M job text outs errs es evs req made v clean c d o e w in
      let owner =
        ap (λ t. t.job.user.id) (run-start-tracker M (relay_port M) job es)
        ∙ ap (λ u. u.id)
            (run-IsTracking job
              (trace M (relay_port M) (start M (relay_port M) job) es)).same_user in
      (
        r,
        starts,
        subst (λ x. HasShown x (concat outs) (concat errs) done)
            (sym (
              owner-plays T no_encodings parse os timestamp plays
                (record env { accepted = true; rx = arrived r }) m cert job.user.id id s.tracker r
                read named found owner refl refl small))
            shown,
      )
