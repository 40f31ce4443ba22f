-- ===== src/Client/Replayed.antt =====
-- The output of a job, from the child's streams through all tasks of the job to a client that asks
-- for the logs when the job is over.
use rust_job_runner.Common.{
  String, ◌≡◌, sym, ap, ◌∙◌, subst, true, none, List, [], ◌∷◌, ◌++◌, concat, length, suc,
}
use rust_job_runner.Types.{Job}
use rust_job_runner.Frames.{FrameEvent, stdout, stderr, Bytes}
use rust_job_runner.Channel.{Mpsc}
use rust_job_runner.Output.{consume}
use rust_job_runner.Output.Stream.{stream_of, Chunks}
use rust_job_runner.Tracker.{Event, track, complete}
use rust_job_runner.Tracker
use rust_job_runner.Tracker.Passed.{IsSchedule}
use rust_job_runner.Relay.{Relay, FrameRequest, Turn}
use rust_job_runner.Relay.Progress.{rounds}
use rust_job_runner.Broadcast.Clients.{relay_port}
use rust_job_runner.Runtime.{Step, request, start, step, run}
use rust_job_runner.Runtime.Trace.{trace, run-start-tracker}
use rust_job_runner.Runtime.Drained.{receives, run-replays}
use rust_job_runner.Grpc.Stream.{forward}
use rust_job_runner.Client.{done, play}
use rust_job_runner.Client.Demux.{messages, HasShown}
use rust_job_runner.Client.EndToEnd.{
  from_stdout, from_stderr, to_the_end, to_the_end-complete, reads, run-HasShown,
}

module _ (M : Mpsc FrameEvent) where
  open M use {Chan, queue}

  -- Let the tasks of a job run in any order, with any clients, while the tracker's rounds are a
  -- schedule of its whole task that tokio can run, in which every frame of the two readers is taken and
  -- no error is met; and let the chunks of the child's streams be not empty and fit the readers' buffer.
  -- Then a client that asks for the logs afterwards, once the broadcaster has emptied its channel, gets
  -- a relay of its own; and if it stays and its writes succeed, then within one round of that relay for
  -- each event it has written the bytes of the child's stdout to its stdout and those of the stderr to
  -- its stderr, and has ended well.
  pub run-replayed :
      (job : Job) (text : String) (outs errs : List Bytes) (es : List (Step FrameRequest Turn))
      (evs : List Event) (req : FrameRequest)
      → trace M (relay_port M) (start M (relay_port M) job) es ≡ to_the_end evs
      → IsSchedule (track job) (to_the_end evs)
      → let s = run M (relay_port M) (start M (relay_port M) job) es in
        s.tracker.loop_err ≡ none
        → Chunks outs
        → Chunks errs
        → from_stdout evs ≡ (consume stdout (stream_of outs)).0
        → from_stderr evs ≡ (consume stderr (stream_of errs)).0
        → req.waiting ≡ true
        → let t = run M (relay_port M) s (receives (suc (length (queue s.frames)))) in
          (r : Relay Chan) × ((step M (relay_port M) t (request req)).bcast.detached
            ≡ t.bcast.detached ++ r ∷ [])
          × HasShown
              (play (messages (forward text (reads (rounds M (length s.tracker.sent) r).taken)).0))
              (concat outs)
              (concat errs)
              done
  run-replayed job text outs errs es evs req made v clean c d o e w =
      let s = run M (relay_port M) (start M (relay_port M) job) es in
      let whole = run-start-tracker M (relay_port M) job es ∙ ap (Tracker.run (track job)) made in
      let over = ap (λ t. t.phase) whole ∙ to_the_end-complete (track job) evs v in
      let (r, starts, all) = run-replays M job es req over w in
      let shown =
        run-HasShown job text outs errs evs v (ap (λ t. t.loop_err) (sym whole) ∙ clean) c d o e in
      let sent = all ∙ ap (λ t. t.sent) whole in
      (
        r,
        starts,
        subst
            (λ l.
              HasShown (play (messages (forward text (reads l)).0)) (concat outs) (concat errs)
                done)
            (sym sent) shown,
      )
