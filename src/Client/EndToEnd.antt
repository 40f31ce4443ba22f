-- ===== src/Client/EndToEnd.antt =====
-- From a child's output streams, over its tracker, to the client's.
use rust_job_runner.Common.{
  String, ◌≡◌, refl, sym, ap, ◌∙◌, subst, Bool, true, none, some, ok, List, [], ◌∷◌, ◌++◌, map,
  concat,
}
use rust_job_runner.Types.{Job}
use rust_job_runner.Frames.{Frame, FrameEvent, frame, stdout, stderr, eof, read_output, Bytes}
use rust_job_runner.Output.{consume}
use rust_job_runner.Output.Stream.{stream_of, Chunks}
use rust_job_runner.Tracker.{
  Phase, looping, broken, complete, Tracker, stdout_rx, stderr_rx, Event, select, epilogue, track,
  turn, finish, step, run,
}
use rust_job_runner.Tracker.Passed.{IsPossible, IsSchedule, output_of, run-sent}
use rust_job_runner.Grpc.Stream.{Step, forward}
use rust_job_runner.Grpc.Forwarded.{playing}
use rust_job_runner.Client.{done, play}
use rust_job_runner.Client.Demux.{
  IsMerge, nothing, from_out, from_err, messages, HasShown, logs-HasShown,
}

-- What the rounds of the tracker take from the two streams.
abbrev pub from_stdout : List Event → List Frame
from_stdout [] = []
from_stdout (select (stdout_rx (some (ok f)) accepted) ∷ es) = f ∷ from_stdout es
from_stdout (_ ∷ es) = from_stdout es

abbrev pub from_stderr : List Event → List Frame
from_stderr [] = []
from_stderr (select (stderr_rx (some (ok f)) accepted) ∷ es) = f ∷ from_stderr es
from_stderr (_ ∷ es) = from_stderr es

abbrev pub from_both : List Event → List Frame
from_both [] = []
from_both (select (stdout_rx (some (ok f)) accepted) ∷ es) = f ∷ from_both es
from_both (select (stderr_rx (some (ok f)) accepted) ∷ es) = f ∷ from_both es
from_both (_ ∷ es) = from_both es

pub from_both-IsMerge : (es : List Event) → IsMerge (from_stdout es) (from_stderr es) (from_both es)
from_both-IsMerge [] = nothing
from_both-IsMerge (select (stdout_rx (some (ok f)) accepted) ∷ es) =
    from_out f (from_both-IsMerge es)
from_both-IsMerge (select (stderr_rx (some (ok f)) accepted) ∷ es) =
    from_err f (from_both-IsMerge es)
from_both-IsMerge (_ ∷ es) = from_both-IsMerge es

-- A schedule of the whole task, whose last event is sent.
abbrev pub to_the_end : List Event → List Event
to_the_end es = es ++ epilogue true ∷ []

none_behind :
    (s : Tracker) (es : List Event) → s.phase ≡ complete → IsSchedule s (to_the_end es) → ⊥
none_behind s [] l v = subst (λ p. IsPossible p (epilogue true) s) l v.0
none_behind s (e ∷ es) l v = subst (λ p. IsPossible p e s) l v.0

ended-phase :
    (p : Phase) (b : Bool) (s : Tracker)
    → IsPossible p (epilogue b) s
    → (turn p (epilogue b) s).phase ≡ complete
unfolding turn finish
ended-phase broken b s v = refl
ended-phase looping b s v = elim v [ ]
ended-phase complete b s v = elim v [ ]

pub to_the_end-complete :
    (s : Tracker) (es : List Event)
    → IsSchedule s (to_the_end es)
    → (run s (to_the_end es)).phase ≡ complete
unfolding run step
to_the_end-complete s [] v = ended-phase s.phase true s v.0
to_the_end-complete s (e ∷ es) v = to_the_end-complete (step s e) es v.1

output_of-to_the_end :
    (es : List Event) (s : Tracker)
    → IsSchedule s (to_the_end es)
    → output_of (to_the_end es) ≡ map frame (from_both es) ++ eof ∷ []
output_of-to_the_end [] s v = refl
output_of-to_the_end (select (stdout_rx (some (ok f)) a) ∷ es) s v =
    ap (λ l. frame f ∷ l) (output_of-to_the_end es _ v.1)
output_of-to_the_end (select (stderr_rx (some (ok f)) a) ∷ es) s v =
    ap (λ l. frame f ∷ l) (output_of-to_the_end es _ v.1)
output_of-to_the_end (epilogue b ∷ es) s v =
    absurd (none_behind (step s (epilogue b)) es (unfold step in ended-phase s.phase b s v.0) v.1)
output_of-to_the_end (select _ ∷ es) s v = output_of-to_the_end es _ v.1

pub run-sent_to_the_end :
    (job : Job) (es : List Event)
    → IsSchedule (track job) (to_the_end es)
    → (run (track job) (to_the_end es)).loop_err ≡ none
    → (run (track job) (to_the_end es)).sent ≡ map frame (from_both es) ++ eof ∷ []
run-sent_to_the_end job es v h =
    run-sent job (to_the_end es) v h ∙ output_of-to_the_end es (track job) v

-- The steps of the task of `logs` when its relay gives these events and the client stays.
abbrev pub reads : List FrameEvent → List Step
reads evs = map (λ ev. (some ev, true)) evs

reads-frames :
    (frames : List Frame)
    → reads (map frame frames ++ eof ∷ []) ≡ playing frames ((some eof, true) ∷ [])
reads-frames [] = refl
reads-frames (f ∷ frames) = ap (λ l. (some (frame f), true) ∷ l) (reads-frames frames)

-- Let the chunks of a child's two streams be not empty and fit the buffer of the readers, and let its
-- tracker run to the end in any schedule that tokio can run, with every frame of the two readers taken
-- in some round, no error met, and the last send taken. If the relay of a client's `logs` gives all
-- that the tracker sent, and the client stays and its writes succeed, then the client writes the bytes
-- of the child's stdout to its stdout and those of the stderr to its stderr, and ends well.
pub run-HasShown :
    (job : Job) (text : String) (outs errs : List Bytes) (es : List Event)
    → IsSchedule (track job) (to_the_end es)
    → (run (track job) (to_the_end es)).loop_err ≡ none
    → Chunks outs
    → Chunks errs
    → from_stdout es ≡ (consume stdout (stream_of outs)).0
    → from_stderr es ≡ (consume stderr (stream_of errs)).0
    → HasShown
        (play (messages (forward text (reads (run (track job) (to_the_end es)).sent)).0))
        (concat outs)
        (concat errs)
        done
run-HasShown job text outs errs es v h c d o e =
    let sent = run-sent_to_the_end job es v h in
    let same = ap reads sent ∙ reads-frames (from_both es) in
    let m =
      subst (λ x. IsMerge x (consume stderr (stream_of errs)).0 (from_both es)) o
        (subst (λ y. IsMerge (from_stdout es) y (from_both es)) e (from_both-IsMerge es)) in
    subst (λ l. HasShown (play (messages (forward text l).0)) (concat outs) (concat errs) done)
      (sym same) (logs-HasShown text outs errs (from_both es) (read_output stdout "") c d m).0
