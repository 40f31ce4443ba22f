-- ===== src/Grpc/Forwarded.antt =====
-- What the reader of a reply stream gets.
use rust_job_runner.Common.{
  String, ◌≡◌, refl, ap, true, false, none, some, Result, ok, err, List, [], ◌∷◌, ◌++◌, map,
  append-nil, arith,
}
use rust_job_runner.Frames.{Frame, frame, error, eof, TrackerError}
use rust_job_runner.Pb.{LogFrame}
use rust_job_runner.Grpc.Status.{internal, Status}
use rust_job_runner.Grpc.Convert.{to_log_frame}
use rust_job_runner.Grpc.Stream.{Step, unexpected_end, stream_failed, forward}

-- The steps of a reader that stays: the frames, and what comes behind them.
abbrev pub playing : List Frame → List Step → List Step
playing [] rest = rest
playing (f ∷ frames) rest = (some (frame f), true) ∷ playing frames rest

abbrev pub log_items : List Frame → List (Result LogFrame Status)
log_items frames = map (λ f. ok (to_log_frame f)) frames

forward-playing :
    (text : String) (frames : List Frame) (rest : List Step)
    → forward text (playing frames rest)
      ≡ (log_items frames ++ (forward text rest).0, (forward text rest).1)
unfolding forward
forward-playing text [] rest = refl
forward-playing text (f ∷ frames) rest = ground (arith, forward-playing text frames rest)

-- A reader that stays gets every frame in order, and then: nothing more after the end marker, the
-- error as an internal status after an error, and an internal status if the relay is gone.
pub forward-frames :
    (text : String) (frames : List Frame) (later : List Step) (e : TrackerError)
    → (forward text (playing frames ((some eof, true) ∷ later)) ≡ (log_items frames, true))
      × (forward text (playing frames ((some (error e), true) ∷ later))
          ≡ (log_items frames ++ err (stream_failed text e) ∷ [], true))
      × (forward text (playing frames ((none, true) ∷ later))
          ≡ (log_items frames ++ err unexpected_end ∷ [], true))
unfolding forward
forward-frames text frames later e = (
  rw (forward-playing text frames ((some eof, true) ∷ later)) (ap (λ l. (l, true)) (append-nil _)),
  forward-playing text frames ((some (error e), true) ∷ later),
  forward-playing text frames ((none, true) ∷ later),
)

-- Only the last item can be a status.
abbrev pub IsStream : List (Result LogFrame Status) → Type 0
IsStream [] = Unit {0}
IsStream (ok f ∷ items) = IsStream items
IsStream (err s ∷ items) = (items ≡ []) × (s.code ≡ internal)

-- Whatever the relay and the reader do, at most the last item of the stream is a status, and that
-- status is an internal one.
pub forward-IsStream : (text : String) (steps : List Step) → IsStream (forward text steps).0
unfolding forward
forward-IsStream text [] = tt
forward-IsStream text ((none, true) ∷ steps) = (refl, refl)
forward-IsStream text ((none, false) ∷ steps) = tt
forward-IsStream text ((some (frame f), true) ∷ steps) = forward-IsStream text steps
forward-IsStream text ((some (frame f), false) ∷ steps) = tt
forward-IsStream text ((some (error e), true) ∷ steps) = (refl, refl)
forward-IsStream text ((some (error e), false) ∷ steps) = tt
forward-IsStream text ((some eof, accepted) ∷ steps) = tt
