-- ===== src/Client/Demux.antt =====
-- From the child's output streams to the client's.
use rust_job_runner.Common.{
  String, ◌≡◌, refl, sym, ap, subst, ◌∙◌, true, none, some, Result, ok, err, List, [], ◌∷◌, ◌++◌,
  map, concat, append-nil, append_assoc, All,
}
use rust_job_runner.Frames.{
  Frame, FrameEvent, StreamKind, stdout, stderr, eof, error, TrackerError, Bytes,
}
use rust_job_runner.Output.{frame_new, consume}
use rust_job_runner.Output.Stream.{stream_of, Chunks, bytes_of, consume-stream_of, bytes_of-consume}
use rust_job_runner.Pb.{LogFrame}
use rust_job_runner.Grpc.Status.{Status}
use rust_job_runner.Grpc.Convert.{to_log_frame}
use rust_job_runner.Grpc.Stream.{stream_failed, forward}
use rust_job_runner.Grpc.Forwarded.{playing, log_items, forward-frames}
use rust_job_runner.Client.{Ended, done, exited, Message, flushed, Shown, play}

-- The third list holds the members of the first two, each in its order.
pub data IsMerge : List Frame → List Frame → List Frame → Type 0 where
  nothing : IsMerge [] [] []
  from_out : (f : Frame) {xs ys zs : List Frame} → IsMerge xs ys zs → IsMerge (f ∷ xs) ys (f ∷ zs)
  from_err : (f : Frame) {xs ys zs : List Frame} → IsMerge xs ys zs → IsMerge xs (f ∷ ys) (f ∷ zs)

-- What the client's stub gives for a reply stream, as tonic documents it: the items in order, and
-- `None` at the end. Every write of the client succeeds.
abbrev pub messages : List (Result LogFrame Status) → List Message
messages [] = (ok none, flushed) ∷ []
messages (ok f ∷ items) = (ok (some f), flushed) ∷ messages items
messages (err s ∷ items) = (err s, flushed) ∷ messages items

abbrev pub IsOf : StreamKind → Frame → Type 0
IsOf kind f = f.kind ≡ kind

map-IsOf : (kind : StreamKind) (chunks : List Bytes) → All (IsOf kind) (map (frame_new kind) chunks)
unfolding frame_new
map-IsOf kind [] = tt
map-IsOf kind (c ∷ chunks) = (refl, map-IsOf kind chunks)

-- The bytes of the two streams stand in front of what the rest of the items shows.
abbrev Splits : List Frame → List Frame → Shown → Shown → Type 0
Splits xs ys s rest =
    (s.out ≡ bytes_of xs ++ rest.out) × (s.errs ≡ bytes_of ys ++ rest.errs) × (s.ended ≡ rest.ended)

play-Splits :
    {xs ys zs : List Frame} (rest : List (Result LogFrame Status))
    → IsMerge xs ys zs
    → All (IsOf stdout) xs
    → All (IsOf stderr) ys
    → Splits xs ys (play (messages (log_items zs ++ rest))) (play (messages rest))
unfolding play to_log_frame
play-Splits rest nothing v w = (refl, refl, refl)
play-Splits rest (from_out f {xs} m) (k, v) w =
    let (o, e, d) = play-Splits rest m v w in
    rw k (ap (λ l. f.bs ++ l) o ∙ sym (append_assoc f.bs (bytes_of xs) _), e, d)
play-Splits rest (from_err f {ys = ys} m) v (k, w) =
    let (o, e, d) = play-Splits rest m v w in
    rw k (o, ap (λ l. f.bs ++ l) e ∙ sym (append_assoc f.bs (bytes_of ys) _), d)

-- The frames of a stream, by the reader of Output.
abbrev pub frames_of : StreamKind → List Bytes → List Frame
frames_of kind chunks = (consume kind (stream_of chunks)).0

pub frames_of-IsOf :
    (kind : StreamKind) (chunks : List Bytes)
    → Chunks chunks
    → All (IsOf kind) (frames_of kind chunks)
frames_of-IsOf kind chunks v =
    subst (λ c. All (IsOf kind) c.0) (sym (consume-stream_of kind chunks v)) (map-IsOf kind chunks)

-- The client has written these bytes to its two outputs, and stands so.
abbrev pub HasShown : Shown → Bytes → Bytes → Ended → Type 0
HasShown s out errs ended = (s.out ≡ out) × (s.errs ≡ errs) × (s.ended ≡ ended)

merged-HasShown :
    (outs errs : List Bytes) (frames : List Frame) (rest : List (Result LogFrame Status))
    (e : Ended)
    → Chunks outs
    → Chunks errs
    → IsMerge (frames_of stdout outs) (frames_of stderr errs) frames
    → HasShown (play (messages rest)) [] [] e
    → HasShown (play (messages (log_items frames ++ rest))) (concat outs) (concat errs) e
merged-HasShown outs errs frames rest e v w m (a, b, c) =
    let (o, p, d) =
      play-Splits rest m (frames_of-IsOf stdout outs v) (frames_of-IsOf stderr errs w) in
    (
      o
          ∙ ap (λ l. bytes_of (frames_of stdout outs) ++ l) a
          ∙ append-nil _
          ∙ bytes_of-consume stdout outs v,
      p
          ∙ ap (λ l. bytes_of (frames_of stderr errs) ++ l) b
          ∙ append-nil _
          ∙ bytes_of-consume stderr errs w,
      d ∙ c,
    )

-- The items that the task of `logs` sends for these frames and this last event.
abbrev pub reply_items : String → List Frame → FrameEvent → List (Result LogFrame Status)
reply_items text frames ev = (forward text (playing frames ((some ev, true) ∷ []))).0

-- Let the chunks of a child's two streams be not empty and fit the buffer of the reader, and every
-- write of the client succeed. If the frames of the two streams reach the task of `logs` in any interleaving, and then the
-- end marker, then the command `logs` of the client writes the bytes of the child's stdout to its
-- stdout and those of the stderr to its stderr, and ends well. If an error comes in place of the end
-- marker, it writes the same, logs the status of that error
-- and exits with code 1.
pub logs-HasShown :
    (text : String) (outs errs : List Bytes) (frames : List Frame) (e : TrackerError)
    → Chunks outs
    → Chunks errs
    → IsMerge (consume stdout (stream_of outs)).0 (consume stderr (stream_of errs)).0 frames
    → HasShown (play (messages (reply_items text frames eof))) (concat outs) (concat errs) done
      × HasShown
          (play (messages (reply_items text frames (error e))))
          (concat outs)
          (concat errs)
          (exited 1 (stream_failed text e))
unfolding play
logs-HasShown text outs errs frames e v w m =
    let (ends, fails, _) = forward-frames text frames [] e in
    (
      subst (λ i. HasShown (play (messages i.0)) (concat outs) (concat errs) done)
          (ap (λ l. (l, true)) (append-nil (log_items frames)) ∙ sym ends)
          (merged-HasShown outs errs frames [] done v w m (refl, refl, refl)),
      subst
          (λ i.
            HasShown (play (messages i.0)) (concat outs) (concat errs)
              (exited 1 (stream_failed text e)))
          (sym fails)
          (merged-HasShown outs errs frames _ (exited 1 (stream_failed text e)) v w m
            (refl, refl, refl)),
    )
