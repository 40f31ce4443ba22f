-- ===== src/Output/Stream.antt =====
-- The bytes of a stream are the bytes of its frames.
use rust_job_runner.Common.{
  ◌≤◌, ◌<◌, ◌≡◌, refl, ap, Bool, true, List, [], ◌∷◌, map, arith, length, concat, All,
}
use rust_job_runner.Frames.{StreamKind, Frame, Bytes}
use rust_job_runner.Output.{Read, filled, failed, finished, buf_size, frame_new, consume}

-- Reads that fill part of the buffer, each passed on; then the end of the stream.
abbrev pub stream_of : List Bytes → List (Read × Bool)
stream_of [] = (filled [], true) ∷ []
stream_of (chunk ∷ chunks) = (filled chunk, true) ∷ stream_of chunks

abbrev pub Chunks : List Bytes → Type 0
Chunks = All (λ chunk. (0 < length chunk) × (length chunk ≤ buf_size))

abbrev pub bytes_of : List Frame → Bytes
bytes_of frames = concat (map (λ f. f.bs) frames)

-- The frames of a stream that ends are its chunks, all of the stream's kind.
pub consume-stream_of :
    (kind : StreamKind) (chunks : List Bytes)
    → Chunks chunks
    → consume kind (stream_of chunks) ≡ (map (frame_new kind) chunks, finished)
unfolding consume
consume-stream_of kind [] v = refl
consume-stream_of kind (chunk ∷ chunks) v = ground (arith, consume-stream_of kind chunks v.1)

map-bs :
    (kind : StreamKind) (chunks : List Bytes)
    → map (λ f. f.bs) (map (frame_new kind) chunks) ≡ chunks
unfolding frame_new
map-bs kind [] = refl
map-bs kind (chunk ∷ chunks) = ap (λ l. chunk ∷ l) (map-bs kind chunks)

-- When each read gives a chunk that is not empty and fits the buffer, each frame is taken, and the
-- stream then ends, the bytes of the frames are the bytes of the stream: none lost, added or moved.
pub bytes_of-consume :
    (kind : StreamKind) (chunks : List Bytes)
    → Chunks chunks
    → bytes_of (consume kind (stream_of chunks)).0 ≡ concat chunks
bytes_of-consume kind chunks v =
    rw (consume-stream_of kind chunks v) (ap concat (map-bs kind chunks))

-- What the contract of `read` says of a step: at most the buffer is filled.
abbrev pub FitsBuffer : Read × Bool → Type 0
FitsBuffer (filled bs, accepted) = length bs ≤ buf_size
FitsBuffer (failed e, accepted) = Unit

abbrev pub IsFrameOf : StreamKind → Frame → Type 0
IsFrameOf kind f = (f.kind ≡ kind) × (0 < length f.bs) × (length f.bs ≤ buf_size)

-- If no read gives more than the buffer holds, then whatever the reads and the sends give, a frame is
-- never empty, never larger than the buffer, and is of its stream's kind.
pub consume-IsFrameOf :
    (kind : StreamKind) (steps : List (Read × Bool))
    → All FitsBuffer steps
    → All (IsFrameOf kind) (consume kind steps).0
unfolding consume
consume-IsFrameOf kind [] v = tt
consume-IsFrameOf kind ((failed e, a) ∷ rest) v = tt
consume-IsFrameOf kind ((filled bs, a) ∷ rest) v = ground (arith, consume-IsFrameOf kind rest v.1)
