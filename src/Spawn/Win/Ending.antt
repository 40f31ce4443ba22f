-- ===== src/Spawn/Win/Ending.antt =====
-- What the thread that reads a pipe on Windows sends.
use rust_job_runner.Common.{
  ◌<◌, ◌≡◌, refl, Bool, true, ok, List, [], ◌∷◌, ◌++◌, map, arith, length, All,
}
use rust_job_runner.Frames.{Bytes}
use rust_job_runner.Spawn.Win.Reader.{ReadFile, filled, broken_pipe, read_handle}

-- Calls that fill part of the buffer, then the broken pipe with nothing read. Each send is `Ok`.
abbrev pub pipe_of : List Bytes → List (ReadFile × Bool) → List (ReadFile × Bool)
pipe_of [] later = (broken_pipe [], true) ∷ later
pipe_of (chunk ∷ chunks) later = (filled chunk, true) ∷ pipe_of chunks later

-- The thread sends the chunks of a pipe in order, then one empty chunk, the end of the stream to
-- whoever reads it; then it ends, whatever the pipe would give later.
pub read_handle-chunks :
    (chunks : List Bytes) (later : List (ReadFile × Bool))
    → All (λ chunk. 0 < length chunk) chunks
    → read_handle (pipe_of chunks later) ≡ (map (λ bs. ok bs) chunks ++ ok [] ∷ [], true)
unfolding read_handle
read_handle-chunks [] later v = refl
read_handle-chunks (chunk ∷ chunks) later (h, v) = ground (arith, read_handle-chunks chunks later v)
