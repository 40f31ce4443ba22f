-- ===== src/Output/Tests.antt =====
-- Streams of two chunks.
use rust_job_runner.Common.{◌≡◌, refl, true, Bool, err, ok, List, [], ◌∷◌, All, arith}
use rust_job_runner.Frames.{stdout, read_output, Bytes}
use rust_job_runner.Output.{Read, filled, failed, consume, consume_output}
use rust_job_runner.Output.Stream.{Chunks, FitsBuffer, IsFrameOf, consume-IsFrameOf}

abbrev chunks : List Bytes
chunks = (104 ∷ 105 ∷ []) ∷ (33 ∷ []) ∷ []

chunks_fit : Chunks chunks
chunks_fit = ((omega arith, omega arith), ((omega arith, omega arith), tt))

abbrev broken_read : List (Read × Bool)
broken_read = (filled (1 ∷ []), true) ∷ (failed "broken", true) ∷ []

broken_read_sent :
    consume_output stdout broken_read true
    ≡ ok (record { kind = stdout; bs = 1 ∷ [] }) ∷ err (read_output stdout "broken") ∷ []
unfolding consume_output
broken_read_sent = refl

broken_read_fits : All FitsBuffer broken_read
broken_read_fits = (omega arith, (tt, tt))

consume-IsFrameOf_example : All (IsFrameOf stdout) (consume stdout broken_read).0
consume-IsFrameOf_example = consume-IsFrameOf stdout broken_read broken_read_fits
