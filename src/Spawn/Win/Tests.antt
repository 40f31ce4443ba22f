-- ===== src/Spawn/Win/Tests.antt =====
-- Runs of the reader and a command line.
use rust_job_runner.Common.{
  ℕ, Bool, ◌==◌, ◌≡◌, refl, List, [], ◌∷◌, ◌++◌, arith, concat, All, length, ◌<◌,
}
use rust_job_runner.Types.{OsString}
use rust_job_runner.Frames.{Bytes}
use rust_job_runner.Spawn.Win.Args.{win_args, win_args-split}
use rust_job_runner.Spawn.Win.Handle.{new_owned, process, Op, clones, drops, step, run}
use rust_job_runner.Spawn.Win.Reader.{start, poll_read}
use rust_job_runner.Spawn.Win.Reading.{poll, polls, to_come, InRange, polls-bytes}

abbrev echo : OsString
echo = 101 ∷ []

abbrev a : OsString
a = 97 ∷ []

abbrev b : OsString
b = 98 ∷ []

echo_line : win_args (echo ∷ a ∷ b ∷ []) ≡ 101 ∷ 32 ∷ 97 ∷ 32 ∷ 98 ∷ 0 ∷ []
unfolding win_args
echo_line = refl

-- `echo "a b"` and `echo a b`
win_args-split_example : win_args (echo ∷ (97 ∷ 32 ∷ 98 ∷ []) ∷ []) ≡ win_args (echo ∷ a ∷ b ∷ [])
win_args-split_example = win_args-split (echo ∷ []) [] a b

abbrev chunks : List Bytes
chunks = (104 ∷ 105 ∷ 33 ∷ []) ∷ (63 ∷ []) ∷ []

two_polls :
    (polls (2 ∷ 2 ∷ 9 ∷ []) (record { stream = start; queue = chunks })).1
    ≡ 104 ∷ 105 ∷ 33 ∷ 63 ∷ []
unfolding polls poll poll_read start
two_polls = refl

polls-bytes_example :
    let (p, bs) = polls (2 ∷ 2 ∷ []) (record { stream = start; queue = chunks }) in
    (bs ++ to_come p ≡ concat chunks) × InRange p.stream
polls-bytes_example = polls-bytes (2 ∷ 2 ∷ []) chunks

chunks_nonempty : All (λ chunk. 0 < length chunk) chunks
chunks_nonempty = (omega arith, (omega arith, tt))

abbrev is_invalid : ℕ → Bool
is_invalid h = h == 0

abbrev ops : List Op
ops = clones 0 ∷ drops 1 ∷ drops 0 ∷ []

closed_by_owner :
    (run is_invalid (record { handles = new_owned 12 process ∷ []; closed = [] }) ops).closed
    ≡ 12 ∷ []
unfolding run step new_owned
closed_by_owner = refl
