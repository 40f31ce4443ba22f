-- ===== src/Spawn/Win/Reader.antt =====
-- src/proc/spawn/win.rs: `WinHandleOutputStream`, the thread that reads a pipe and the future that
-- hands its bytes on.
use Prim.Native.String.{◌++◌}
use rust_job_runner.Common.{String}
use Prim.Native.Nat.{min}
use rust_job_runner.Common.{
  ℕ, ◌+◌, ◌-◌, Bool, true, false, Result, ok, err, List, [], ◌∷◌, leb, ◌==◌, length, take, drop,
  if◌then◌else◌,
}
use rust_job_runner.Frames.{Bytes, IoError}

-- `ReadFile`: the bytes read, the same behind the error of a broken pipe, or another error.
pub data ReadFile : Type 0 where
  filled : Bytes → ReadFile
  broken_pipe : Bytes → ReadFile
  failed : String → ReadFile

-- The end of an iteration, before what the later ones send.
unfoldable pub on_bytes :
    Bytes → Bool → List (Result Bytes IoError) × Bool → List (Result Bytes IoError) × Bool
on_bytes bs false later = ([], true)
on_bytes bs true (items, ended) =
    if length bs == 0 then (ok bs ∷ [], true) else (ok bs ∷ items, ended)

-- The loop of `read_handle`: what goes into the channel, and whether the thread has ended when the
-- calls run out. Each call comes with whether the send behind it was `Ok`.
unfoldable pub read_handle : List (ReadFile × Bool) → List (Result Bytes IoError) × Bool
unfolding on_bytes
read_handle [] = ([], false)
read_handle ((failed e, accepted) ∷ later) =
    (if accepted then err ("ReadFile: " ++ e) ∷ [] else [], true)
read_handle ((filled bs, accepted) ∷ later) = on_bytes bs accepted (read_handle later)
read_handle ((broken_pipe bs, accepted) ∷ later) = on_bytes bs accepted (read_handle later)

-- `WinHandleOutputStream`, without its end of the channel.
pub record Stream : Type 0 where
  pub buffer : Bytes
  pub pos : ℕ

-- `start`
unfoldable pub start : Stream
start = record { buffer = []; pos = 0 }

-- `try_recv`: an item, `Empty` or `Disconnected`.
pub data TryRecv : Type 0 where
  item : Result Bytes IoError → TryRecv
  empty : TryRecv
  disconnected : TryRecv

-- A poll: `Pending`, `Ready(Err)`, or `Ready(Ok(()))` with the bytes put into the caller's buffer.
pub data Poll : Type 0 where
  pending : Poll
  broke : IoError → Poll
  ready : Bytes → Poll

-- The copy at the end of `poll_read`, into a buffer with this much room.
unfoldable pub copy : ℕ → Stream → Stream × Poll
copy remaining s =
    let to_copy = min (length s.buffer - s.pos) remaining in
    (record s { pos = s.pos + to_copy }, ready (take to_copy (drop s.pos s.buffer)))

unfoldable pub on_recv : ℕ → Stream → TryRecv → Stream × Poll
unfolding copy
on_recv remaining s (item (ok bs)) = copy remaining (record { buffer = bs; pos = 0 })
on_recv remaining s (item (err e)) = (s, broke e)
on_recv remaining s empty = (s, pending)
on_recv remaining s disconnected = (s, ready [])

-- Whether `poll_read` looks at the channel.
abbrev pub is_out_of_data : Stream → Bool
is_out_of_data s = leb (length s.buffer) s.pos

-- `poll_read`
unfoldable pub poll_read : ℕ → Stream → TryRecv → Stream × Poll
unfolding copy on_recv
poll_read remaining s received =
    let later = on_recv remaining s received in
    let now = copy remaining s in if is_out_of_data s then later else now
