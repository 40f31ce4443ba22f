-- ===== src/Spawn/Win/Reading.antt =====
-- What the reader of a pipe on Windows hands on.
use Prim.Native.Nat.{min}
use rust_job_runner.Common.{
  ℕ, ◌-◌, ◌≤◌, ◌≡◌, refl, sym, ap, ◌∙◌, true, ok, List, [], ◌∷◌, ◌++◌, arith, length, drop, concat,
  take-drop-append, drop-all, append_assoc, if◌then◌else◌, Bool-cases, inl, inr,
}
use rust_job_runner.Frames.{Bytes}
use rust_job_runner.Spawn.Win.Reader.{
  Stream, start, TryRecv, item, empty, Poll, pending, broke, ready, copy, on_recv, is_out_of_data,
  poll_read,
}

-- A stream with the chunks that wait in its channel.
pub record Pipe : Type 0 where
  pub stream : Stream
  pub queue : List Bytes

abbrev received : List Bytes → TryRecv
received [] = empty
received (bs ∷ queue) = item (ok bs)

abbrev popped : List Bytes → List Bytes
popped [] = []
popped (bs ∷ queue) = queue

abbrev bytes_put : Poll → Bytes
bytes_put pending = []
bytes_put (broke e) = []
bytes_put (ready bs) = bs

-- One poll with this much room. A chunk is taken off the channel only when the buffer is used up.
unfoldable pub poll : ℕ → Pipe → Pipe × Bytes
poll n p =
    let (stream, out) = poll_read n p.stream (received p.queue) in
    (
      record {
        stream = stream;
        queue = if is_out_of_data p.stream then popped p.queue else p.queue;
      },
      bytes_put out,
    )

-- Polls with any room each: the pipe behind them, and all that was put into the callers' buffers.
unfoldable pub polls : List ℕ → Pipe → Pipe × Bytes
unfolding poll
polls [] p = (p, [])
polls (n ∷ ns) p = let (q, bs) = poll n p in let (r, later) = polls ns q in (r, bs ++ later)

-- The bytes that are still to come.
abbrev pub to_come : Pipe → Bytes
to_come p = drop p.stream.pos p.stream.buffer ++ concat p.queue

-- No slice of the buffer starts behind its end.
abbrev pub InRange : Stream → Type 0
InRange s = s.pos ≤ length s.buffer

copy-put :
    (n : ℕ) (s : Stream)
    → InRange s
    → InRange (copy n s).0
      × (bytes_put (copy n s).1 ++ drop (copy n s).0.pos (copy n s).0.buffer ≡ drop s.pos s.buffer)
unfolding copy
copy-put n s v =
    (omega (arith, v), take-drop-append s.pos (min (length s.buffer - s.pos) n) s.buffer)

-- A chunk behind a part that is copied.
put-append :
    (n : ℕ) (s : Stream) (later : Bytes)
    → InRange s
    → bytes_put (copy n s).1 ++ (drop (copy n s).0.pos (copy n s).0.buffer ++ later)
      ≡ drop s.pos s.buffer ++ later
put-append n s later v =
    sym (append_assoc (bytes_put (copy n s).1) _ later) ∙ ap (λ l. l ++ later) (copy-put n s v).1

out_of_data : (s : Stream) → is_out_of_data s ≡ true → drop s.pos s.buffer ≡ []
out_of_data s e = drop-all s.pos s.buffer (ground (arith, e))

-- A poll with the decision on the buffer and the channel's content laid open.
abbrev IsRight : Pipe → Pipe × Bytes → Type 0
IsRight p (q, bs) = InRange q.stream × (bs ++ to_come q ≡ to_come p)

poll_out_of_data-IsRight :
    (n : ℕ) (s : Stream) (queue : List Bytes)
    → InRange s
    → is_out_of_data s ≡ true
    → IsRight (record { stream = s; queue = queue }) (poll n (record { stream = s; queue = queue }))
unfolding poll poll_read on_recv
poll_out_of_data-IsRight n s [] v e = rw e (v, refl)
poll_out_of_data-IsRight n s (bs ∷ queue) v e =
    let fresh : Stream = record { buffer = bs; pos = 0 } in
    let in_range : InRange fresh = omega arith in
    rw (e, out_of_data s e)
      ((copy-put n fresh in_range).0, put-append n fresh (concat queue) in_range)

poll-IsRight :
    (n : ℕ) (s : Stream) (queue : List Bytes)
    → InRange s
    → IsRight (record { stream = s; queue = queue }) (poll n (record { stream = s; queue = queue }))
unfolding poll poll_read on_recv
poll-IsRight n s queue v = elim (Bool-cases (is_out_of_data s)) [
  | inr more ↦ rw more ((copy-put n s v).0, put-append n s (concat queue) v)
  | inl none_left ↦ poll_out_of_data-IsRight n s queue v none_left
]

polls-IsRight : (ns : List ℕ) (p : Pipe) → InRange p.stream → IsRight p (polls ns p)
unfolding polls
polls-IsRight [] p v = (v, refl)
polls-IsRight (n ∷ ns) p v =
    let (v', e) = poll-IsRight n p.stream p.queue v in
    let (w, d) = polls-IsRight ns (poll n p).0 v' in
    (w, append_assoc (poll n p).1 _ _ ∙ ap (λ l. (poll n p).1 ++ l) d ∙ e)

-- From the start of a stream, with any chunks in its channel and any room at each poll, what the
-- polls hand on and what is still to come are together the bytes of the chunks, in order; and the
-- position stays within the buffer, so that no slice of it panics.
pub polls-bytes :
    (ns : List ℕ) (chunks : List Bytes)
    → let (p, bs) = polls ns (record { stream = start; queue = chunks }) in
      (bs ++ to_come p ≡ concat chunks) × InRange p.stream
unfolding start
polls-bytes ns chunks =
    let (v, e) = polls-IsRight ns (record { stream = start; queue = chunks }) (omega arith) in
    (e, v)
