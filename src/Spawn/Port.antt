-- ===== src/Spawn/Port.antt =====
-- src/proc/spawn/mod.rs: the trait `Child`, as the tracker of src/proc/coord.rs uses it.
use rust_job_runner.Common.{ℕ, ◌≡◌, refl, ◌∙◌}
use rust_job_runner.Spawn.{Outcome, returned, panicked}

-- A child in the state `S`, with its output streams and its two futures. `Whole` is a child with this
-- pid that still has these two streams.
pub record Child (S Stream Wait Kill : Type 0) : Type 1 where
  pub pid : S → ℕ
  pub stdout : S → S × Outcome Stream
  pub stderr : S → S × Outcome Stream
  pub wait : S → Wait
  pub kill : S → Kill
  pub Whole : ℕ → Stream → Stream → S → Type 0
  pub whole_pid : (n : ℕ) (o e : Stream) (s : S) → Whole n o e s → pid s ≡ n
  pub whole_stdout : (n : ℕ) (o e : Stream) (s : S) → Whole n o e s → (stdout s).1 ≡ returned o
  pub whole_stderr :
      (n : ℕ) (o e : Stream) (s : S) → Whole n o e s → (stderr (stdout s).0).1 ≡ returned e
  -- what is taken is gone, and the futures are not touched
  pub stdout_twice : (s : S) → (stdout (stdout s).0).1 ≡ panicked
  pub stderr_twice : (s : S) → (stderr (stderr s).0).1 ≡ panicked
  pub stdout_wait : (s : S) → wait (stdout s).0 ≡ wait s
  pub stderr_wait : (s : S) → wait (stderr s).0 ≡ wait s
  pub stdout_kill : (s : S) → kill (stdout s).0 ≡ kill s
  pub stderr_kill : (s : S) → kill (stderr s).0 ≡ kill s

module _ {S Stream Wait Kill : Type 0} (C : Child S Stream Wait Kill) where
  -- The streams that `wait` of the tracker gives to its two readers, and the child behind that.
  abbrev on_stderr : Stream → S × Outcome Stream → S × Outcome (Stream × Stream)
  on_stderr out (s, panicked) = (s, panicked)
  on_stderr out (s, returned errs) = (s, returned (out, errs))

  abbrev on_stdout : S × Outcome Stream → S × Outcome (Stream × Stream)
  on_stdout (s, panicked) = (s, panicked)
  on_stdout (s, returned out) = on_stderr out (C.stderr s)

  unfoldable pub output_streams : S → S × Outcome (Stream × Stream)
  output_streams s = on_stdout (C.stdout s)

  -- The child as the tracker's loop has it.
  pub record IsTakenOver (n : ℕ) (o e : Stream) (s : S) : Type 0 where
    pub right_pid : C.pid s ≡ n
    pub both : (output_streams s).1 ≡ returned (o, e)
    pub same_wait : C.wait (output_streams s).0 ≡ C.wait s
    pub same_kill : C.kill (output_streams s).0 ≡ C.kill s

  pub whole-IsTakenOver : (n : ℕ) (o e : Stream) (s : S) → C.Whole n o e s → IsTakenOver n o e s
  unfolding output_streams
  whole-IsTakenOver n o e s v =
      let a = C.whole_stdout n o e s v in
      let b = C.whole_stderr n o e s v in
      record {
        right_pid = C.whole_pid n o e s v;
        both = rw a (rw b refl);
        same_wait = rw a (rw b (C.stderr_wait (C.stdout s).0 ∙ C.stdout_wait s));
        same_kill = rw a (rw b (C.stderr_kill (C.stdout s).0 ∙ C.stdout_kill s));
      }
