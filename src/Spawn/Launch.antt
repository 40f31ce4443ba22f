-- ===== src/Spawn/Launch.antt =====
-- What a spawned child is.
use rust_job_runner.Common.{
  ℕ, ◌≡◌, refl, sym, true, none, some, Result, ok, err, arith, is_some, is_some-value, Option-cases,
  Result-cases, inl, inr,
}
use rust_job_runner.Types.{JobSpec}
use rust_job_runner.Frames.{IoError}
use rust_job_runner.Spawn.{
  Error, spawn_failed, no_pid, null, piped, Command, Process, TokioChild, opts_new, returned,
  launched, spawn,
}

-- tokio's promise: a child has the handle of each stream that its command pipes.
abbrev pub GivesPipes : (Command → Result Process IoError) → Type 0
GivesPipes launch =
    (c : Command) (p : Process)
    → launch c ≡ ok p
    → (c.stdout ≡ piped → is_some p.stdout ≡ true) × (c.stderr ≡ piped → is_some p.stderr ≡ true)

-- The command for a job: its program and arguments, no input, piped outputs, killed with its handle.
abbrev pub job_command : JobSpec → Command
job_command spec = record {
  exe = spec.exe;
  args = spec.args;
  kill_on_drop = true;
  stdin = null;
  stdout = piped;
  stderr = piped;
}

abbrev pub IsSpawned :
    JobSpec → (Command → Result Process IoError) → Result TokioChild Error → Type 0
IsSpawned spec launch (ok child) =
    (p : Process) × (launch (job_command spec) ≡ ok p)
    × (p.id ≡ some child.pid)
    × (child.stdout ≡ p.stdout)
    × (child.stderr ≡ p.stderr)
    × (is_some child.stdout ≡ true)
    × (is_some child.stderr ≡ true)
IsSpawned spec launch (err (spawn_failed e)) = launch (job_command spec) ≡ err e
IsSpawned spec launch (err no_pid) =
    (p : Process) × (launch (job_command spec) ≡ ok p) × (p.id ≡ none)

abbrev Spawned : JobSpec → (Command → Result Process IoError) → Type 0
Spawned spec launch =
    (r : Result TokioChild Error) × (spawn launch (opts_new spec) ≡ returned r)
    × IsSpawned spec launch r

abbrev child_of : Process → ℕ → ℕ → ℕ → TokioChild
child_of p pid out errs = record {
  child = record p { stdout = none; stderr = none };
  pid = pid;
  stdout = some out;
  stderr = some errs;
}

launched_child :
    (p : Process) (pid out errs : ℕ)
    → p.id ≡ some pid
    → p.stdout ≡ some out
    → p.stderr ≡ some errs
    → launched (ok p) ≡ returned (ok (child_of p pid out errs))
unfolding launched
launched_child p pid out errs i o e = ground arith

launched_no_pid : (p : Process) → p.id ≡ none → launched (ok p) ≡ returned (err no_pid)
unfolding launched
launched_no_pid p i = ground arith

spawn-launched :
    (spec : JobSpec) (launch : Command → Result Process IoError) (p : Process)
    → launch (job_command spec) ≡ ok p
    → is_some p.stdout ≡ true
    → is_some p.stderr ≡ true
    → Spawned spec launch
unfolding spawn opts_new
spawn-launched spec launch p e outs errs = elim (Option-cases p.id) [
  | inl unknown ↦ (err no_pid, rw e (launched_no_pid p unknown), (p, e, unknown))
  | inr (pid, known) ↦
      let (o, is_out) = is_some-value p.stdout outs in
      let (f, is_err) = is_some-value p.stderr errs in
      (
        ok (child_of p pid o f),
        rw e (launched_child p pid o f known is_out is_err),
        (p, e, known, sym is_out, sym is_err, refl, refl),
      )
]

-- Under tokio's promise `spawn` never panics: it gives a child with a pid and both output handles, or
-- the error that says what failed. The command that is launched is the job's.
pub spawn_total :
    (spec : JobSpec) (launch : Command → Result Process IoError)
    → GivesPipes launch
    → (r : Result TokioChild Error) × (spawn launch (opts_new spec) ≡ returned r)
      × IsSpawned spec launch r
unfolding spawn opts_new
spawn_total spec launch promise = elim (Result-cases (launch (job_command spec))) [
  | inl (p, e) ↦
      let (out, errs) = promise (job_command spec) p e in
      spawn-launched spec launch p e (out refl) (errs refl)
  | inr (x, e) ↦ (err (spawn_failed x), rw e refl, e)
]
