-- ===== src/Spawn/Streams.antt =====
-- The output streams of a spawned child, as the tracker takes them.
use rust_job_runner.Common.{
  ℕ, ◌≡◌, refl, Option, none, some, Result, ok, is_some-value, sym, ap, ◌∙◌, subst,
}
use rust_job_runner.Types.{JobSpec}
use rust_job_runner.Frames.{IoError}
use rust_job_runner.Spawn.{
  Command, Process, TokioChild, returned, panicked, opts_new, spawn, take, stdout, stderr, pid,
}
use rust_job_runner.Spawn.Launch.{GivesPipes, IsSpawned, job_command, spawn_total}

pub spawn-IsSpawned :
    (spec : JobSpec) (launch : Command → Result Process IoError) (child : TokioChild)
    → GivesPipes launch
    → spawn launch (opts_new spec) ≡ returned (ok child)
    → IsSpawned spec launch (ok child)
spawn-IsSpawned spec launch child promise e =
    let (r, e', v) = spawn_total spec launch promise in
    let same : r ≡ ok child = cc in subst (IsSpawned spec launch) same v

pub take-twice : (o : Option ℕ) → (take (take o).0).1 ≡ panicked
unfolding take
take-twice none = refl
take-twice (some h) = refl

-- The tracker takes each output handle of a spawned child once: under tokio's promise it gets the
-- handles that the process was launched with, and no `expect` panics. A second taker would panic.
spawn-streams :
    (spec : JobSpec) (launch : Command → Result Process IoError) (child : TokioChild)
    → GivesPipes launch
    → spawn launch (opts_new spec) ≡ returned (ok child)
    → let (c, out) = stdout child in
      let (d, errs) = stderr c in
      (p : Process) × (launch (job_command spec) ≡ ok p)
      × ((o : ℕ) × (p.stdout ≡ some o) × (out ≡ returned o))
      × ((o : ℕ) × (p.stderr ≡ some o) × (errs ≡ returned o))
      × ((stdout d).1 ≡ panicked)
      × ((stderr d).1 ≡ panicked)
      × (pid d ≡ pid child)
unfolding stdout stderr pid take
spawn-streams spec launch child promise e =
    let (p, l, i, so, se, o, e) = spawn-IsSpawned spec launch child promise e in
    let (out, is_out) = is_some-value child.stdout o in
    let (errs, is_err) = is_some-value child.stderr e in
    (
      p,
      l,
      (out, sym so ∙ is_out, ap (λ h. (take h).1) is_out),
      (errs, sym se ∙ is_err, ap (λ h. (take h).1) is_err),
      take-twice child.stdout,
      take-twice child.stderr,
      refl,
    )
