-- ===== src/Types/Spec.antt =====
-- src/proc/types.rs: the operations of `JobSpec`.
use rust_job_runner.Common.{◌≡◌, ◌∙◌, sym, List, [], ◌∷◌, ◌++◌, append-nil, append_assoc}
use rust_job_runner.Types.{OsString, JobSpec}

unfoldable pub new : OsString → JobSpec
new exe = record { exe = exe; args = [] }

unfoldable pub exe_and_args : JobSpec → List OsString
exe_and_args s = s.exe ∷ s.args

-- `for arg in args { self.args.push(arg.into()); }`
unfoldable pub args : JobSpec → List OsString → JobSpec
args s [] = s
args s (a ∷ rest) = args (record s { args = s.args ++ (a ∷ []) }) rest

unfoldable pub arg : JobSpec → OsString → JobSpec
unfolding args
arg s a = args s (a ∷ [])

-- The loop of pushes appends the arguments in order and leaves the program alone.
pub args-append : (s : JobSpec) (xs : List OsString) → args s xs ≡ record s { args = s.args ++ xs }
unfolding args
args-append s [] = λ i. record s { args = sym (append-nil s.args) i }
args-append s (a ∷ rest) =
    args-append _ rest ∙ λ i. record s { args = append_assoc s.args (a ∷ []) rest i }
