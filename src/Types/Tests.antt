-- ===== src/Types/Tests.antt =====
-- A job's program and arguments.
use rust_job_runner.Common.{◌≡◌, refl, [], ◌∷◌}
use rust_job_runner.Types.{JobSpec}
use rust_job_runner.Types.Spec.{new, arg, exe_and_args}

abbrev ls : JobSpec
ls = record { exe = 108 ∷ 115 ∷ []; args = (45 ∷ 97 ∷ []) ∷ [] }

exe_and_args_of_ls :
    exe_and_args (arg (new (108 ∷ 115 ∷ [])) (45 ∷ 97 ∷ []))
    ≡ (108 ∷ 115 ∷ []) ∷ (45 ∷ 97 ∷ []) ∷ []
unfolding exe_and_args arg new
exe_and_args_of_ls = refl
