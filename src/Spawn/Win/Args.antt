-- ===== src/Spawn/Win/Args.antt =====
-- src/proc/spawn/win.rs: `WinArgs`, the command line of a process.
use rust_job_runner.Common.{ℕ, zero, suc, ◌≡◌, refl, ap, ◌∙◌, List, [], ◌∷◌, ◌++◌, append_assoc}
use rust_job_runner.Types.{OsString}

-- The space, as a UTF-16 code unit.
abbrev pub space : ℕ
space = 32

-- The closure of `flat_map` on an item and its index. An `OsString` is its UTF-16 code units.
unfoldable pub token : ℕ → OsString → List ℕ
token zero t = t
token (suc i) t = space ∷ t

unfoldable pub tokens : ℕ → List OsString → List ℕ
unfolding token
tokens i [] = []
tokens i (t ∷ ts) = token i t ++ tokens (suc i) ts

-- `WinArgs::new`
unfoldable pub win_args : List OsString → List ℕ
unfolding tokens
win_args items = tokens 0 items ++ 0 ∷ []

-- Behind the first place the index does not matter.
tokens-suc : (i j : ℕ) (ts : List OsString) → tokens (suc i) ts ≡ tokens (suc j) ts
unfolding tokens
tokens-suc i j [] = refl
tokens-suc i j (t ∷ ts) = ap (λ l. (space ∷ t) ++ l) (tokens-suc (suc i) (suc j) ts)

tokens-split :
    (i : ℕ) (earlier later : List OsString) (a b : OsString)
    → tokens i (earlier ++ (a ++ space ∷ b) ∷ later) ≡ tokens i (earlier ++ a ∷ b ∷ later)
unfolding tokens
tokens-split zero [] later a b =
    append_assoc a (space ∷ b) (tokens 1 later)
    ∙ ap (λ l. a ++ ((space ∷ b) ++ l)) (tokens-suc 0 1 later)
tokens-split (suc i) [] later a b =
    ap (λ l. space ∷ l) (append_assoc a (space ∷ b) (tokens (suc (suc i)) later))
    ∙ ap (λ l. (space ∷ a) ++ ((space ∷ b) ++ l)) (tokens-suc (suc i) (suc (suc i)) later)
tokens-split i (t ∷ earlier) later a b =
    ap (λ l. token i t ++ l) (tokens-split (suc i) earlier later a b)

-- The command line does not tell an argument with a space from two arguments: wherever it stands,
-- the process is created with the same line.
pub win_args-split :
    (earlier later : List OsString) (a b : OsString)
    → win_args (earlier ++ (a ++ space ∷ b) ∷ later) ≡ win_args (earlier ++ a ∷ b ∷ later)
unfolding win_args
win_args-split earlier later a b = ap (λ l. l ++ 0 ∷ []) (tokens-split 0 earlier later a b)
