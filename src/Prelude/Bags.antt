-- ===== src/Prelude/Bags.antt =====
-- Lists of numbers as bags.
use Prim.Native.Nat.{ℕ, ◌+◌, ◌<◌}
use mathlib.Core.Path.{◌≡◌}
use mathlib.Core.List.{List, [], ◌∷◌}
use native.Mathlib.Omega.{arith}
use native.Mathlib.Decide.{ℕ_discrete}
use os_lab2_team.Prelude.Tests.{◌==◌, if◌then◌else◌}

abbrev pub times : ℕ → List ℕ → ℕ
times v [] = 0
times v (x ∷ xs) = if x == v then 1 + times v xs else times v xs

-- The list without its first v.
abbrev pub without : ℕ → List ℕ → List ℕ
without v [] = []
without v (x ∷ xs) = if x == v then xs else x ∷ without v xs

pub times-without :
    (v w : ℕ) (xs : List ℕ)
    → 0 < times v xs
    → times w xs ≡ (if v == w then 1 else 0) + times w (without v xs)
times-without v w [] lt = absurd (omega arith)
times-without v w (x ∷ xs) lt = elim (ℕ_discrete x v) [
  | yes e ↦ ground (arith)
  | no ne ↦ ground (arith, times-without v w xs (ground arith))
]
