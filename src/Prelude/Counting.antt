-- ===== src/Prelude/Counting.antt =====
-- Numbers that differ and are below a bound are no more than the bound.
use Prim.Native.Nat.{ℕ, zero, suc, ◌≤◌, ◌<◌}
use mathlib.Core.Path.{◌≡◌, subst}
use mathlib.Core.Logic.{inl, inr}
use mathlib.Core.Bool.{false, not}
use mathlib.Core.List.{List, [], ◌∷◌}
use native.Mathlib.Omega.{arith}
use perps_latency_benchmark.Prelude.Tests.{Bool-cases, ◌==◌, ==_iff}
use perps_latency_benchmark.Prelude.Lists.{All, keep, length}

abbrev pub IsDistinct : List ℕ → Type 0
IsDistinct [] = Unit
IsDistinct (x ∷ xs) = All (λ y. (x == y) ≡ false) xs × IsDistinct xs

-- The others than `n`.
abbrev others : ℕ → List ℕ → List ℕ
others n xs = keep (λ y. not (y == n)) xs

All-others : (P : ℕ → Type 0) (n : ℕ) (xs : List ℕ) → All P xs → All P (others n xs)
All-others P n [] h = tt
All-others P n (x ∷ xs) h = ground (arith, All-others P n xs)

others-IsDistinct : (n : ℕ) (xs : List ℕ) → IsDistinct xs → IsDistinct (others n xs)
others-IsDistinct n [] h = tt
others-IsDistinct n (x ∷ xs) h =
    ground (arith, others-IsDistinct n xs, All-others (λ y. (x == y) ≡ false) n xs)

others-lt : (n : ℕ) (xs : List ℕ) → All (λ x. x < suc n) xs → All (λ x. x < n) (others n xs)
others-lt n [] h = tt
others-lt n (x ∷ xs) h = ground (arith, others-lt n xs)

others_self :
    (n : ℕ) (xs : List ℕ) → All (λ y. (n == y) ≡ false) xs → length xs ≤ length (others n xs)
others_self n [] h = ground arith
others_self n (x ∷ xs) h = ground (arith, others_self n xs)

length-others : (n : ℕ) (xs : List ℕ) → IsDistinct xs → length xs ≤ suc (length (others n xs))
length-others n [] h = ground arith
length-others n (x ∷ xs) (h, hs) = elim (Bool-cases (x == n)) [
  | inl e ↦
      subst (λ m. suc (length xs) ≤ suc (length (others m (x ∷ xs)))) ((==_iff x n).0 e)
        (ground (arith, others_self x xs h))
  | inr e ↦ rw e (ground (arith, length-others n xs hs))
]

pub length-le : (n : ℕ) (xs : List ℕ) → IsDistinct xs → All (λ x. x < n) xs → length xs ≤ n
length-le zero [] h k = ground arith
length-le zero (x ∷ xs) h k = ground arith
length-le (suc n) xs h k = ground (
  arith,
  length-others n xs h,
  length-le n (others n xs) (others-IsDistinct n xs h) (others-lt n xs k),
)
