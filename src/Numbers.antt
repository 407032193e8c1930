-- ===== src/Numbers.antt =====
-- JavaScript's numbers, as the frontend computes with them. They are the platform's doubles: a
-- parameter of the model, with the facts of IEEE 754 that the theorems rest on in `IsOrdered`.
-- A comparison with NaN is false.
pub mod Integers
pub mod Extremes
use perps_latency_benchmark.Prelude.{
  ◌⊎◌, ℕ, ◌≤◌, Bool, true, false, ◌≡◌, Option, none, some, List, [], ◌∷◌,
}

pub record Numbers {ℓ} (N : Type ℓ) : Type ℓ where
  pub of_ℕ : ℕ → N
  pub add : N → N → N
  pub sub : N → N → N
  pub mul : N → N → N
  pub div : N → N → N
  pub neg : N → N
  pub abs : N → N
  pub max_of : N → N → N
  pub min_of : N → N → N
  pub lt : N → N → Bool
  pub same : N → N → Bool
  pub is_finite : N → Bool

module _ {ℓ} {N : Type ℓ} ⦃n : Numbers N⦄ where
  abbrev pub nought : N
  nought = n.of_ℕ 0

  -- `x > 0`
  abbrev pub positive : N → Bool
  positive x = n.lt (n.of_ℕ 0) x

  -- `x < 0`
  abbrev pub negative : N → Bool
  negative x = n.lt x (n.of_ℕ 0)

  -- `x && x > 0` for a property that may be missing: neither 0 nor NaN is positive.
  abbrev pub positive_at : Option N → Bool
  positive_at none = false
  positive_at (some x) = positive x

-- Two numbers are not below each other, what is below one is below all above that, and of
-- two in that order each finite number is above the first or below the second; `Math.max(x, 0)` is not below 0; dividing by a whole number
-- keeps what is not below from getting below; and what is not below 0 does not grow when something
-- positive is taken away from it and the rest is cut off at 0.
pub record IsOrdered {ℓ} (N : Type ℓ) ⦃n : Numbers N⦄ : Type ℓ where
  pub lt_asymm : (x y : N) → n.lt x y ≡ true → n.lt y x ≡ false
  pub lt_trans : (x y z : N) → n.lt x y ≡ true → n.lt y z ≡ true → n.lt x z ≡ true
  pub lt_cotrans :
      (x y z : N) → n.is_finite y ≡ true → n.lt x z ≡ true → (n.lt x y ≡ true) ⊎ (n.lt y z ≡ true)
  pub max-nonneg : (x : N) → negative (n.max_of x nought) ≡ false
  pub div-nonneg : (x : N) (k : ℕ) → negative x ≡ false → negative (n.div x (n.of_ℕ k)) ≡ false
  pub div_mono :
      (x y : N) (k : ℕ) → n.lt x y ≡ false → n.lt (n.div x (n.of_ℕ k)) (n.div y (n.of_ℕ k)) ≡ false
  pub sub-le :
      (x y : N)
      → negative x ≡ false
      → positive y ≡ true
      → n.lt x (n.max_of (n.sub x y) nought) ≡ false

-- `Math.max(...values, last)` and `Math.min(...values, last)`
module _ {ℓ} {N : Type ℓ} ⦃n : Numbers N⦄ where
  abbrev pub max_of_all : List N → N → N
  max_of_all [] last = last
  max_of_all (x ∷ values) last = n.max_of x (max_of_all values last)

  abbrev pub min_of_all : List N → N → N
  min_of_all [] last = last
  min_of_all (x ∷ values) last = n.min_of x (min_of_all values last)

-- Rounding keeps the order. What is below the larger of two numbers is below one of them, and what the
-- larger is below both are; so for the smaller. A sum with what is not below 0 is not below, a difference
-- not above, and so for a product with what is not above 1. A number of items is not below 0, and
-- finite if it is a safe integer.
pub record IsRounded {ℓ} (N : Type ℓ) ⦃n : Numbers N⦄ : Type ℓ where
  pub max-lt : (x y z : N) → n.lt (n.max_of x y) z ≡ true → (n.lt x z ≡ true) × (n.lt y z ≡ true)
  pub lt-max : (x y z : N) → n.lt z (n.max_of x y) ≡ true → (n.lt z x ≡ true) ⊎ (n.lt z y ≡ true)
  pub lt-min : (x y z : N) → n.lt z (n.min_of x y) ≡ true → (n.lt z x ≡ true) × (n.lt z y ≡ true)
  pub min-lt : (x y z : N) → n.lt (n.min_of x y) z ≡ true → (n.lt x z ≡ true) ⊎ (n.lt y z ≡ true)
  pub add-lt : (x y z : N) → negative y ≡ false → n.lt (n.add x y) z ≡ true → n.lt x z ≡ true
  pub lt-sub : (x y z : N) → negative y ≡ false → n.lt z (n.sub x y) ≡ true → n.lt z x ≡ true
  pub lt-mul :
      (x c z : N)
      → negative x ≡ false
      → n.lt (n.of_ℕ 1) c ≡ false
      → n.lt z (n.mul x c) ≡ true
      → n.lt z x ≡ true
  pub mul-nonneg :
      (x c : N) → negative x ≡ false → negative c ≡ false → negative (n.mul x c) ≡ false
  pub of_ℕ-nonneg : (k : ℕ) → negative (n.of_ℕ k) ≡ false
  pub of_ℕ-finite : (k : ℕ) → k ≤ 9_007_199_254_740_991 → n.is_finite (n.of_ℕ k) ≡ true
  pub share-le : (a b : ℕ) → a ≤ b → n.lt (n.of_ℕ 1) (n.div (n.of_ℕ a) (n.of_ℕ b)) ≡ false
  pub abs-sub : (x y : N) → n.abs (n.sub x y) ≡ n.abs (n.sub y x)
