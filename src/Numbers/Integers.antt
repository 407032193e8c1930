-- ===== src/Numbers/Integers.antt =====
-- The facts about numbers can be met: integers, with a quotient that is rounded down.
use perps_latency_benchmark.Prelude.{
  ◌⊎◌, inl, inr, Bool-cases, ℕ, zero, suc, ◌+◌, ◌-◌, ◌*◌, ◌/◌, ◌≤◌, Bool, true, false, ◌≡◌, refl,
  ltb, leb, ◌==◌, ◌&&◌, arith, if◌then◌else◌,
}
use perps_latency_benchmark.Numbers.{Numbers, IsOrdered, IsRounded}

-- `negsuc n` is -(n + 1).
pub data ℤ : Type 0 where
  pos : ℕ → ℤ
  negsuc : ℕ → ℤ

abbrev pos_part : ℤ → ℕ
pos_part (pos n) = n
pos_part (negsuc n) = 0

abbrev neg_part : ℤ → ℕ
neg_part (pos n) = 0
neg_part (negsuc n) = suc n

abbrev sub_ℕ : ℕ → ℕ → ℤ
sub_ℕ a b = if leb b a then pos (a - b) else negsuc (b - a - 1)

abbrev lt_ℤ : ℤ → ℤ → Bool
lt_ℤ a b = ltb (pos_part a + neg_part b) (pos_part b + neg_part a)

abbrev div_ℤ : ℤ → ℤ → ℤ
div_ℤ (pos a) (pos b) = pos (a / b)
div_ℤ (pos a) (negsuc b) = sub_ℕ 0 (a / suc b)
div_ℤ (negsuc a) (pos b) = negsuc (a / b)
div_ℤ (negsuc a) (negsuc b) = pos (suc a / suc b)

instance abbrev pub integers : Numbers ℤ
integers = record {
  of_ℕ = pos;
  add = λ a b. sub_ℕ (pos_part a + pos_part b) (neg_part a + neg_part b);
  sub = λ a b. sub_ℕ (pos_part a + neg_part b) (neg_part a + pos_part b);
  mul = λ a b.
      sub_ℕ (pos_part a * pos_part b + neg_part a * neg_part b)
        (pos_part a * neg_part b + neg_part a * pos_part b);
  div = div_ℤ;
  neg = λ a. sub_ℕ (neg_part a) (pos_part a);
  abs = λ a. pos (pos_part a + neg_part a);
  max_of = λ a b. if lt_ℤ a b then b else a;
  min_of = λ a b. if lt_ℤ a b then a else b;
  lt = lt_ℤ;
  same = λ a b. pos_part a == pos_part b && neg_part a == neg_part b;
  is_finite = λ a. true;
}

div_le_div : (a b k : ℕ) → a ≤ b → a / k ≤ b / k
div_le_div a b k h = grind arith

div_mono_ℤ : (x y : ℤ) (k : ℕ) → lt_ℤ x y ≡ false → lt_ℤ (div_ℤ x (pos k)) (div_ℤ y (pos k)) ≡ false
div_mono_ℤ (pos a) (pos b) k h = ground (arith, div_le_div b a k (ground arith))
div_mono_ℤ (pos a) (negsuc b) k h = ground arith
div_mono_ℤ (negsuc a) (pos b) k h = ground arith
div_mono_ℤ (negsuc a) (negsuc b) k h = ground (arith, div_le_div a b k (ground arith))

div-nonneg_ℤ : (x : ℤ) (k : ℕ) → lt_ℤ x (pos 0) ≡ false → lt_ℤ (div_ℤ x (pos k)) (pos 0) ≡ false
div-nonneg_ℤ (pos a) k h = ground arith
div-nonneg_ℤ (negsuc a) k h = ground arith

lt_cotrans_ℤ : (x y z : ℤ) → lt_ℤ x z ≡ true → (lt_ℤ x y ≡ true) ⊎ (lt_ℤ y z ≡ true)
lt_cotrans_ℤ x y z h = elim (Bool-cases (lt_ℤ x y)) [
  | inl e ↦ inl e
  | inr e ↦ inr (ground (arith, e, h))
]

pub ℤ-IsOrdered : IsOrdered ℤ
ℤ-IsOrdered = record {
  lt_asymm = λ x y h. ground arith;
  lt_trans = λ x y z h k. ground arith;
  lt_cotrans = λ x y z f h. lt_cotrans_ℤ x y z h;
  max-nonneg = λ x. ground arith;
  div-nonneg = div-nonneg_ℤ;
  div_mono = div_mono_ℤ;
  sub-le = λ x y h k. ground arith;
}

min-lt_ℤ : (x y z : ℤ) → lt_ℤ (integers.min_of x y) z ≡ true → (lt_ℤ x z ≡ true) ⊎ (lt_ℤ y z ≡ true)
min-lt_ℤ x y z h = elim (Bool-cases (lt_ℤ x y)) [
  | inl e ↦ inl (rw e at h)
  | inr e ↦ inr (rw e at h)
]

lt-max_ℤ : (x y z : ℤ) → lt_ℤ z (integers.max_of x y) ≡ true → (lt_ℤ z x ≡ true) ⊎ (lt_ℤ z y ≡ true)
lt-max_ℤ x y z h = elim (Bool-cases (lt_ℤ x y)) [
  | inl e ↦ inr (rw e at h)
  | inr e ↦ inl (rw e at h)
]

mul-nonneg_ℤ :
    (x c : ℤ)
    → lt_ℤ x (pos 0) ≡ false
    → lt_ℤ c (pos 0) ≡ false
    → lt_ℤ (integers.mul x c) (pos 0) ≡ false
mul-nonneg_ℤ (pos a) (pos b) h k = ground arith
mul-nonneg_ℤ (pos a) (negsuc b) h k = ground arith
mul-nonneg_ℤ (negsuc a) c h k = ground arith

lt-mul_ℤ :
    (x c z : ℤ)
    → lt_ℤ x (pos 0) ≡ false
    → lt_ℤ (pos 1) c ≡ false
    → lt_ℤ z (integers.mul x c) ≡ true
    → lt_ℤ z x ≡ true
lt-mul_ℤ (negsuc a) c z h k l = ground arith
lt-mul_ℤ (pos a) (pos zero) z h k l = ground arith
lt-mul_ℤ (pos a) (pos (suc zero)) z h k l = ground arith
lt-mul_ℤ (pos a) (pos (suc (suc b))) z h k l = ground arith
lt-mul_ℤ (pos a) (negsuc b) z h k l = ground arith

share-le_ℕ : (a b : ℕ) → a ≤ b → a / b ≤ 1
share-le_ℕ a zero h = ground arith
share-le_ℕ a (suc b) h = grind arith

pub ℤ-IsRounded : IsRounded ℤ
ℤ-IsRounded = record {
  max-lt = λ x y z h. ground arith;
  lt-max = lt-max_ℤ;
  lt-min = λ x y z h. ground arith;
  min-lt = min-lt_ℤ;
  add-lt = λ x y z h k. ground arith;
  lt-sub = λ x y z h k. ground arith;
  lt-mul = lt-mul_ℤ;
  mul-nonneg = mul-nonneg_ℤ;
  of_ℕ-nonneg = λ k. ground arith;
  of_ℕ-finite = λ k h. refl;
  share-le = λ a b h. ground (arith, share-le_ℕ a b h);
  abs-sub = λ x y. ground arith;
}
