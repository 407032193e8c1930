-- ===== src/Auth/Bits.antt =====
-- When the bitwise operations of `constantTimeEqual` (frontend/src/api/advanced-auth.server.ts)
-- give zero.
use Prim.Native.Nat.{digits, differ, bit_or, bit_xor, bit_or-bitwise, bit_xor-bitwise}
use perps_latency_benchmark.Prelude.{ℕ, zero, suc, ◌/◌, ◌%◌, ◌≤◌, max, ◌≡◌, refl, ◌↔◌, arith}

differ-zero : (a b : ℕ) → differ (a % 2) (b % 2) ≡ 0 → a % 2 ≡ b % 2
differ-zero a b h = ground arith

xor_digits-zero : (n a b : ℕ) → a ≤ n → digits (λ b. b) differ n a b ≡ 0 → a ≡ b
xor_digits-zero zero zero b p h = omega arith
xor_digits-zero zero (suc a) b p h = absurd (omega arith)
xor_digits-zero (suc n) zero b p h = omega arith
xor_digits-zero (suc n) (suc a) b p h =
    let same : suc a / 2 ≡ b / 2 =
      xor_digits-zero n (suc a / 2) (b / 2) (omega arith) (omega arith) in
    let parity : suc a % 2 ≡ b % 2 = differ-zero (suc a) b (omega arith) in omega arith

differ_self : (x : ℕ) → differ x x ≡ 0
differ_self zero = refl
differ_self (suc x) = differ_self x

xor_digits_self : (n a : ℕ) → a ≤ n → digits (λ b. b) differ n a a ≡ 0
xor_digits_self zero zero p = refl
xor_digits_self zero (suc a) p = absurd (omega arith)
xor_digits_self (suc n) zero p = refl
xor_digits_self (suc n) (suc a) p =
    omega (arith, xor_digits_self n (suc a / 2) (omega arith), differ_self (suc a % 2))

pub bit_xor-eq-zero_iff : (a b : ℕ) → (bit_xor a b ≡ 0) ↔ (a ≡ b)
bit_xor-eq-zero_iff a b = (
  λ h. xor_digits-zero a a b (omega arith) (rw bit_xor-bitwise at h),
  λ e. rw (← e) (rw bit_xor-bitwise (xor_digits_self a a (omega arith))),
)

or_digits-zero : (n a b : ℕ) → a ≤ n → digits (λ b. b) max n a b ≡ 0 → (a ≡ 0) × (b ≡ 0)
or_digits-zero zero zero b p h = (refl, h)
or_digits-zero zero (suc a) b p h = absurd (omega arith)
or_digits-zero (suc n) zero b p h = (refl, h)
or_digits-zero (suc n) (suc a) b p h =
    let halves = or_digits-zero n (suc a / 2) (b / 2) (omega arith) (omega arith) in omega arith

pub bit_or-eq-zero_iff : (a b : ℕ) → (bit_or a b ≡ 0) ↔ ((a ≡ 0) × (b ≡ 0))
bit_or-eq-zero_iff a b =
    (λ h. or_digits-zero a a b (omega arith) (rw bit_or-bitwise at h), λ e. rw (e.0, e.1) refl)
