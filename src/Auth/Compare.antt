-- ===== src/Auth/Compare.antt =====
-- `constantTimeEqual` of frontend/src/api/advanced-auth.server.ts.
use Prim.Native.Nat.{bit_or, bit_xor}
use perps_latency_benchmark.Prelude.{
  ℕ, zero, suc, ◌+◌, ◌<◌, max, ◌≡◌, refl, ◌↔◌, true, [], ◌∷◌, Text, length, arith, ==_iff,
}
use perps_latency_benchmark.Auth.{unit_at, diff_from, constant_time_equal}
use perps_latency_benchmark.Auth.Bits.{bit_or-eq-zero_iff, bit_xor-eq-zero_iff}

-- A difference once found stays: the loop ends in zero only from zero, over equal units.
diff_from-zero :
    (rounds i diff : ℕ) (l r : Text)
    → diff_from rounds i diff l r ≡ 0
    → (diff ≡ 0) × ((j : ℕ) → j < rounds → unit_at l (i + j) ≡ unit_at r (i + j))
diff_from-zero zero i diff l r h = (h, λ j p. absurd (omega arith))
diff_from-zero (suc n) i diff l r h =
    let here = bit_xor (unit_at l i) (unit_at r i) in
    let (both, later) = diff_from-zero n (suc i) (bit_or diff here) l r h in
    let (before, now) = (bit_or-eq-zero_iff diff here).0 both in
    (before, units later ((bit_xor-eq-zero_iff _ _).0 now))
  where
    units :
        ((j : ℕ) → j < n → unit_at l (suc i + j) ≡ unit_at r (suc i + j))
        → unit_at l i ≡ unit_at r i
        → (j : ℕ) → j < suc n
        → unit_at l (i + j) ≡ unit_at r (i + j)
    units later now zero p = let e : i + 0 ≡ i = omega arith in rw e now
    units later now (suc j) p =
        let e : i + suc j ≡ suc i + j = omega arith in rw e (later j (omega arith))

diff_from_self : (rounds i : ℕ) (s : Text) → diff_from rounds i 0 s s ≡ 0
diff_from_self zero i s = refl
diff_from_self (suc n) i s =
    let same : bit_xor (unit_at s i) (unit_at s i) ≡ 0 = (bit_xor-eq-zero_iff _ _).1 refl in
    let kept : bit_or 0 (bit_xor (unit_at s i) (unit_at s i)) ≡ 0 =
      (bit_or-eq-zero_iff _ _).1 (refl, same) in
    rw kept (diff_from_self n (suc i) s)

eq_of_units :
    (l r : Text)
    → length l ≡ length r
    → ((j : ℕ) → j < length l → unit_at l j ≡ unit_at r j)
    → l ≡ r
eq_of_units [] [] e h = refl
eq_of_units [] (d ∷ r) e h = absurd (omega arith)
eq_of_units (c ∷ l) [] e h = absurd (omega arith)
eq_of_units (c ∷ l) (d ∷ r) e h =
    let rest : l ≡ r = eq_of_units l r (omega arith) (λ j p. h (suc j) (omega arith)) in
    cc (h 0 (omega arith))

-- The comparison of passwords is true exactly when the two texts are the same: no pair of
-- different texts passes, also where one is the other followed by NUL characters.
pub constant_time_equal_iff : (l r : Text) → (constant_time_equal l r ≡ true) ↔ (l ≡ r)
unfolding constant_time_equal
constant_time_equal_iff l r = (
  λ h.
      let rounds = max (length l) (length r) in
      let (len, units) = diff_from-zero rounds 0 _ l r ((==_iff _ 0).0 h) in
      let same : length l ≡ length r = (bit_xor-eq-zero_iff _ _).0 len in
      eq_of_units l r same
        (λ j p. let e : 0 + j ≡ j = omega arith in rw e at (units j (omega arith))),
  λ e. rw e (
      (==_iff _ 0).1 (
        rw ((bit_xor-eq-zero_iff (length r) _).1 refl)
          (diff_from_self (max (length r) (length r)) 0 r))),
)
