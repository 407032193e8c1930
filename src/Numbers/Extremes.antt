-- ===== src/Numbers/Extremes.antt =====
-- The smallest and the largest of numbers bound them, also when they are moved apart.
use perps_latency_benchmark.Prelude.{
  ◌≡◌, inl, inr, true, false, List, [], ◌∷◌, arith, All, Bool-cases,
}
use perps_latency_benchmark.Numbers.{
  Numbers, IsOrdered, IsRounded, negative, max_of_all, min_of_all,
}

module _ {N : Type 0} ⦃n : Numbers N⦄ where
  -- What is above `sup` is above all values, and what is below `inf` is below them.
  abbrev pub AreBelow : List N → N → Type 0
  AreBelow values sup = (z : N) → n.lt sup z ≡ true → All (λ x. n.lt x z ≡ true) values

  abbrev pub AreAbove : List N → N → Type 0
  AreAbove values inf = (z : N) → n.lt z inf ≡ true → All (λ x. n.lt z x ≡ true) values

  module _ (ordered : IsOrdered N) where
    pub not_lt_self : (x : N) → n.lt x x ≡ false
    not_lt_self x = ground (arith, ordered.lt_asymm x x)

    -- None of the values is outside.
    pub AreBelow-not_above :
        (values : List N) (sup : N) → AreBelow values sup → All (λ x. n.lt sup x ≡ false) values
    AreBelow-not_above [] sup h = tt
    AreBelow-not_above (x ∷ values) sup h = (
      elim (Bool-cases (n.lt sup x)) [ inl e ↦ absurd (cc ((h x e).0, not_lt_self x)) | inr e ↦ e ],
      AreBelow-not_above values sup (λ z e. (h z e).1),
    )

    pub AreAbove-not_below :
        (values : List N) (inf : N) → AreAbove values inf → All (λ x. n.lt x inf ≡ false) values
    AreAbove-not_below [] inf h = tt
    AreAbove-not_below (x ∷ values) inf h = (
      elim (Bool-cases (n.lt x inf)) [ inl e ↦ absurd (cc ((h x e).0, not_lt_self x)) | inr e ↦ e ],
      AreAbove-not_below values inf (λ z e. (h z e).1),
    )

  module _ (rounded : IsRounded N) where
    pub max_of_all-AreBelow :
        (values : List N) (last : N) → AreBelow (last ∷ values) (max_of_all values last)
    max_of_all-AreBelow [] last z h = (h, tt)
    max_of_all-AreBelow (x ∷ values) last z h =
        let (a, b) = rounded.max-lt x (max_of_all values last) z h in
        let (c, d) = max_of_all-AreBelow values last z b in (c, (a, d))

    pub min_of_all-AreAbove :
        (values : List N) (last : N) → AreAbove (last ∷ values) (min_of_all values last)
    min_of_all-AreAbove [] last z h = (h, tt)
    min_of_all-AreAbove (x ∷ values) last z h =
        let (a, b) = rounded.lt-min x (min_of_all values last) z h in
        let (c, d) = min_of_all-AreAbove values last z b in (c, (a, d))

    pub add-AreBelow :
        (values : List N) (sup padding : N)
        → negative padding ≡ false
        → AreBelow values sup
        → AreBelow values (n.add sup padding)
    add-AreBelow values sup padding p h z e = h z (rounded.add-lt sup padding z p e)

    pub sub-AreAbove :
        (values : List N) (inf padding : N)
        → negative padding ≡ false
        → AreAbove values inf
        → AreAbove values (n.sub inf padding)
    sub-AreAbove values inf padding p h z e = h z (rounded.lt-sub inf padding z p e)

    -- The smallest of values that are not below 0 is not below 0.
    pub min_of_all-nonneg :
        (values : List N) (last : N)
        → negative last ≡ false
        → All (λ x. negative x ≡ false) values
        → negative (min_of_all values last) ≡ false
    min_of_all-nonneg [] last h k = h
    min_of_all-nonneg (x ∷ values) last h (k, ks) = ground (
      arith,
      rounded.min-lt x (min_of_all values last) (n.of_ℕ 0),
      min_of_all-nonneg values last h ks,
      k,
    )

    pub max_of-nonneg : (x y : N) → negative y ≡ false → negative (n.max_of x y) ≡ false
    max_of-nonneg x y h = ground (arith, rounded.max-lt x y (n.of_ℕ 0), h)
