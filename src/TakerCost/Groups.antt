-- ===== src/TakerCost/Groups.antt =====
-- Groups of records by a key, as a JavaScript Map in the order of insertion
-- (stableCostWindow and summarizeSlippage of frontend/src/lib/taker-cost.ts).
use mathlib.Core.List.{append-nil, append_assoc}
use perps_latency_benchmark.Prelude.{
  ◌⊎◌, ◌≡◌, refl, Bool, true, false, Bool-cases, inl, inr, List, [], ◌∷◌, ◌++◌, keep, All, ◌↔◌,
  if◌then◌else◌, ap, ◌∙◌, sym, subst,
}

module _ {K A : Type 0} (same : K → K → Bool) (key : A → K) where
  -- `grouped.set(key, [...(grouped.get(key) ?? []), record])`
  abbrev pub add_to_group : A → List (K × List A) → List (K × List A)
  add_to_group a [] = (key a, a ∷ []) ∷ []
  add_to_group a ((k, group) ∷ groups) =
      let later = (k, group) ∷ add_to_group a groups in
      if same k (key a) then (k, group ++ a ∷ []) ∷ groups else later

  abbrev pub groups_from : List (K × List A) → List A → List (K × List A)
  groups_from groups [] = groups
  groups_from groups (a ∷ rest) = groups_from (add_to_group a groups) rest

  unfoldable pub group_by : List A → List (K × List A)
  group_by all = groups_from [] all

  -- The elements with a key.
  abbrev pub with_key : K → List A → List A
  with_key k all = keep (λ a. same (key a) k) all

  abbrev pub IsWhole : List A → K × List A → Type 0
  IsWhole all (k, group) = group ≡ with_key k all

  abbrev pub HasNoKey : K → List (K × List A) → Type 0
  HasNoKey k = All (λ g. same g.0 k ≡ false)

  abbrev IsDistinct : List (K × List A) → Type 0
  IsDistinct [] = Unit
  IsDistinct ((k, group) ∷ groups) = HasNoKey k groups × IsDistinct groups

  with_key-snoc_other :
      (k : K) (all : List A) (a : A)
      → same (key a) k ≡ false
      → with_key k (all ++ a ∷ []) ≡ with_key k all
  with_key-snoc_other k [] a h = rw h refl
  with_key-snoc_other k (x ∷ all) a h = elim (Bool-cases (same (key x) k)) [
    | inl e ↦ rw e (ap (λ (l : List A). x ∷ l) (with_key-snoc_other k all a h))
    | inr e ↦ rw e (with_key-snoc_other k all a h)
  ]

  with_key-snoc_same :
      (k : K) (all : List A) (a : A)
      → same (key a) k ≡ true
      → with_key k (all ++ a ∷ []) ≡ with_key k all ++ a ∷ []
  with_key-snoc_same k [] a h = rw h refl
  with_key-snoc_same k (x ∷ all) a h = elim (Bool-cases (same (key x) k)) [
    | inl e ↦ rw e (ap (λ (l : List A). x ∷ l) (with_key-snoc_same k all a h))
    | inr e ↦ rw e (with_key-snoc_same k all a h)
  ]

  module _ (same_iff : (k l : K) → (same k l ≡ true) ↔ (k ≡ l)) where
    same_symm : (k l : K) → same k l ≡ false → same l k ≡ false
    same_symm k l h = elim (Bool-cases (same l k)) [
      | inl e ↦ cc (h, (same_iff k l).1 (sym ((same_iff l k).0 e)))
      | inr e ↦ e
    ]

    HasNoKey-add :
        (k : K) (a : A) (groups : List (K × List A))
        → same k (key a) ≡ false
        → HasNoKey k groups
        → HasNoKey k (add_to_group a groups)
    HasNoKey-add k a [] h n = (same_symm k (key a) h, tt)
    HasNoKey-add k a ((l, group) ∷ groups) h (n, ns) = elim (Bool-cases (same l (key a))) [
      | inl e ↦ rw e (n, ns)
      | inr e ↦ rw e (n, HasNoKey-add k a groups h ns)
    ]

    IsDistinct-add :
        (a : A) (groups : List (K × List A))
        → IsDistinct groups
        → IsDistinct (add_to_group a groups)
    IsDistinct-add a [] d = (tt, tt)
    IsDistinct-add a ((l, group) ∷ groups) (n, d) = elim (Bool-cases (same l (key a))) [
      | inl e ↦ rw e (n, d)
      | inr e ↦ rw e (HasNoKey-add l a groups e n, IsDistinct-add a groups d)
    ]

    IsWhole-other :
        (all : List A) (a : A) (groups : List (K × List A))
        → HasNoKey (key a) groups
        → All (IsWhole all) groups
        → All (IsWhole (all ++ a ∷ [])) groups
    IsWhole-other all a [] n w = tt
    IsWhole-other all a ((l, group) ∷ groups) (n, ns) (w, ws) = (
      w ∙ sym (with_key-snoc_other l all a (same_symm l (key a) n)),
      IsWhole-other all a groups ns ws,
    )

    -- `fresh` says that no element of a missing key was seen.
    IsWhole-add :
        (all : List A) (a : A) (groups : List (K × List A))
        → IsDistinct groups
        → (HasNoKey (key a) groups → with_key (key a) all ≡ [])
        → All (IsWhole all) groups
        → All (IsWhole (all ++ a ∷ [])) (add_to_group a groups)
    IsWhole-add all a [] d fresh w = (
      sym (
          with_key-snoc_same (key a) all a ((same_iff (key a) (key a)).1 refl)
          ∙ ap (λ (l : List A). l ++ a ∷ []) (fresh tt)),
      tt,
    )
    IsWhole-add all a ((l, group) ∷ groups) (n, d) fresh (w, ws) =
        elim (Bool-cases (same l (key a))) [
          | inl e ↦
              let same_key = (same_iff l (key a)).0 e in
              rw e (
                ap (λ (g : List A). g ++ a ∷ []) w
                    ∙ sym (with_key-snoc_same l all a ((same_iff (key a) l).1 (sym same_key))),
                IsWhole-other all a groups (subst (λ k. HasNoKey k groups) same_key n) ws,
              )
          | inr e ↦ rw e (
            w ∙ sym (with_key-snoc_other l all a (same_symm l (key a) e)),
            IsWhole-add all a groups d (λ ns. fresh (e, ns)) ws,
          )
        ]

    HasNoKey-add_inv :
        (k : K) (a : A) (groups : List (K × List A))
        → HasNoKey k (add_to_group a groups)
        → HasNoKey k groups × (same (key a) k ≡ false)
    HasNoKey-add_inv k a [] (h, n) = (tt, h)
    HasNoKey-add_inv k a ((l, group) ∷ groups) n = elim (Bool-cases (same l (key a))) [
      | inl e ↦
          let (h, ns) = rw e at n in
          ((h, ns), subst (λ x. same x k ≡ false) ((same_iff l (key a)).0 e) h)
      | inr e ↦
          let (h, ns) = rw e at n in
          let (rest, other) = HasNoKey-add_inv k a groups ns in ((h, rest), other)
    ]

    groups_from-IsWhole :
        (seen : List A) (groups : List (K × List A)) (rest : List A)
        → IsDistinct groups
        → ((k : K) → HasNoKey k groups → with_key k seen ≡ [])
        → All (IsWhole seen) groups
        → All (IsWhole (seen ++ rest)) (groups_from groups rest)
    groups_from-IsWhole seen groups [] d fresh w = rw append-nil w
    groups_from-IsWhole seen groups (a ∷ rest) d fresh w =
        subst (λ l. All (IsWhole l) (groups_from (add_to_group a groups) rest))
          (append_assoc seen (a ∷ []) rest)
          (groups_from-IsWhole (seen ++ a ∷ []) (add_to_group a groups) rest
            (IsDistinct-add a groups d)
            (λ k n.
              let (rest_free, other) = HasNoKey-add_inv k a groups n in
              with_key-snoc_other k seen a other ∙ fresh k rest_free)
            (IsWhole-add seen a groups d (fresh (key a)) w))

    -- Each group of a list holds all the elements with its key, in the order of the list, where
    -- `same` tells keys apart.
    pub group_by-IsWhole : (all : List A) → All (IsWhole all) (group_by all)
    unfolding group_by
    group_by-IsWhole all = groups_from-IsWhole [] [] all tt (λ k n. refl) tt

    groups_from-covers :
        (seen : List A) (groups : List (K × List A)) (rest : List A)
        → ((k : K) → HasNoKey k groups → with_key k seen ≡ [])
        → (k : K) → HasNoKey k (groups_from groups rest)
        → with_key k (seen ++ rest) ≡ []
    groups_from-covers seen groups [] fresh k n = rw append-nil (fresh k n)
    groups_from-covers seen groups (a ∷ rest) fresh k n =
        subst (λ l. with_key k l ≡ []) (append_assoc seen (a ∷ []) rest)
          (groups_from-covers (seen ++ a ∷ []) (add_to_group a groups) rest
            (λ l m.
              let (rest_free, other) = HasNoKey-add_inv l a groups m in
              with_key-snoc_other l seen a other ∙ fresh l rest_free)
            k n)

    -- A key without a group is the key of no element.
    pub group_by-covers : (all : List A) (k : K) → HasNoKey k (group_by all) → with_key k all ≡ []
    unfolding group_by
    group_by-covers all = groups_from-covers [] [] all (λ k n. refl)

    -- What holds of every group holds of a key's group, if it has one.
    pub find_group :
        (P : K × List A → Type 0) (k : K) (groups : List (K × List A))
        → All P groups
        → HasNoKey k groups ⊎ ((group : List A) × P (k, group))
    find_group P k [] h = inl tt
    find_group P k ((l, group) ∷ groups) (h, hs) = elim (Bool-cases (same l k)) [
      | inl e ↦ inr (group, subst (λ x. P (x, group)) ((same_iff l k).0 e) h)
      | inr e ↦ elim (find_group P k groups hs) [ inl n ↦ inl (e, n) | inr found ↦ inr found ]
    ]
