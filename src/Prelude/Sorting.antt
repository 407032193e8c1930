-- ===== src/Prelude/Sorting.antt =====
-- JavaScript's `sort` is stable, so with a comparison that orders the elements it gives the list that
-- insertion gives: each element is put before the first one that it may precede.
use Prim.Native.Nat.{suc}
use mathlib.Core.Path.{◌≡◌, refl}
use native.Mathlib.Omega.{arith}
use mathlib.Core.Logic.{◌⊎◌, inl, inr}
use mathlib.Core.Bool.{Bool, true, false}
use mathlib.Core.List.{List, [], ◌∷◌, Perm}
use mathlib.Core.List.Perm
use perps_latency_benchmark.Prelude.Tests.{Bool-cases, if◌then◌else◌}
use perps_latency_benchmark.Prelude.Lists.{All, Any, Pairwise, length}

module _ {ℓ} {A : Type ℓ} (before : A → A → Bool) where
  abbrev pub insert_sorted : A → List A → List A
  insert_sorted x [] = x ∷ []
  insert_sorted x (y ∷ ys) =
      let later = y ∷ insert_sorted x ys in if before x y then x ∷ y ∷ ys else later

  abbrev pub sort : List A → List A
  sort [] = []
  sort (x ∷ xs) = insert_sorted x (sort xs)

  -- Every element may precede all behind it.
  abbrev pub IsSorted : List A → Type 0
  IsSorted [] = Unit
  IsSorted (x ∷ xs) = All (λ y. before x y ≡ true) xs × IsSorted xs

  pub insert_sorted-perm : (x : A) (ys : List A) → Perm (insert_sorted x ys) (x ∷ ys)
  insert_sorted-perm x [] = Perm.refl _
  insert_sorted-perm x (y ∷ ys) = elim (Bool-cases (before x y)) [
    | inl h ↦ rw h (Perm.refl _)
    | inr h ↦ rw h (Perm.trans (Perm.cons y (insert_sorted-perm x ys)) (Perm.swap _ _ _))
  ]

  pub sort-perm : (xs : List A) → Perm (sort xs) xs
  sort-perm [] = Perm.refl []
  sort-perm (x ∷ xs) = Perm.trans (insert_sorted-perm x (sort xs)) (Perm.cons x (sort-perm xs))

  All-insert_sorted :
      (P : A → Type 0) (x : A) (ys : List A) → P x → All P ys → All P (insert_sorted x ys)
  All-insert_sorted P x [] h k = (h, tt)
  All-insert_sorted P x (y ∷ ys) h (k, ks) = elim (Bool-cases (before x y)) [
    | inl e ↦ rw e (h, (k, ks))
    | inr e ↦ rw e (k, All-insert_sorted P x ys h ks)
  ]

  pub All-sort : (P : A → Type 0) (xs : List A) → All P xs → All P (sort xs)
  All-sort P [] h = tt
  All-sort P (x ∷ xs) (h, hs) = All-insert_sorted P x (sort xs) h (All-sort P xs hs)

  All-insert_sorted_inv :
      (P : A → Type 0) (x : A) (ys : List A) → All P (insert_sorted x ys) → P x × All P ys
  All-insert_sorted_inv P x [] (h, _) = (h, tt)
  All-insert_sorted_inv P x (y ∷ ys) h = elim (Bool-cases (before x y)) [
    | inl e ↦ rw e at h
    | inr e ↦
        let (k, ks) = rw e at h in let (l, ls) = All-insert_sorted_inv P x ys ks in (l, (k, ls))
  ]

  pub All-sort_inv : (P : A → Type 0) (xs : List A) → All P (sort xs) → All P xs
  All-sort_inv P [] h = tt
  All-sort_inv P (x ∷ xs) h =
      let (k, ks) = All-insert_sorted_inv P x (sort xs) h in (k, All-sort_inv P xs ks)

  module _ (P : A → Type 0) (total : (x y : A) → before x y ≡ false → before y x ≡ true)
      (transitive : (x y z : A)
        → P y
        → before x y ≡ true
        → before y z ≡ true
        → before x z ≡ true) where
    All-trans :
        (x y : A) (zs : List A)
        → P y
        → before x y ≡ true
        → All (λ z. before y z ≡ true) zs
        → All (λ z. before x z ≡ true) zs
    All-trans x y [] p h k = tt
    All-trans x y (z ∷ zs) p h (k, ks) = (transitive x y z p h k, All-trans x y zs p h ks)

    insert_sorted-IsSorted :
        (x : A) (ys : List A) → All P ys → IsSorted ys → IsSorted (insert_sorted x ys)
    insert_sorted-IsSorted x [] p h = (tt, tt)
    insert_sorted-IsSorted x (y ∷ ys) (p, ps) (h, hs) = elim (Bool-cases (before x y)) [
      | inl e ↦ rw e ((e, All-trans x y ys p e h), (h, hs))
      | inr e ↦ rw e (
        All-insert_sorted (λ z. before y z ≡ true) x ys (total x y e) h,
        insert_sorted-IsSorted x ys ps hs,
      )
    ]

    -- Of elements over which the order is transitive.
    pub sort-IsSorted_of : (xs : List A) → All P xs → IsSorted (sort xs)
    sort-IsSorted_of [] h = tt
    sort-IsSorted_of (x ∷ xs) (h, hs) =
        insert_sorted-IsSorted x (sort xs) (All-sort P xs hs) (sort-IsSorted_of xs hs)

  Any-insert_sorted :
      (P : A → Type 0) (x : A) (xs : List A) → P x ⊎ Any P xs → Any P (insert_sorted x xs)
  Any-insert_sorted P x [] h = h
  Any-insert_sorted P x (y ∷ xs) h = elim (Bool-cases (before x y)) [
    | inl e ↦ rw e h
    | inr e ↦ rw e (elim h [
      | inl k ↦ inr (Any-insert_sorted P x xs (inl k))
      | inr (inl k) ↦ inl k
      | inr (inr k) ↦ inr (Any-insert_sorted P x xs (inr k))
    ])
  ]

  pub Any-sort : (P : A → Type 0) (xs : List A) → Any P xs → Any P (sort xs)
  Any-sort P [] h = elim h [ ]
  Any-sort P (x ∷ xs) (inl h) = Any-insert_sorted P x (sort xs) (inl h)
  Any-sort P (x ∷ xs) (inr h) = Any-insert_sorted P x (sort xs) (inr (Any-sort P xs h))

  module _ (R : A → A → Type 0) (symmetric : (x y : A) → R x y → R y x) where
    insert_sorted-Pairwise :
        (x : A) (ys : List A) → All (R x) ys → Pairwise R ys → Pairwise R (insert_sorted x ys)
    insert_sorted-Pairwise x [] h k = (tt, tt)
    insert_sorted-Pairwise x (y ∷ ys) (h, hs) (k, ks) = elim (Bool-cases (before x y)) [
      | inl e ↦ rw e ((h, hs), (k, ks))
      | inr e ↦
          rw e (All-insert_sorted (R y) x ys (symmetric x y h) k, insert_sorted-Pairwise x ys hs ks)
    ]

    pub sort-Pairwise : (xs : List A) → Pairwise R xs → Pairwise R (sort xs)
    sort-Pairwise [] h = tt
    sort-Pairwise (x ∷ xs) (h, hs) =
        insert_sorted-Pairwise x (sort xs) (All-sort (R x) xs h) (sort-Pairwise xs hs)

  abbrev Anything : A → Type 0
  Anything x = Unit

  All-Anything : (xs : List A) → All Anything xs
  All-Anything [] = tt
  All-Anything (x ∷ xs) = (tt, All-Anything xs)

  pub sort-IsSorted :
      (total : (x y : A) → before x y ≡ false → before y x ≡ true)
      → (transitive : (x y z : A) → before x y ≡ true → before y z ≡ true → before x z ≡ true)
      → (xs : List A) → IsSorted (sort xs)
  sort-IsSorted total transitive xs =
      sort-IsSorted_of Anything total (λ x y z _ h k. transitive x y z h k) xs (All-Anything xs)

  length-insert_sorted : (x : A) (xs : List A) → length (insert_sorted x xs) ≡ suc (length xs)
  length-insert_sorted x [] = refl
  length-insert_sorted x (y ∷ xs) = ground (arith, length-insert_sorted x xs)

  pub length-sort : (xs : List A) → length (sort xs) ≡ length xs
  length-sort [] = refl
  length-sort (x ∷ xs) = ground (arith, length-insert_sorted x (sort xs), length-sort xs)
