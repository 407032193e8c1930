-- ===== src/Json.antt =====
-- JSON values as the frontend reads and writes them (frontend/src/api/bench.server.ts,
-- frontend/src/api/advanced-auth.server.ts). A number is kept as its literal, since the code that
-- passes JSON on never computes with one. `undefined` is `none`.
use perps_latency_benchmark.Prelude.{
  inr, decimal-BeginsWithDigit, inl, Bool-cases, BeginsWithDigit, refl, ===_iff, ===_refl, arith,
  or_option, ◌≡◌, ℕ, suc, Bool, true, false, Option, none, some, List, [], ◌∷◌, Text, ◌===◌,
  decimal, if◌then◌else◌,
}

mutual
  pub data Json : Type 0 where
    null : Json
    bool : Bool → Json
    num : Text → Json
    str : Text → Json
    arr : Items → Json
    obj : Fields → Json

  pub data Items : Type 0 where
    nil : Items
    cons : Json → Items → Items

  pub data Fields : Type 0 where
    end : Fields
    field : Text → Json → Fields → Fields

abbrev pub items : Items → List Json
items nil = []
items (cons v vs) = v ∷ items vs

abbrev pub of_items : List Json → Items
of_items [] = nil
of_items (v ∷ vs) = cons v (of_items vs)

-- A property of an object.
unfoldable pub lookup : Text → Fields → Option Json
lookup k end = none
lookup k (field j v fs) = if j === k then some v else lookup k fs

-- `value.key` on any value; an array has none of the keys that the code reads.
unfoldable pub get : Text → Json → Option Json
unfolding lookup
get k (obj fs) = lookup k fs
get k _ = none

-- `{ ...fields, key: value }`: a key that is there keeps its place.
unfoldable pub put : Text → Json → Fields → Fields
put k v end = field k v end
put k v (field j w fs) = if j === k then field j v fs else field j w (put k v fs)

-- The own properties that a spread copies from an array: its elements under their indices.
spread_items : ℕ → Items → Fields
spread_items i nil = end
spread_items i (cons v vs) = field (decimal i) v (spread_items (suc i) vs)

-- The own properties that a spread copies from a value.
unfoldable pub spread : Json → Fields
unfolding spread_items decimal
spread (obj fs) = fs
spread (arr vs) = spread_items 0 vs
spread _ = end

-- An object literal whose undefined properties are left out.
unfoldable pub omit_undefined : List (Text × Option Json) → Fields
omit_undefined [] = end
omit_undefined ((k, none) ∷ fs) = omit_undefined fs
omit_undefined ((k, some v) ∷ fs) = field k v (omit_undefined fs)

abbrev pub is_array : Json → Bool
is_array (arr _) = true
is_array _ = false

-- Reading a field back.
pub lookup-put :
    (k j : Text) (v : Json) (fs : Fields)
    → lookup j (put k v fs) ≡ (if k === j then some v else lookup j fs)
unfolding lookup put
lookup-put k j v end = refl
lookup-put k j v (field i w fs) =
    ground (arith, lookup-put k j v fs, ===_iff i k, ===_iff i j, ===_iff k j)

pub lookup-put_self : (k : Text) (v : Json) (fs : Fields) → lookup k (put k v fs) ≡ some v
lookup-put_self k v fs = rw (lookup-put, ===_refl)

pub items-of_items : (vs : List Json) → items (of_items vs) ≡ vs
items-of_items [] = refl
items-of_items (v ∷ vs) = rw (items-of_items vs)

-- The value of a key in an object literal; the last one written stands for it.
abbrev pub find_defined : Text → List (Text × Option Json) → Option Json
find_defined k [] = none
find_defined k ((j, v) ∷ fs) =
    let rest = find_defined k fs in if j === k then or_option v rest else rest

pub lookup-omit_undefined :
    (k : Text) (fs : List (Text × Option Json)) → lookup k (omit_undefined fs) ≡ find_defined k fs
unfolding lookup omit_undefined
lookup-omit_undefined k [] = refl
lookup-omit_undefined k ((j, none) ∷ fs) = ground (arith, lookup-omit_undefined k fs)
lookup-omit_undefined k ((j, some v) ∷ fs) = ground (arith, lookup-omit_undefined k fs)

pub or_option-none : (o : Option Json) → or_option o none ≡ o
or_option-none none = refl
or_option-none (some v) = refl

-- An array has no property under a name.
lookup-spread_items :
    (k : Text) (i : ℕ) (vs : Items) → ¬ BeginsWithDigit k → lookup k (spread_items i vs) ≡ none
unfolding lookup spread_items
lookup-spread_items k i nil h = refl
lookup-spread_items k i (cons v vs) h = elim (Bool-cases (decimal i === k)) [
  | inl e ↦ absurd (h (rw ((===_iff (decimal i) k).0 e) at (decimal-BeginsWithDigit i)))
  | inr e ↦ rw e (lookup-spread_items k (suc i) vs h)
]

-- A spread keeps what is read under a name.
pub lookup-spread : (k : Text) (v : Json) → ¬ BeginsWithDigit k → lookup k (spread v) ≡ get k v
unfolding lookup spread get
lookup-spread k (arr vs) h = lookup-spread_items k 0 vs h
lookup-spread k (obj fs) h = refl
lookup-spread k _ h = refl
