-- ===== src/Prelude/Strings.antt =====
-- A JavaScript string is the list of its UTF-16 code units. `toLowerCase` is modelled on the ASCII
-- letters, which is what venue names, order types and sides are made of.
use Prim.Native.Char.{code}
use Prim.Native.String.{String}
use Prim.Native.Nat.{◌≤◌, ℕ, zero, suc, ◌+◌, ◌/◌, ◌%◌}
use mathlib.Core.Path.{◌≡◌, refl}
use mathlib.Core.Logic.{◌↔◌, ◌⊎◌}
use mathlib.Core.Bool.{Bool, true, false, ◌&&◌, ◌||◌}
use mathlib.Core.Option.{Option, none, some}
use mathlib.Core.List.{List, [], ◌∷◌, ◌++◌, map, reverse}
use native.Mathlib.Omega.{arith}
use perps_latency_benchmark.Prelude.Tests.{ltb, leb, ◌==◌, if◌then◌else◌}

abbrev pub Text : Type 0
Text = List ℕ

-- A literal of the source.
abbrev pub txt : String → Text
txt String.[] = []
txt (String.◌∷◌ c s) = code c ∷ txt s

-- JavaScript's `===` on strings.
infix 50 ◌===◌
unfoldable pub ◌===◌ : Text → Text → Bool
[] === [] = true
[] === (b ∷ t) = false
(a ∷ s) === [] = false
(a ∷ s) === (b ∷ t) = a == b && s === t

pub ===_iff : (s t : Text) → ((s === t) ≡ true) ↔ (s ≡ t)
unfolding ◌===◌
===_iff [] [] = (λ h. refl, λ h. refl)
===_iff [] (b ∷ t) = (λ h. cc, λ h. cc)
===_iff (a ∷ s) [] = (λ h. cc, λ h. cc)
===_iff (a ∷ s) (b ∷ t) = ground (arith, ===_iff s t)

pub ===_refl : (s : Text) → (s === s) ≡ true
===_refl s = (===_iff s s).1 refl

-- `list.includes(value)`.
unfoldable pub includes_text : List Text → Text → Bool
includes_text [] v = false
includes_text (x ∷ xs) v = x === v || includes_text xs v

abbrev pub MemText : Text → List Text → Type 0
MemText v [] = ⊥
MemText v (x ∷ xs) = (x ≡ v) ⊎ MemText v xs

pub includes_text_iff : (xs : List Text) (v : Text) → (includes_text xs v ≡ true) ↔ MemText v xs
unfolding includes_text
includes_text_iff [] v = (λ h. cc, λ h. elim h [ ])
includes_text_iff (x ∷ xs) v = ground (arith, ===_iff x v, includes_text_iff xs v)

-- `value.startsWith(prefix)`, the prefix first.
unfoldable pub starts_with : Text → Text → Bool
starts_with [] v = true
starts_with (p ∷ ps) [] = false
starts_with (p ∷ ps) (c ∷ v) = p == c && starts_with ps v

-- `value.includes(part)`, the part first.
unfoldable pub has_infix : Text → Text → Bool
unfolding starts_with
has_infix part [] = starts_with part []
has_infix part (c ∷ v) = starts_with part (c ∷ v) || has_infix part v

-- What `trim` removes: ECMAScript's white space and line terminators.
unfoldable pub is_space : ℕ → Bool
is_space c =
    (leb 9 c && leb c 13)
    || c == 32
    || c == 160
    || c == 0x1680
    || (leb 0x2000 c && leb c 0x200a)
    || c == 0x2028
    || c == 0x2029
    || c == 0x202f
    || c == 0x205f
    || c == 0x3000
    || c == 0xfeff

unfoldable pub trim_start : Text → Text
trim_start [] = []
trim_start (c ∷ v) = if is_space c then trim_start v else c ∷ v

unfoldable pub trim : Text → Text
unfolding trim_start is_space
trim v = reverse (trim_start (reverse (trim_start v)))

abbrev pub is_blank : Text → Bool
is_blank [] = true
is_blank (c ∷ v) = false

unfoldable pub to_lower_unit : ℕ → ℕ
to_lower_unit c = if leb b'A' c && leb c b'Z' then c + 32 else c

unfoldable pub to_lower : Text → Text
unfolding to_lower_unit
to_lower = map to_lower_unit

-- `value.split(separator)` for a separator of one code unit: the pieces, in order.
split_from : ℕ → Text → Text → List Text
split_from sep piece [] = reverse piece ∷ []
split_from sep piece (c ∷ v) =
    let closed = split_from sep [] v in
    let longer = split_from sep (c ∷ piece) v in if c == sep then reverse piece ∷ closed else longer

unfoldable pub split_on : ℕ → Text → List Text
unfolding split_from
split_on sep v = split_from sep [] v

-- The last code unit, and `value.slice(0, -1)`.
unfoldable pub last_unit : Text → Option ℕ
last_unit [] = none
last_unit (c ∷ []) = some c
last_unit (c ∷ d ∷ v) = last_unit (d ∷ v)

abbrev pub ends_with_unit : ℕ → Text → Bool
ends_with_unit c v = elim (last_unit v) [ none ↦ false | some d ↦ d == c ]

unfoldable pub drop_last : Text → Text
drop_last [] = []
drop_last (c ∷ []) = []
drop_last (c ∷ d ∷ v) = c ∷ drop_last (d ∷ v)

-- A number in decimal, as a template literal writes an integer below 10 ^ 21.
digits_from : ℕ → ℕ → Text → Text
digits_from zero n out = out
digits_from (suc f) n out =
    let more = digits_from f (n / 10) ((48 + n % 10) ∷ out) in
    if ltb n 10 then (48 + n) ∷ out else more

unfoldable pub decimal : ℕ → Text
unfolding digits_from
decimal n = digits_from (suc n) n []

pub starts_with-split : (p v : Text) → starts_with p v ≡ true → (rest : Text) × (v ≡ p ++ rest)
unfolding starts_with
starts_with-split [] v h = (v, refl)
starts_with-split (c ∷ p) [] h = cc
starts_with-split (c ∷ p) (d ∷ v) h =
    let (rest, e) = starts_with-split p v (ground arith) in (rest, ground arith)

abbrev pub BeginsWithDigit : Text → Type 0
BeginsWithDigit [] = ⊥
BeginsWithDigit (c ∷ v) = (48 ≤ c) × (c ≤ 57)

digits_from-BeginsWithDigit : (f n : ℕ) (out : Text) → BeginsWithDigit (digits_from (suc f) n out)
unfolding digits_from
digits_from-BeginsWithDigit zero n out = ground arith
digits_from-BeginsWithDigit (suc f) n out =
    ground (arith, digits_from-BeginsWithDigit f (n / 10) ((48 + n % 10) ∷ out))

pub decimal-BeginsWithDigit : (n : ℕ) → BeginsWithDigit (decimal n)
unfolding decimal
decimal-BeginsWithDigit n = digits_from-BeginsWithDigit n n []
