-- ===== src/Chart/Colors.antt =====
-- The colour of a venue (colorForVenue of frontend/src/components/charts/latency-timeseries-chart.tsx).
-- `charCodeAt` gives the code units that a text consists of.
use perps_latency_benchmark.Prelude.{
  includes_text_iff, includes_text, MemText, to_lower, ◌^◌, ℕ, ◌+◌, ◌*◌, ◌%◌, ◌≡◌, refl, subst, ◌↔◌,
  inl, inr, true, Option, none, some, List, [], ◌∷◌, arith, length, get_elem?, get_elem?-IsInside,
  Text, txt, ◌===◌, if◌then◌else◌,
}

abbrev pub colors : List Text
colors =
    txt "oklch(0.52 0.17 215)"
    ∷ txt "oklch(0.5 0.14 160)"
    ∷ txt "oklch(0.6 0.16 40)"
    ∷ txt "oklch(0.55 0.16 285)"
    ∷ txt "oklch(0.58 0.17 18)"
    ∷ txt "oklch(0.45 0.08 250)"
    ∷ []

abbrev known_venue_colors : List (Text × Text)
known_venue_colors =
    (txt "aster", txt "oklch(0.68 0.17 65)")
    ∷ (txt "edgex", txt "oklch(0.6 0.16 40)")
    ∷ (txt "extended", txt "oklch(0.58 0.17 18)")
    ∷ (txt "grvt", txt "oklch(0.45 0.08 250)")
    ∷ (txt "hyperliquid", txt "oklch(0.54 0.17 150)")
    ∷ (txt "lighter", txt "oklch(0.55 0.17 245)")
    ∷ (txt "lighter_free", txt "oklch(0.66 0.16 220)")
    ∷ (txt "nado", txt "oklch(0.55 0.18 305)")
    ∷ (txt "nado_direct", txt "oklch(0.65 0.16 325)")
    ∷ (txt "variational_omni", txt "oklch(0.62 0.15 75)")
    ∷ []

-- The value of an object's own property.
abbrev own : List (Text × Text) → Text → Option Text
own [] key = none
own ((k, value) ∷ rest) key = let later = own rest key in if k === key then some value else later

-- `(hash * 31 + venue.charCodeAt(index)) >>> 0`, over the code units from `index` on.
unfoldable pub hash_from : ℕ → Text → ℕ
hash_from hash [] = hash
hash_from hash (unit ∷ venue) = hash_from ((hash * 31 + unit) % 2 ^ 32) venue

-- The names in lower case that every object inherits; the values there are no texts.
abbrev inherited_names : List Text
inherited_names = txt "constructor" ∷ txt "__proto__" ∷ []

-- `none` is a value that is no text.
unfoldable pub color_for_venue : Text → Option Text
unfolding hash_from to_lower includes_text
color_for_venue venue = elim (own known_venue_colors (to_lower venue)) [
  | some color ↦ some color
  | none ↦
      if includes_text inherited_names (to_lower venue)
      then none
      else get_elem? colors (hash_from 0 venue % length colors)
]

inherited_name-IsUncolored :
    (name : Text) → MemText name inherited_names → own known_venue_colors name ≡ none
unfolding ◌===◌
inherited_name-IsUncolored name (inl e) = subst (λ t. own known_venue_colors t ≡ none) e refl
inherited_name-IsUncolored name (inr (inl e)) = subst (λ t. own known_venue_colors t ≡ none) e refl
inherited_name-IsUncolored name (inr (inr e)) = elim e [ ]

-- A venue has a colour, its own or one of the palette, exactly when its name in lower case is not one
-- that objects inherit.
pub color_for_venue-eq-none_iff :
    (venue : Text)
    → (color_for_venue venue ≡ none) ↔ (includes_text inherited_names (to_lower venue) ≡ true)
unfolding color_for_venue
color_for_venue-eq-none_iff venue = ground (
  arith,
  inherited_name-IsUncolored (to_lower venue),
  includes_text_iff inherited_names (to_lower venue),
  get_elem?-IsInside colors (hash_from 0 venue % 6),
)
