-- ===== src/Theme.antt =====
-- The theme of the page (frontend/src/components/theme-provider.tsx): the script that runs before the page
-- is drawn, and the provider that takes over. `prefers_dark` is what `matchMedia` says of
-- `(prefers-color-scheme: dark)`, and `stored` is the item of the local storage.
pub mod Provider
use perps_latency_benchmark.Prelude.{
  ◌≡◌, refl, sym, subst, inl, inr, Bool, true, false, not, ◌&&◌, ◌||◌, Option, none, some, List, [],
  ◌∷◌, arith, keep, All, Text, txt, ◌===◌, ===_iff, Bool-cases, if◌then◌else◌, value_or,
}

pub data Theme : Type 0 where
  dark light system : Theme

abbrev pub theme_text : Theme → Text
theme_text dark = txt "dark"
theme_text light = txt "light"
theme_text system = txt "system"

-- What the themes set of the root element.
pub record Root : Type 0 where
  pub classes : List Text
  pub color_scheme : Text

unfoldable pub resolve_theme : Bool → Theme → Text
resolve_theme prefers_dark system = if prefers_dark then txt "dark" else txt "light"
resolve_theme prefers_dark dark = txt "dark"
resolve_theme prefers_dark light = txt "light"

-- `classList.add(name)`
abbrev pub add_class : Text → List Text → List Text
add_class name [] = name ∷ []
add_class name (c ∷ classes) =
    let later = c ∷ add_class name classes in if c === name then c ∷ classes else later

abbrev pub is_theme_class : Text → Bool
is_theme_class name = name === txt "light" || name === txt "dark"

unfoldable pub apply_theme : Bool → Theme → Root → Root
unfolding resolve_theme ◌===◌
apply_theme prefers_dark theme root = record {
  classes =
      add_class (resolve_theme prefers_dark theme)
        (keep (λ c. not (is_theme_class c)) root.classes);
  color_scheme = resolve_theme prefers_dark theme;
}

unfoldable pub stored_theme : Option Text → Option Theme
unfolding ◌===◌
stored_theme none = none
stored_theme (some value) =
    if value === txt "dark"
    then some dark
    else if value === txt "light"
    then some light
    else if value === txt "system"
    then some system
    else none

-- The theme that the provider has when it is mounted.
unfoldable pub mounted_theme : Option Text → Theme → Theme
unfolding stored_theme
mounted_theme stored default = value_or (stored_theme stored) default

-- `t!=='light'&&t!=='dark'&&t!=='system'`
abbrev pub is_no_theme : Option Text → Bool
is_no_theme none = true
is_no_theme (some t) = not (t === txt "light") && not (t === txt "dark") && not (t === txt "system")

-- The variable `r` of the script.
unfoldable pub script_theme : Bool → Option Text → Theme → Text
unfolding ◌===◌
script_theme prefers_dark stored default =
    let t = if is_no_theme stored then theme_text default else value_or stored [] in
    if t === txt "system" then if prefers_dark then txt "dark" else txt "light" else t

unfoldable pub run_theme_script : Bool → Option Text → Theme → Root → Root
unfolding script_theme
run_theme_script prefers_dark stored default root = record {
  classes = add_class (script_theme prefers_dark stored default) root.classes;
  color_scheme = script_theme prefers_dark stored default;
}

text_of_default :
    (prefers_dark : Bool) (default : Theme)
    → (if theme_text default === txt "system"
        then if prefers_dark then txt "dark" else txt "light"
        else theme_text default)
      ≡ resolve_theme prefers_dark default
unfolding ◌===◌ resolve_theme
text_of_default prefers_dark dark = refl
text_of_default prefers_dark light = refl
text_of_default prefers_dark system = refl

-- That the script and the provider agree, of an item.
abbrev Agree : Bool → Theme → Text → Type 0
Agree prefers_dark default t =
    script_theme prefers_dark (some t) default
    ≡ resolve_theme prefers_dark (mounted_theme (some t) default)

Agree-theme_text :
    (prefers_dark : Bool) (default theme : Theme) → Agree prefers_dark default (theme_text theme)
unfolding script_theme mounted_theme stored_theme resolve_theme ◌===◌
Agree-theme_text prefers_dark default dark = refl
Agree-theme_text prefers_dark default light = refl
Agree-theme_text prefers_dark default system = refl

Agree-no_theme :
    (prefers_dark : Bool) (default : Theme) (t : Text)
    → (t === txt "dark") ≡ false
    → (t === txt "light") ≡ false
    → (t === txt "system") ≡ false
    → Agree prefers_dark default t
unfolding script_theme mounted_theme stored_theme
Agree-no_theme prefers_dark default t d l s = rw (d, l, s) (text_of_default prefers_dark default)

Agree-all : (prefers_dark : Bool) (default : Theme) (t : Text) → Agree prefers_dark default t
Agree-all prefers_dark default t = elim (Bool-cases (t === txt "dark")) [
  | inl d ↦
      subst (Agree prefers_dark default) (sym ((===_iff t (txt "dark")).0 d))
        (Agree-theme_text prefers_dark default dark)
  | inr d ↦ elim (Bool-cases (t === txt "light")) [
    | inl l ↦
        subst (Agree prefers_dark default) (sym ((===_iff t (txt "light")).0 l))
          (Agree-theme_text prefers_dark default light)
    | inr l ↦ elim (Bool-cases (t === txt "system")) [
      | inl s ↦
          subst (Agree prefers_dark default) (sym ((===_iff t (txt "system")).0 s))
            (Agree-theme_text prefers_dark default system)
      | inr s ↦ Agree-no_theme prefers_dark default t d l s
    ]
  ]
]

script_theme-resolve_theme :
    (prefers_dark : Bool) (stored : Option Text) (default : Theme)
    → script_theme prefers_dark stored default
      ≡ resolve_theme prefers_dark (mounted_theme stored default)
unfolding script_theme mounted_theme stored_theme
script_theme-resolve_theme prefers_dark none default = text_of_default prefers_dark default
script_theme-resolve_theme prefers_dark (some t) default = Agree-all prefers_dark default t

keep-no_theme :
    (classes : List Text)
    → All (λ c. is_theme_class c ≡ false) classes
    → keep (λ c. not (is_theme_class c)) classes ≡ classes
keep-no_theme [] h = refl
keep-no_theme (c ∷ classes) h = ground (arith, h.0, keep-no_theme classes h.1)

-- On a root without a class of a theme, the script sets what the provider sets when it is mounted,
-- whatever is stored and whatever the default is.
pub run_theme_script-apply_theme :
    (prefers_dark : Bool) (stored : Option Text) (default : Theme) (root : Root)
    → All (λ c. is_theme_class c ≡ false) root.classes
    → run_theme_script prefers_dark stored default root
      ≡ apply_theme prefers_dark (mounted_theme stored default) root
unfolding run_theme_script apply_theme
run_theme_script-apply_theme prefers_dark stored default root h =
    rw (script_theme-resolve_theme prefers_dark stored default, keep-no_theme root.classes h) refl
