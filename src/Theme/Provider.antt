-- ===== src/Theme/Provider.antt =====
-- The provider of the theme (ThemeProvider of frontend/src/components/theme-provider.tsx) from when it is
-- mounted: its hooks, the root, the stored item and what the platform prefers. After each step the effects
-- that depend on what changed have run. That another page stores an item is not among the steps.
use perps_latency_benchmark.Prelude.{
  ◌≡◌, refl, subst, inl, inr, Bool, true, false, not, Option, some, List, [], ◌∷◌, arith, keep,
  Text, txt, ◌===◌, ===_iff, Bool-cases, if◌then◌else◌,
}
use perps_latency_benchmark.Theme.{
  Theme, dark, light, system, theme_text, Root, resolve_theme, add_class, is_theme_class,
  apply_theme, stored_theme, mounted_theme,
}

pub record Provider : Type 0 where
  pub prefers_dark : Bool
  pub stored : Option Text
  pub root : Root
  pub theme : Theme
  pub resolved_theme : Text

-- `setResolvedTheme(applyTheme(theme))`
unfoldable pub apply_effect : Provider → Provider
unfolding apply_theme resolve_theme
apply_effect p = record p {
  root = apply_theme p.prefers_dark p.theme p.root;
  resolved_theme = resolve_theme p.prefers_dark p.theme;
}

unfoldable pub mount : Bool → Option Text → Theme → Root → Provider
unfolding mounted_theme apply_effect
mount prefers_dark stored default root = apply_effect record {
  prefers_dark = prefers_dark;
  stored = stored;
  root = root;
  theme = mounted_theme stored default;
  resolved_theme = txt "light";
}

abbrev same_theme : Theme → Theme → Bool
same_theme dark dark = true
same_theme light light = true
same_theme system system = true
same_theme _ _ = false

-- The effect runs where the theme is another one.
unfoldable pub set_theme : Theme → Provider → Provider
unfolding apply_effect
set_theme next_theme p =
    let changed = record p { stored = some (theme_text next_theme); theme = next_theme } in
    if same_theme next_theme p.theme then changed else apply_effect changed

-- The listener is there for the theme of the system only.
abbrev on_change : Theme → Provider → Provider
unfolding apply_effect
on_change system p = apply_effect p
on_change _ p = p

-- The platform prefers another scheme, or the same one.
unfoldable pub change_scheme : Bool → Provider → Provider
unfolding on_change
change_scheme prefers_dark p = on_change p.theme (record p { prefers_dark = prefers_dark })

pub data Reachable (default : Theme) : Provider → Type 0 where
  mounted :
      (prefers_dark : Bool) (stored : Option Text) (root : Root)
      → Reachable default (mount prefers_dark stored default root)
  chosen :
      {p : Provider} (next_theme : Theme)
      → Reachable default p
      → Reachable default (set_theme next_theme p)
  scheme_changed :
      {p : Provider} (prefers_dark : Bool)
      → Reachable default p
      → Reachable default (change_scheme prefers_dark p)

-- The root shows a theme as the platform prefers it, and no other one.
pub record Shows (prefers_dark : Bool) (theme : Theme) (root : Root) (resolved : Text)
    : Type 0 where
  pub scheme : root.color_scheme ≡ resolve_theme prefers_dark theme
  pub class : keep is_theme_class root.classes ≡ resolve_theme prefers_dark theme ∷ []
  pub resolved_as : resolved ≡ resolve_theme prefers_dark theme

pub record IsShown (default : Theme) (p : Provider) : Type 0 where
  pub shows : Shows p.prefers_dark p.theme p.root p.resolved_theme
  pub kept : mounted_theme p.stored default ≡ p.theme

resolve_theme-is_theme_class :
    (prefers_dark : Bool) (theme : Theme) → is_theme_class (resolve_theme prefers_dark theme) ≡ true
unfolding resolve_theme ◌===◌
resolve_theme-is_theme_class b dark = refl
resolve_theme-is_theme_class b light = refl
resolve_theme-is_theme_class true system = refl
resolve_theme-is_theme_class false system = refl

keep-add_class :
    (name : Text) (classes : List Text)
    → is_theme_class name ≡ true
    → keep is_theme_class (add_class name (keep (λ c. not (is_theme_class c)) classes)) ≡ name ∷ []
keep-add_class name [] h = rw h refl
keep-add_class name (c ∷ classes) h = elim (Bool-cases (is_theme_class c)) [
  | inl e ↦ rw e (keep-add_class name classes h)
  | inr e ↦ elim (Bool-cases (c === name)) [
    | inl f ↦ absurd (cc (e, h, (===_iff c name).0 f))
    | inr f ↦ rw (e, f, e) (keep-add_class name classes h)
  ]
]

apply_theme-Shows :
    (prefers_dark : Bool) (theme : Theme) (root : Root)
    → Shows prefers_dark theme
        (apply_theme prefers_dark theme root)
        (resolve_theme prefers_dark theme)
unfolding apply_theme
apply_theme-Shows prefers_dark theme root = record {
  scheme = refl;
  class =
      keep-add_class (resolve_theme prefers_dark theme) root.classes
        (resolve_theme-is_theme_class prefers_dark theme);
  resolved_as = refl;
}

same_theme-eq : (left right : Theme) → same_theme left right ≡ true → right ≡ left
same_theme-eq dark dark h = refl
same_theme-eq light light h = refl
same_theme-eq system system h = refl
same_theme-eq dark light h = absurd (ground (arith, h))
same_theme-eq dark system h = absurd (ground (arith, h))
same_theme-eq light dark h = absurd (ground (arith, h))
same_theme-eq light system h = absurd (ground (arith, h))
same_theme-eq system dark h = absurd (ground (arith, h))
same_theme-eq system light h = absurd (ground (arith, h))

mounted_theme-theme_text :
    (theme default : Theme) → mounted_theme (some (theme_text theme)) default ≡ theme
unfolding mounted_theme stored_theme ◌===◌
mounted_theme-theme_text dark default = refl
mounted_theme-theme_text light default = refl
mounted_theme-theme_text system default = refl

set_theme-IsShown :
    (default next_theme : Theme) (p : Provider)
    → IsShown default p
    → IsShown default (set_theme next_theme p)
unfolding set_theme apply_effect
set_theme-IsShown default next_theme p h = elim (Bool-cases (same_theme next_theme p.theme)) [
  | inl e ↦ rw e (record {
    shows =
        subst (λ theme. Shows p.prefers_dark theme p.root p.resolved_theme)
          (same_theme-eq next_theme p.theme e) h.shows;
    kept = mounted_theme-theme_text next_theme default;
  })
  | inr e ↦ rw e (record {
    shows = apply_theme-Shows p.prefers_dark next_theme p.root;
    kept = mounted_theme-theme_text next_theme default;
  })
]

-- Only the theme of the system depends on what the platform prefers.
on_change-IsShown :
    (default : Theme) (before : Bool) (theme : Theme) (p : Provider)
    → p.theme ≡ theme
    → Shows before theme p.root p.resolved_theme
    → mounted_theme p.stored default ≡ p.theme
    → IsShown default (on_change theme p)
unfolding on_change apply_effect resolve_theme
on_change-IsShown default before dark p e h k = record {
  shows = rw e (record { scheme = h.scheme; class = h.class; resolved_as = h.resolved_as });
  kept = k;
}
on_change-IsShown default before light p e h k = record {
  shows = rw e (record { scheme = h.scheme; class = h.class; resolved_as = h.resolved_as });
  kept = k;
}
on_change-IsShown default before system p e h k = record {
  shows = apply_theme-Shows p.prefers_dark p.theme p.root;
  kept = k;
}

change_scheme-IsShown :
    (default : Theme) (prefers_dark : Bool) (p : Provider)
    → IsShown default p
    → IsShown default (change_scheme prefers_dark p)
unfolding change_scheme
change_scheme-IsShown default prefers_dark p h =
    on_change-IsShown default p.prefers_dark p.theme (record p { prefers_dark = prefers_dark }) refl
      h.shows h.kept

-- Whatever was stored and stood on the root before, however themes are chosen and whenever the platform
-- prefers another scheme: once the effects have run the root has the scheme and, of the classes of themes,
-- exactly that of the theme as the platform prefers it, which is what the provider hands on; and after a
-- reload the provider has the same theme.
pub Reachable-IsShown : {default : Theme} {p : Provider} → Reachable default p → IsShown default p
unfolding mount apply_effect
Reachable-IsShown {default} (mounted prefers_dark stored root) = record {
  shows = apply_theme-Shows prefers_dark (mounted_theme stored default) root;
  kept = refl;
}
Reachable-IsShown {default} (chosen {p} next_theme r) =
    set_theme-IsShown default next_theme p (Reachable-IsShown r)
Reachable-IsShown {default} (scheme_changed {p} prefers_dark r) =
    change_scheme-IsShown default prefers_dark p (Reachable-IsShown r)
