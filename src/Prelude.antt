-- ===== src/Prelude.antt =====
-- The names that the other modules share: the libraries', passed on, the tests on numbers, the
-- lists measured by native numbers, JavaScript's strings as lists of UTF-16 code units.
mod Tests
mod Lists
mod Strings
pub mod Sorting
pub mod Counting
pub use Tests.*
pub use Lists.*
unfoldable pub use Strings.{
  ◌===◌, includes_text, starts_with, is_space, trim_start, trim, to_lower, to_lower_unit, split_on,
  last_unit, decimal, drop_last, has_infix,
}
pub use Strings.{
  Text, txt, ===_iff, ===_refl, is_blank, ends_with_unit, starts_with-split, BeginsWithDigit,
  decimal-BeginsWithDigit, MemText, includes_text_iff,
}
pub use Prim.Native.Nat.{ℕ, zero, suc, ◌+◌, ◌-◌, ◌*◌, ◌/◌, ◌%◌, ◌^◌, ◌≤◌, ◌<◌, min, max}
pub use mathlib.Core.Path.{◌≡◌, refl, sym, ap, ◌∙◌, subst}
pub use mathlib.Core.Logic.{◌≢◌, ◌↔◌, ◌⊎◌, inl, inr}
pub use mathlib.Core.Bool.{Bool, true, false, not, ◌&&◌, ◌||◌}
pub use mathlib.Core.Option.{Option, none, some}
pub use mathlib.Core.List.{List, [], ◌∷◌, ◌++◌, map}
pub use native.Mathlib.Omega.{arith}
