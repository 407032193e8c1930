-- ===== src/Format.antt =====
-- What is shown of a number (frontend/src/lib/format.ts). The texts that Intl gives are parameters: the
-- formatters of the file and that of a time, and `round` is `Math.round`.
use perps_latency_benchmark.Prelude.{
  ℕ, Option, none, some, ◌++◌, Text, txt, if◌then◌else◌, is_blank,
}
use perps_latency_benchmark.Numbers.{Numbers}

-- The formatters, each by what it is called in the file.
pub record Formatters (N : Type 0) : Type 0 where
  pub latency : N → Text
  pub count : N → Text
  pub usd : N → Text
  pub signed_usd : N → Text
  pub price : N → Text
  pub bps : N → Text
  pub abs_bps : N → Text
  pub time : ℕ → Text
  pub round : N → N
  pub text_of : N → Text

module _ {N : Type 0} ⦃n : Numbers N⦄ where
  -- `value === null || value === undefined || !Number.isFinite(value)` is shown as a dash.
  unfoldable pub or_dash : (N → Text) → Option N → Text
  or_dash show none = txt "-"
  or_dash show (some value) = if n.is_finite value then show value else txt "-"

  module _ (f : Formatters N) where
    unfoldable pub format_latency : Option N → Text
    unfolding or_dash
    format_latency ms = or_dash (λ value. f.latency value ++ txt " ms") ms

    unfoldable pub format_count : Option N → Text
    unfolding or_dash
    format_count value = or_dash f.count value

    unfoldable pub format_percent : N → Text
    format_percent value =
        if n.is_finite value
        then f.text_of (f.round (n.mul value (n.of_ℕ 100))) ++ txt "%"
        else txt "-"

    unfoldable pub format_usd : Option N → Text
    unfolding or_dash
    format_usd value = or_dash f.usd value

    unfoldable pub format_signed_usd : Option N → Text
    unfolding or_dash
    format_signed_usd value = or_dash f.signed_usd value

    unfoldable pub format_price : Option N → Text
    unfolding or_dash
    format_price value = or_dash f.price value

    unfoldable pub format_bps : Option N → Text
    unfolding or_dash
    format_bps value = or_dash (λ v. f.bps v ++ txt " bps") value

    unfoldable pub format_abs_bps : Option N → Text
    unfolding or_dash
    format_abs_bps value = or_dash (λ v. f.abs_bps (n.abs v) ++ txt " bps") value

    -- A date that is not one is `none`.
    unfoldable pub format_date : Option ℕ → Text
    format_date none = txt "-"
    format_date (some date) = f.time date

    -- A text is a date where `parse_date` reads one; the empty text is none.
    unfoldable pub format_time : (Text → Option ℕ) → Option Text → Text
    unfolding format_date
    format_time parse_date none = txt "-"
    format_time parse_date (some value) =
        if is_blank value then txt "-" else format_date (parse_date value)

  unfoldable pub ns_to_ms : N → N
  ns_to_ms value = n.div value (n.of_ℕ 1_000_000)
