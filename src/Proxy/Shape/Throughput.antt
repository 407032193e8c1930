-- ===== src/Proxy/Shape/Throughput.antt =====
-- What the proxy shows of throughput (frontend/src/api/bench.server.ts): the series and the sources of
-- visible venues.
use perps_latency_benchmark.Prelude.{
  ◌∙◌, ◌≡◌, refl, true, false, Option, none, some, List, ◌++◌, Text, txt, ◌===◌, starts_with, arith,
  All,
}
use perps_latency_benchmark.Json.{
  lookup-spread, Json, Items, Fields, arr, items, get, spread, lookup, lookup-put, lookup-put_self,
}
use perps_latency_benchmark.Proxy.Shape.{
  is_samples_path, is_visible_venue_row, visible_rows, array_of, filter_exchange_tps,
  shape_bench_json, visible_or_same, put_defined,
}
use perps_latency_benchmark.Proxy.Shape.Visible.{
  IsShown, visible_rows-All, filter_bench_json-IsShown,
}

-- What is read under `key` after `{ ...rest, key: value }`.
IsShownValue : List Text → Option Json → Type 0
IsShownValue hidden o =
    (rows : Items)
    → array_of o ≡ some rows
    → All (λ row. is_visible_venue_row hidden row ≡ true) (items rows)

visible_or_same-IsShown :
    (hidden : List Text) (o : Option Json) → IsShownValue hidden (visible_or_same hidden o)
unfolding IsShownValue
visible_or_same-IsShown hidden none rows e = cc
visible_or_same-IsShown hidden (some (arr vs)) rows e =
    let rows_eq : visible_rows hidden vs ≡ rows = cc in rw (← rows_eq) (visible_rows-All hidden vs)
visible_or_same-IsShown hidden (some _) rows e = cc

lookup-put_defined_self :
    (hidden : List Text) (k : Text) (o : Option Json) (rest : Fields)
    → lookup k rest ≡ o
    → lookup k (put_defined k (visible_or_same hidden o) rest) ≡ visible_or_same hidden o
lookup-put_defined_self hidden k none rest e = e
lookup-put_defined_self hidden k (some (arr vs)) rest e = lookup-put_self k _ rest
lookup-put_defined_self hidden k (some _) rest e = lookup-put_self k _ rest

lookup-put_defined_ne :
    (k j : Text) (o : Option Json) (rest : Fields)
    → (k === j) ≡ false
    → lookup j (put_defined k o rest) ≡ lookup j rest
lookup-put_defined_ne k j none rest h = refl
lookup-put_defined_ne k j (some v) rest h = rw (lookup-put, h)

module _ (hidden : List Text) (v : Json) where
  series-filter_exchange_tps :
      get (txt "series") (filter_exchange_tps hidden v)
      ≡ visible_or_same hidden (get (txt "series") v)
  unfolding filter_exchange_tps get ◌===◌
  series-filter_exchange_tps =
      lookup-put_defined_ne (txt "sources") (txt "series")
        (visible_or_same hidden (get (txt "sources") v))
        (put_defined (txt "series") (visible_or_same hidden (get (txt "series") v)) (spread v)) refl
      ∙ lookup-put_defined_self hidden (txt "series") _ (spread v)
          (lookup-spread (txt "series") v (λ h. omega arith))

  sources-filter_exchange_tps :
      get (txt "sources") (filter_exchange_tps hidden v)
      ≡ visible_or_same hidden (get (txt "sources") v)
  unfolding filter_exchange_tps get ◌===◌
  sources-filter_exchange_tps = lookup-put_defined_self hidden (txt "sources") _ _ (
      lookup-put_defined_ne (txt "series") (txt "sources")
        (visible_or_same hidden (get (txt "series") v)) (spread v) refl
      ∙ lookup-spread (txt "sources") v (λ h. omega arith))

-- Whatever the benchmark API answers for throughput, no row or source of a hidden venue is passed on.
pub shape_bench_json-IsShown_tps :
    (hidden : List Text) (q : Text) (v : Json)
    → let shown = shape_bench_json hidden (txt "/api/exchange-tps?" ++ q) v in
      IsShown hidden (txt "series") shown × IsShown hidden (txt "sources") shown
unfolding shape_bench_json starts_with is_samples_path IsShownValue
shape_bench_json-IsShown_tps hidden q v = (
  filter_bench_json-IsShown hidden (txt "series") (txt "/api/exchange-tps?" ++ q) v
      (rw (series-filter_exchange_tps) (visible_or_same-IsShown hidden (get (txt "series") v))),
  filter_bench_json-IsShown hidden (txt "sources") (txt "/api/exchange-tps?" ++ q) v
      (rw (sources-filter_exchange_tps) (visible_or_same-IsShown hidden (get (txt "sources") v))),
)
