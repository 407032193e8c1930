-- ===== src/Chart/Paths.antt =====
-- The paths that the chart draws (pointMarkerPath, bandAreaPath, scaledBandCoordinate and formatSVGNumber of
-- frontend/src/components/charts/latency-timeseries-chart.tsx). The scales are D3's, and `to_fixed x` is
-- `x.toFixed(2)`.
use mathlib.Core.List.{reverse}
use perps_latency_benchmark.Prelude.{
  ℕ, Bool, ◌&&◌, Option, none, some, List, [], ◌∷◌, ◌++◌, length, Text, txt, ltb, if◌then◌else◌,
}
use perps_latency_benchmark.Numbers.{Numbers}
use perps_latency_benchmark.Chart.{Point, BandPoint}

module _ {N : Type 0} ⦃n : Numbers N⦄ (to_fixed : N → Text) (x_scale : ℕ → N)
    (y_scale : N → N) where
  abbrev pub format_svg_number : N → Text
  format_svg_number value = to_fixed value

  -- `M${cx},${cy}m-${r},0a${r},${r} 0 1,0 ${diameter},0a${r},${r} 0 1,0 -${diameter},0`
  abbrev pub marker : (cx cy r diameter : Text) → Text
  marker cx cy r diameter =
      txt "M"
      ++ (cx
          ++ (txt ","
              ++ (cy
                  ++ (txt "m-"
                      ++ (r
                          ++ (txt ",0a"
                              ++ (r
                                  ++ (txt ","
                                      ++ (r
                                          ++ (txt " 0 1,0 "
                                              ++ (diameter
                                                  ++ (txt ",0a"
                                                      ++ (r
                                                          ++ (txt ","
                                                            ++ (r
                                                            ++ (txt " 0 1,0 -"
                                                            ++ (diameter
                                                            ++ txt ",0")))))))))))))))))

  abbrev pub has_place : N → N → Bool
  has_place x y = n.is_finite x && n.is_finite y

  abbrev pub marker_of : N → Point N → Text
  marker_of radius point =
      let x = x_scale point.date in
      let y = y_scale point.ms in
      if has_place x y
      then marker (format_svg_number x) (format_svg_number y) (format_svg_number radius)
          (format_svg_number (n.mul radius (n.of_ℕ 2)))
      else []

  unfoldable pub point_marker_path : List (Point N) → N → Text
  point_marker_path [] radius = []
  point_marker_path (point ∷ points) radius =
      marker_of radius point ++ point_marker_path points radius

  unfoldable pub scaled_band_coordinate : ℕ → N → Option (N × N)
  scaled_band_coordinate date ms =
      let x = x_scale date in let y = y_scale ms in if has_place x y then some (x, y) else none

  -- `.map(...).filter((point) => point !== null)`
  abbrev pub coordinates_of : (BandPoint N → N) → List (BandPoint N) → List (N × N)
  coordinates_of end [] = []
  coordinates_of end (point ∷ points) =
      let rest = coordinates_of end points in
      elim (scaled_band_coordinate point.date (end point)) [ none ↦ rest | some c ↦ c ∷ rest ]

  abbrev pub upper_of : BandPoint N → N
  upper_of point = point.upper_ms

  abbrev pub lower_of : BandPoint N → N
  lower_of point = point.lower_ms

  -- A command, at the point, for each coordinate.
  abbrev pub lines_from : Text → List (N × N) → Text
  lines_from command [] = []
  lines_from command ((x, y) ∷ coordinates) =
      (command ++ (format_svg_number x ++ (txt "," ++ format_svg_number y)))
      ++ lines_from (txt "L") coordinates

  -- Along the upper ends and back along the lower ones.
  unfoldable pub band_area_path : List (BandPoint N) → Text
  unfolding scaled_band_coordinate
  band_area_path points =
      let coordinates =
        coordinates_of upper_of points ++ reverse (coordinates_of lower_of points) in
      if ltb (length coordinates) 3 then [] else lines_from (txt "M") coordinates ++ txt "Z"
