-- ===== src/Lib.antt =====
-- A model of the frontend of perps-latency-benchmark: a dashboard and its server, in TypeScript,
-- which pass on what the benchmark service measured of the venues' latencies. The paths below are
-- those of the repository.
--
-- The server. A request for /api/bench/... (frontend/src/routes/api/bench/*.ts, module Routes)
-- chooses a time window (frontend/src/api/bench-window.server.ts, Windows.Access), which for the
-- longer windows needs a session that a login made (frontend/src/api/advanced-auth.server.ts,
-- Auth and Auth.Sessions). It then asks the benchmark service for one path, or for fallback paths
-- after a 404 (fetchBenchJSON and fetchBenchJSONWithFallback of frontend/src/api/bench.server.ts,
-- Proxy.Fetch), removes the hidden venues and cuts samples down (filterBenchJSON, shapeBenchJSON,
-- Proxy.Shape), and keeps answers in a response cache (proxyBenchJSONWithFallback, Proxy.Serve).
-- A handler is a function from the request, the session and the cache to the response and the new
-- session or cache; requests in turn are run_auth of Auth.Sessions and the steps of
-- Proxy.Serve.Invariant, where an eviction of any entries may come between two requests. A
-- request is one step: that two requests for a path both miss and both write the cache is not
-- modelled.
--
-- The browser. The window options and the queries are frontend/src/api/bench.ts (Windows,
-- Windows.Queries) and the data it reads is Data. The latencies that are shown of a sample or a
-- summary are frontend/src/lib/latency-metric.ts (Latency), the time at which a sample is plotted
-- is frontend/src/lib/sample-time.ts (SampleTime), the costs of taker orders are
-- frontend/src/lib/taker-cost.ts (TakerCost), and the CSV files are
-- frontend/src/routes/api/bench/exchange-tps-export.ts (Csv and Routes.Export) and
-- frontend/src/components/dashboard/csv-export-button.tsx (Csv.Download, and Csv.Dialog for its
-- dialog).
--
-- The page, frontend/src/components/dashboard/dashboard-page.tsx, is Dashboard: its hooks are the
-- record Dashboard, what happens to it are the steps of Dashboard.Session, after each of which
-- its effects run, and what its panels are given are functions of that state and of the queries'
-- answers. Dashboard.Served puts it together with the server's Windows.Access. The panels are
-- latency-table.tsx (Table), exchange-tps-panel.tsx (Throughput), taker-cost-panel.tsx
-- (CostPanel) in the same directory, and
-- frontend/src/components/charts/latency-timeseries-chart.tsx (Chart); Throughput and Chart use
-- Chart.Colors. Of the drawings of a chart, Chart.Domain and Chart.Ticks are its axes,
-- Chart.Paths its markers and bands, Chart.Frame its scales and the tooltip at the pointer,
-- Chart.Controls the selector of venues and the legend; CostPanel.Domain and CostPanel.Frame are
-- the same of the costs, Throughput.Plot and Throughput.Panel of the throughput, CostPanel.Panel
-- the figures of the panel and CostPanel.Tables its bars and tables. The requests of the page are
-- Windows.Fetch (fetchJSON, postJSON) and Dashboard.Loaders (the samples of the exports); the
-- dialog of the login (AdvancedAuthControls of dashboard-page.tsx) is the state machine of
-- Dashboard.Login, in which a request that is no longer observed may be answered late. The texts
-- of numbers and times are frontend/src/lib/format.ts (Format). The theme is
-- frontend/src/components/theme-provider.tsx (Theme, and Theme.Provider for its provider, whose
-- steps are followed by its effects).
--
-- The model. Names are those of the source in snake_case. A string is a list of UTF-16 code units
-- (Prelude), and toLowerCase is modelled on the ASCII letters. JSON is a data type whose numbers
-- are their text (Json). A double is an element of a type `N` with the operations of Numbers; its
-- laws are the records IsOrdered and, for sums and products, IsRounded, which Numbers.Integers
-- shows of the integers. The environment, the session and the cache are state that is passed
-- along (Http, Auth, Proxy.Serve); fetch, btoa, the reading of a date and the printing of a
-- number are parameters. A session is the `advanced` flag that its cookie holds: the sealing and
-- the expiry of the cookie, and that of cached responses, are the platform's, the latter as
-- evictions. localeCompare is a parameter `collate`, and so are the scales of the charts. Between
-- a step and the effects the page is drawn once with the old window; the queries of that moment
-- are not modelled. Loops over lists are structural recursion. The loops that move indices have
-- fuel: the two searches of Throughput as many rounds as there are points (one more for the
-- second), the loop over the times of Chart.Trend two rounds more than there are steps to the
-- last point, and the loops that move its two indices as many rounds as there are points, since
-- every round moves an index on or halves a range. The comparison of passwords recurs on the
-- rounds to go, the length of the longer string, and the digits of n on n + 1 rounds, of which
-- there are never more.
--
-- Not modelled: the markup of the React components, the scales and curves of visx that the charts
-- are drawn with, and the formatters of Intl, which are parameters where a text or a place
-- depends on them; generated code; the benchmark service itself (cmd/, internal/, in Go) and the
-- scripts for venues (in Python), which the frontend knows by its answers only.
pub mod Prelude
pub mod Json
pub mod Http
pub mod Data
pub mod Numbers
pub mod Auth
pub mod Chart
pub mod Format
pub mod Table
pub mod Theme
pub mod Throughput
pub mod Dashboard
pub mod Windows
pub mod Proxy
pub mod Routes
pub mod CostPanel
pub mod Csv
pub mod Latency
pub mod SampleTime
pub mod TakerCost
pub mod Tests
