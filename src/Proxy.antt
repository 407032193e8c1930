-- ===== src/Proxy.antt =====
-- The proxy of the benchmark API (frontend/src/api/bench.server.ts), in its parts: what is shown of
-- an answer (Shape), how it is fetched (Fetch) and how it is cached and served (Serve).
pub mod Shape
pub mod Fetch
pub mod Serve
