-- ===== src/Routes/Bounds.antt =====
-- The limits that the routes pass on (frontend/src/routes/api/bench/*.ts).
use perps_latency_benchmark.Prelude.{ℕ, ◌≤◌, ◌<◌, ◌≡◌, arith}
use perps_latency_benchmark.Routes.{QueryNumber, whole, other, safe_limit}

-- Whatever limit a request asks for, the one passed on is positive and at most the route's maximum;
-- a positive limit up to the maximum is passed on as it is.
safe_limit_bounds :
    (max default : ℕ) (limit : QueryNumber)
    → 0 < default
    → default ≤ max
    → (0 < safe_limit max default limit)
      × (safe_limit max default limit ≤ max)
      × ((n : ℕ) → limit ≡ whole n → 0 < n → n ≤ max → safe_limit max default limit ≡ n)
unfolding safe_limit
safe_limit_bounds max default (whole n) h k = (ground arith, ground arith, λ m e p q. ground arith)
safe_limit_bounds max default other h k = (h, k, λ m e p q. cc)
