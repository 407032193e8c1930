-- ===== src/Proxy/Fetch/Fallback.antt =====
-- Which candidate path answers (frontend/src/api/bench.server.ts).
use perps_latency_benchmark.Prelude.{
  inr, inl, ◌≡◌, refl, ap, ◌↔◌, List, [], ◌∷◌, ◌++◌, Text, All, Bool-cases,
}
use perps_latency_benchmark.Json.{Json}
use perps_latency_benchmark.Proxy.Fetch.{
  after_reply, Fetched, done, failed, FetchError, is_not_found, try_paths, IsNotFound,
}

-- The candidates before `path` were all answered 404, and `path` was answered `v`.
pub record Answered (fetch : Text → Fetched Json) (paths : List Text) (v : Json) (path : Text)
    : Type 0 where
  pub before : List Text
  pub after : List Text
  pub in_order : paths ≡ before ++ path ∷ after
  pub not_found : All (λ p. IsNotFound (fetch p)) before
  pub answer : fetch path ≡ done v

module _ (fetch : Text → Fetched Json) where
  Answered-cons :
      {candidate : Text} {rest : List Text} {v : Json} {path : Text}
      → IsNotFound (fetch candidate)
      → Answered fetch rest v path
      → Answered fetch (candidate ∷ rest) v path
  Answered-cons {candidate} h a = record {
    before = candidate ∷ a.before;
    after = a.after;
    in_order = ap (λ (ps : List Text). candidate ∷ ps) a.in_order;
    not_found = (h, a.not_found);
    answer = a.answer;
  }

  after_reply-Answered :
      (candidate : Text) (rest : List Text) (v : Json) (path : Text)
      → (next : FetchError → Fetched (Json × Text))
      → ((error : FetchError) → next error ≡ done (v, path) → Answered fetch rest v path)
      → (o : Fetched Json) → fetch candidate ≡ o
      → after_reply candidate o next ≡ done (v, path)
      → Answered fetch (candidate ∷ rest) v path
  after_reply-Answered candidate rest v path next ih (done w) e h = record {
    before = [];
    after = rest;
    in_order = cc;
    not_found = tt;
    answer = cc;
  }
  after_reply-Answered candidate rest v path next ih (failed error) e h =
      elim (Bool-cases (is_not_found error)) [
        | inl yes' ↦ Answered-cons (rw e yes') (ih error (rw (yes', after_reply) at h))
        | inr no' ↦ cc (rw (no', after_reply) at h)
      ]

  pub try_paths-Answered :
      (last : FetchError) (paths : List Text) (v : Json) (path : Text)
      → try_paths fetch last paths ≡ done (v, path)
      → Answered fetch paths v path
  unfolding try_paths
  try_paths-Answered last [] v path h = cc
  try_paths-Answered last (candidate ∷ rest) v path h =
      after_reply-Answered candidate rest v path _ (λ error. try_paths-Answered error rest v path)
        (fetch candidate) refl h

  -- The loop does not stop before the first candidate that is not answered 404.
  try_paths_of_not_found :
      (last : FetchError) (before : List Text) (path : Text) (after : List Text) (v : Json)
      → All (λ p. IsNotFound (fetch p)) before
      → fetch path ≡ done v
      → try_paths fetch last (before ++ path ∷ after) ≡ done (v, path)
  unfolding try_paths
  try_paths_of_not_found last [] path after v h e = rw e
  try_paths_of_not_found last (candidate ∷ before) path after v (h, hs) e =
      go (fetch candidate) h (λ error. try_paths_of_not_found error before path after v hs e)
    where
      go :
          (o : Fetched Json)
          → IsNotFound o
          → ((error : FetchError) → try_paths fetch error (before ++ path ∷ after) ≡ done (v, path))
          → after_reply candidate o (λ error. try_paths fetch error (before ++ path ∷ after))
            ≡ done (v, path)
      go (done w) n k = absurd n
      go (failed error) n k = rw (n, after_reply) (k error)

  -- The proxy's answer is that of the first candidate that is not answered 404, and only if that is
  -- an answer: a path is tried exactly when all before it were answered 404.
  pub try_paths-eq-done_iff :
      (last : FetchError) (paths : List Text) (v : Json) (path : Text)
      → (try_paths fetch last paths ≡ done (v, path)) ↔ Answered fetch paths v path
  try_paths-eq-done_iff last paths v path = (
    try_paths-Answered last paths v path,
    λ a.
        rw (a.in_order)
          (try_paths_of_not_found last (a.before) path (a.after) v (a.not_found) (a.answer)),
  )
