-- ===== src/Limiter/Reference.antt =====
-- limiter/rate_limit.go: the limiter against a plain description of what it allows.
use distributed_messaging_sy.Base.{
  ℕ, ◌+◌, ◌≡◌, leb, ltb, if◌then◌else◌, Bool, Bytes, List, [], ◌∷◌, Option, some, arith,
}
use distributed_messaging_sy.Limiter.{Redis, IsRedis, RateLimiter, key_of, allow}
use distributed_messaging_sy.Limiter.Window.{requests, one_request}

-- The length of the run of requests that ends with each: a run ends where a request comes a full
-- window or more after the one before. `n` is the length so far, and `left` what is left of the
-- window.
abbrev pub runs : ℕ → ℕ → ℕ → List ℕ → List ℕ
runs window n left [] = []
runs window n left (gap ∷ gaps) =
    let n' = (if ltb gap left then n else 0) + 1 in n' ∷ runs window n' window gaps

-- A request is allowed if its run is within the limit.
abbrev pub allowed_by : ℕ → List ℕ → List (Option Bool)
allowed_by limit [] = []
allowed_by limit (n ∷ ns) = some (leb n limit) ∷ allowed_by limit ns

module _ (redis : Redis) (laws : IsRedis redis) (limiter : RateLimiter) (api_key : Bytes)
    (up : (k : Bytes) (w : ℕ) (s : redis.Store)
      → (n : ℕ) × ((redis.incr_expire k w s).0 ≡ some n)) where
  open redis use {Store, elapse, count, ttl}

  -- While the store answers, the answers to the requests of a client, whatever the time between
  -- them, are those of the description: the limiter counts the runs of requests with less than a
  -- window between neighbours, refused ones included, and allows a run up to the limit.
  pub requests-eq-runs :
      (gaps : List ℕ) (s : Store)
      → (requests redis limiter api_key gaps s).0
        ≡ allowed_by limiter.max_requests
            (runs limiter.window (count (key_of api_key) s) (ttl (key_of api_key) s) gaps)
  unfolding requests
  requests-eq-runs [] s = ground arith
  requests-eq-runs (gap ∷ gaps) s =
      let n = (if ltb gap (ttl (key_of api_key) s) then count (key_of api_key) s else 0) in
      let ends = laws.ends (key_of api_key) gap s in
      let (a, c, l) = one_request redis laws limiter api_key up gap n s ends.0 in
      ground (arith, a, c, l, requests-eq-runs gaps (allow redis limiter api_key (elapse gap s)).1)
