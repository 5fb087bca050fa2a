-- ===== src/Limiter/Window.antt =====
-- limiter/rate_limit.go: what a sequence of requests of one client is answered.
use distributed_messaging_sy.Base.{
  ℕ, ◌+◌, ◌≤◌, ◌<◌, ◌≡◌, ◌≢◌, Bool, leb, Bytes, bytes, append_cancel, List, [], ◌∷◌, Option, some,
  arith, All,
}
use distributed_messaging_sy.Limiter.{Redis, IsRedis, RateLimiter, key_of, allow}

module _ (redis : Redis) (limiter : RateLimiter) (api_key : Bytes) where
  open redis use {Store, elapse, count, ttl}

  -- Requests of one client, each some milliseconds after the one before: the answers.
  unfoldable pub requests : List ℕ → Store → List (Option Bool) × Store
  requests [] s = ([], s)
  requests (gap ∷ gaps) s =
      let (a, s₁) = allow redis limiter api_key (elapse gap s) in
      let (rest, s₂) = requests gaps s₁ in (a ∷ rest, s₂)

-- The answers to requests of which `n` were counted before: allowed while the count is in the limit
abbrev pub answers_from : ℕ → ℕ → List ℕ → List (Option Bool)
answers_from limit n [] = []
answers_from limit n (_ ∷ gaps) = some (leb (n + 1) limit) ∷ answers_from limit (n + 1) gaps

module _ (redis : Redis) (laws : IsRedis redis) (limiter : RateLimiter) (api_key : Bytes)
    (up : (k : Bytes) (w : ℕ) (s : redis.Store)
      → (n : ℕ) × ((redis.incr_expire k w s).0 ≡ some n)) where
  open redis use {Store, elapse, count, ttl}

  pub one_allowed :
      (n : ℕ) (s : Store)
      → count (key_of api_key) s ≡ n
      → ((allow redis limiter api_key s).0 ≡ some (leb (n + 1) limiter.max_requests))
        × (count (key_of api_key) (allow redis limiter api_key s).1 ≡ n + 1)
        × (ttl (key_of api_key) (allow redis limiter api_key s).1 ≡ limiter.window)
  unfolding allow
  one_allowed n s e =
      let (m, answered) = up (key_of api_key) limiter.window s in
      let (counted, kept, left) = laws.counts (key_of api_key) limiter.window s m answered in
      ground (arith, answered, counted, kept, left, e)

  pub one_request :
      (gap n : ℕ) (s : Store)
      → count (key_of api_key) (elapse gap s) ≡ n
      → ((allow redis limiter api_key (elapse gap s)).0 ≡ some (leb (n + 1) limiter.max_requests))
        × (count (key_of api_key) (allow redis limiter api_key (elapse gap s)).1 ≡ n + 1)
        × (ttl (key_of api_key) (allow redis limiter api_key (elapse gap s)).1 ≡ limiter.window)
  one_request gap n s e = one_allowed n (elapse gap s) e

  -- While the store answers, and no request comes a full window after the one before, the requests
  -- of a client that had `n` counted and the whole window left are allowed exactly up to the limit:
  -- however long they go on, every request past it is refused, because each request, refused ones
  -- included, starts the window again.
  pub requests-close :
      (gaps : List ℕ) (n : ℕ) (s : Store)
      → All (λ g. g < limiter.window) gaps
      → count (key_of api_key) s ≡ n
      → ttl (key_of api_key) s ≡ limiter.window
      → (requests redis limiter api_key gaps s).0 ≡ answers_from limiter.max_requests n gaps
  unfolding requests
  requests-close [] n s close e left = ground arith
  requests-close (gap ∷ gaps) n s close e left =
      let (a, c', l') = one_request gap n s (ground (arith, laws.ends (key_of api_key) gap s)) in
      ground (
        arith,
        a,
        requests-close gaps (n + 1) (allow redis limiter api_key (elapse gap s)).1 close.1 c' l',
      )

  -- While the store answers: a client whose last request is a full window back starts from nothing: of its next requests, each
  -- less than a window after the one before, the first ones up to the limit are allowed and the
  -- others refused. What it did before does not count.
  pub requests-pause :
      (pause : ℕ) (gaps : List ℕ) (s : Store)
      → ttl (key_of api_key) s ≤ pause
      → All (λ g. g < limiter.window) gaps
      → (requests redis limiter api_key (pause ∷ gaps) s).0
        ≡ answers_from limiter.max_requests 0 (pause ∷ gaps)
  unfolding requests
  requests-pause pause gaps s over close =
      let (a, c, l) = one_request pause 0 s (ground (arith, laws.ends (key_of api_key) pause s)) in
      ground
        (arith, a, requests-close gaps 1 (allow redis limiter api_key (elapse pause s)).1 close c l)

module _ (redis : Redis) (laws : IsRedis redis) (limiter : RateLimiter) (api_key : Bytes) where
  open redis use {Store, count}

  -- A request of one client changes no count of another, whether the store answers it or not.
  pub allow-others :
      (other : Bytes) (s : Store)
      → api_key ≢ other
      → count (key_of other) (allow redis limiter api_key s).1 ≡ count (key_of other) s
  unfolding allow
  allow-others other s ne =
      (laws.keeps (key_of api_key) (key_of other) limiter.window s
        (λ e. ne (append_cancel (bytes "rate_limit:") api_key other e))).0
