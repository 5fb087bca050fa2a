-- ===== src/Limiter.antt =====
-- limiter/rate_limit.go: the rate limiter of the gateway over Redis. The store is a parameter; its
-- laws are what Redis documents of INCR, EXPIRE and the end of a key's time.
pub mod Window
pub mod Reference
use distributed_messaging_sy.Base.{
  ℕ, suc, ◌+◌, ◌-◌, ◌*◌, ◌≡◌, ◌≢◌, Bool, leb, ltb, if◌then◌else◌, Bytes, bytes, bytes_eq, ◌++◌,
  Option, none, some,
}

pub record Redis : Type 1 where
  pub Store : Type 0
  -- the transaction INCR key, EXPIRE key ms: the new count, or an error
  pub incr_expire : Bytes → ℕ → Store → Option ℕ × Store
  pub elapse : ℕ → Store → Store  -- milliseconds pass
  pub count : Bytes → Store → ℕ  -- the count at a key, 0 where the key is absent
  pub ttl : Bytes → Store → ℕ  -- the milliseconds left to a key

-- A transaction that is carried out counts one more and sets the time left, at its key alone. A key
-- goes when its time is over.
pub record IsRedis (r : Redis) : Type 0 where
  pub counts :
      (k : Bytes) (w : ℕ) (s : r.Store) (n : ℕ)
      → (r.incr_expire k w s).0 ≡ some n
      → (n ≡ r.count k s + 1)
        × (r.count k (r.incr_expire k w s).1 ≡ n)
        × (r.ttl k (r.incr_expire k w s).1 ≡ w)
  pub keeps :
      (k j : Bytes) (w : ℕ) (s : r.Store)
      → k ≢ j
      → (r.count j (r.incr_expire k w s).1 ≡ r.count j s)
        × (r.ttl j (r.incr_expire k w s).1 ≡ r.ttl j s)
  pub ends :
      (k : Bytes) (t : ℕ) (s : r.Store)
      → (r.count k (r.elapse t s) ≡ (if ltb t (r.ttl k s) then r.count k s else 0))
        × (r.ttl k (r.elapse t s) ≡ r.ttl k s - t)

-- `RateLimiter`, without its client; the window is in milliseconds.
pub record RateLimiter : Type 0 where
  pub max_requests : ℕ
  pub window : ℕ

unfoldable pub new_rate_limiter : RateLimiter
new_rate_limiter = record { max_requests = 10; window = 60000 }

-- `fmt.Sprintf("rate_limit:%s", apiKey)`
abbrev pub key_of : Bytes → Bytes
key_of api_key = bytes "rate_limit:" ++ api_key

module _ (redis : Redis) where
  -- `Allow`: whether the request is allowed, or an error of the store
  unfoldable pub allow : RateLimiter → Bytes → redis.Store → Option Bool × redis.Store
  allow l api_key s =
      let (answer, s') = redis.incr_expire (key_of api_key) l.window s in
      (elim answer [ none ↦ none | some count_val ↦ some (leb count_val l.max_requests) ], s')
