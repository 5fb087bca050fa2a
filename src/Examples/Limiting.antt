-- ===== src/Examples/Limiting.antt =====
-- A store that holds a count and the time left for each key.
use distributed_messaging_sy.Base.{
  ℕ, ◌+◌, ◌-◌, ◌≡◌, refl, true, false, ltb, bytes, bytes_eq, bytes_eq_iff, bytes_eq_refl,
  if◌then◌else◌, Bytes, [], ◌∷◌, some, arith,
}
use distributed_messaging_sy.Limiter.{Redis, IsRedis, RateLimiter, key_of}
use distributed_messaging_sy.Limiter.Window.{requests}
use distributed_messaging_sy.Limiter.Reference.{requests-eq-runs}

abbrev Keys : Type 0
Keys = Bytes → ℕ × ℕ

abbrev counted : Bytes → ℕ → Keys → Bytes → ℕ × ℕ
counted k w s j = if bytes_eq k j then ((s k).0 + 1, w) else s j

abbrev elapsed : ℕ → Keys → Bytes → ℕ × ℕ
elapsed t s k = (if ltb t (s k).1 then (s k).0 else 0, (s k).1 - t)

abbrev pub memory : Redis
memory = record {
  Store = Keys;
  incr_expire = λ k w s. (some ((s k).0 + 1), counted k w s);
  elapse = elapsed;
  count = λ k s. (s k).0;
  ttl = λ k s. (s k).1;
}

pub memory-IsRedis : IsRedis memory
memory-IsRedis = record {
  counts = λ k w s n e. ground (arith, bytes_eq_refl k, e);
  keeps = λ k j w s ne. ground (arith, bytes_eq_iff k j);
  ends = λ k t s. (refl, refl);
}

pub memory-answers :
    (k : Bytes) (w : ℕ) (s : Keys) → (n : ℕ) × ((memory.incr_expire k w s).0 ≡ some n)
memory-answers k w s = ((s k).0 + 1, refl)

-- Two requests in a window
abbrev pub small : RateLimiter
small = record { max_requests = 2; window = 60000 }

abbrev pub client : Bytes
client = bytes "a@b.c"

abbrev pub one_done : Keys
one_done k = if bytes_eq k (key_of client) then (1, 60000) else (0, 0)

requests-eq-runs_example :
    (requests memory small client (1000 ∷ 59000 ∷ 60000 ∷ 0 ∷ 0 ∷ []) one_done).0
    ≡ some true ∷ some false ∷ some true ∷ some true ∷ some false ∷ []
unfolding bytes bytes_eq
requests-eq-runs_example =
    requests-eq-runs memory memory-IsRedis small client memory-answers
      (1000 ∷ 59000 ∷ 60000 ∷ 0 ∷ 0 ∷ []) one_done
