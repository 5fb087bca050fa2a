-- ===== src/Gateway/Admission.antt =====
-- gateway/server.go, `handleSubmitTask`: who gets a task published, and what the client is told.
use native.Mathlib.Decide.{dec_le}
use distributed_messaging_sy.Base.{
  ◌≤◌, ◌<◌, ◌≡◌, ◌≢◌, ◌⊎◌, inl, inr, refl, ap, bytes_cases, true, bytes_eq_iff, length, All, Bytes,
  bytes, List, [], ◌∷◌, ◌++◌, Option, none, some, arith,
}
use distributed_messaging_sy.Amqp.{Env, Delivery}
use distributed_messaging_sy.Amqp.Process.{Process}
use distributed_messaging_sy.Limiter.{Redis, RateLimiter, allow}
use distributed_messaging_sy.Gateway.Submit.{
  Claim, email, missing, no_string, Outside, Submission, slice_from, await, limit, with_token,
  handle_submit_task,
}

-- A delivery that ends the wait for a task
abbrev Final : Env → Bytes → Delivery → Type 0
Final env corr_id d = (d.correlation_id ≡ corr_id) × (env.status_of d.body ≢ bytes "retry")

-- What the wait comes to: no delivery ends it, or the first that does is found.
data Awaited (env : Env) (corr_id : Bytes) (ds : List Delivery) : Option Delivery → Type 0 where
  nothing : All (λ d. ¬ Final env corr_id d) ds → Awaited env corr_id ds none
  found :
      (before after : List Delivery) (d : Delivery)
      → ds ≡ before ++ d ∷ after
      → All (λ x. ¬ Final env corr_id x) before
      → Final env corr_id d
      → Awaited env corr_id ds (some d)

Awaited-later :
    (env : Env) (corr_id : Bytes) (d : Delivery) (ds : List Delivery) (o : Option Delivery)
    → (¬ Final env corr_id d)
    → Awaited env corr_id ds o
    → Awaited env corr_id (d ∷ ds) o
Awaited-later env corr_id d ds _ n (nothing all) = nothing (n, all)
Awaited-later env corr_id d ds _ n (found before after x e all final) =
    found (d ∷ before) after x (ap (◌∷◌ d) e) (n, all) final

await-skips :
    (env : Env) (corr_id : Bytes) (d : Delivery) (ds : List Delivery)
    → (d.correlation_id ≢ corr_id) ⊎ (env.status_of d.body ≡ bytes "retry")
    → await env corr_id (d ∷ ds) ≡ await env corr_id ds
unfolding await
await-skips env corr_id d ds h = ground (
  arith,
  bytes_eq_iff d.correlation_id corr_id,
  bytes_eq_iff (env.status_of d.body) (bytes "retry"),
  h,
)

await-stops :
    (env : Env) (corr_id : Bytes) (d : Delivery) (ds : List Delivery)
    → Final env corr_id d
    → await env corr_id (d ∷ ds) ≡ some d
unfolding await
await-stops env corr_id d ds h = ground (
  arith,
  bytes_eq_iff d.correlation_id corr_id,
  bytes_eq_iff (env.status_of d.body) (bytes "retry"),
  h,
)

-- The wait for feedback ends at the first delivery that carries the task's correlation id and a
-- status other than "retry", and passes over the deliveries before it; where no delivery is of that
-- kind, none ends it.
await_total :
    (env : Env) (corr_id : Bytes) (ds : List Delivery)
    → Awaited env corr_id ds (await env corr_id ds)
unfolding await
await_total env corr_id [] = nothing tt
await_total env corr_id (d ∷ ds) =
    let rest = await_total env corr_id ds in
    elim (bytes_cases d.correlation_id corr_id) [
      | inr other ↦
          rw (await-skips env corr_id d ds (inl other))
            (Awaited-later env corr_id d ds _ (λ f. other f.0) rest)
      | inl own ↦ elim (bytes_cases (env.status_of d.body) (bytes "retry")) [
        | inl again ↦
            rw (await-skips env corr_id d ds (inr again))
              (Awaited-later env corr_id d ds _ (λ f. f.1 again) rest)
        | inr done ↦
            rw (await-stops env corr_id d ds (own, done)) (found [] ds d refl tt (own, done))
      ]
    ]

-- Whom the handler lets through to the broker
pub record Admitted (outside : Outside) (redis : Redis) (limiter : RateLimiter) (s : Submission)
    (store : redis.Store) : Type 0 where
  pub posted : s.method ≡ bytes "POST"
  pub long_enough : 8 ≤ length s.authorization
  pub user : Bytes
  pub known : outside.parse_jwt (slice_from 7 s.authorization) ≡ some (email user)
  pub allowed : (allow redis limiter user store).0 ≡ some true

module _ (env : Env) (outside : Outside) (redis : Redis) (limiter : RateLimiter) (s : Submission)
    (p : Process) (store : redis.Store) where
  limit-idle :
      (user : Bytes)
      → ((allow redis limiter user store).0 ≢ some true)
      → (limit env outside redis limiter s user (p, store)).1.0 ≡ p
  unfolding limit
  limit-idle user n = ground arith

  token-idle :
      (claim : Option Claim)
      → ((user : Bytes)
          → claim ≡ some (email user)
          → (allow redis limiter user store).0 ≢ some true)
      → (with_token env outside redis limiter s claim (p, store)).1.0 ≡ p
  unfolding with_token
  token-idle none n = refl
  token-idle (some missing) n = refl
  token-idle (some no_string) n = refl
  token-idle (some (email user)) n = limit-idle user (n user refl)

  pub opened :
      s.method ≡ bytes "POST"
      → 8 ≤ length s.authorization
      → handle_submit_task env outside redis limiter s (p, store)
        ≡ with_token env outside redis limiter s
            (outside.parse_jwt (slice_from 7 s.authorization))
            (p, store)
  unfolding handle_submit_task
  opened posted long = ground (arith, bytes_eq_iff s.method (bytes "POST"), posted, long)

  pub shut :
      (s.method ≢ bytes "POST") ⊎ (length s.authorization < 8)
      → (handle_submit_task env outside redis limiter s (p, store)).1.0 ≡ p
  unfolding handle_submit_task
  shut h = ground (arith, bytes_eq_iff s.method (bytes "POST"), h)

  -- Without a POST, a header of at least eight bytes, a valid token with an email and the consent of
  -- the rate limiter, the handler makes no call of the broker and counts nothing.
  pub unadmitted-idle :
      (¬ Admitted outside redis limiter s store)
      → (handle_submit_task env outside redis limiter s (p, store)).1.0 ≡ p
  unadmitted-idle h = elim (bytes_cases s.method (bytes "POST")) [
    | inr other ↦ shut (inl other)
    | inl posted ↦ elim (dec_le 8 (length s.authorization)) [
      | no short ↦ shut (inr (omega arith))
      | yes long ↦ rw (opened posted long) (
          token-idle _ (λ user known allowed. h (record {
            posted = posted;
            long_enough = long;
            user = user;
            known = known;
            allowed = allowed;
          })))
    ]
  ]
