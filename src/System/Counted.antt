-- ===== src/System/Counted.antt =====
-- gateway/server.go and limiter/rate_limit.go: what a request in a user's name does to the number of
-- messages on the broker and to the user's count.
use distributed_messaging_sy.Base.{
  ℕ, ◌+◌, ◌-◌, ◌≤◌, ◌≡◌, ◌≢◌, ◌⊎◌, ◌∙◌, inl, inr, refl, ap, bytes_eq, bytes_eq_iff, Bytes, bytes,
  some, arith, Response, Bool-cases,
}
use distributed_messaging_sy.Amqp.{Env}
use distributed_messaging_sy.Amqp.Process.{Process}
use distributed_messaging_sy.Limiter.{Redis, IsRedis, RateLimiter, key_of}
use distributed_messaging_sy.Limiter.Window.{one_allowed}
use distributed_messaging_sy.Gateway.Submit.{Outside, Submission, handle_submit_task}
use distributed_messaging_sy.Gateway.Admission.{shut}
use distributed_messaging_sy.Gateway.Limited.{Reaches, published, handle_submit_task-gated}
use distributed_messaging_sy.Gateway.Pages.{serve_path, metrics-unsent}

-- A form in a user's name, or one that asks for nothing
abbrev pub Named : Outside → Bytes → Submission → Type 0
Named outside user s = Reaches outside user s ⊎ (s.method ≢ bytes "POST")

shut-store :
    (env : Env) (outside : Outside) (redis : Redis) (limiter : RateLimiter) (s : Submission)
    (p : Process) (store : redis.Store)
    → s.method ≢ bytes "POST"
    → (handle_submit_task env outside redis limiter s (p, store)).1.1 ≡ store
unfolding handle_submit_task
shut-store env outside redis limiter s p store n =
    ground (arith, bytes_eq_iff s.method (bytes "POST"), n)

module _ (redis : Redis) (laws : IsRedis redis) (limiter : RateLimiter) (user : Bytes)
    (up : (k : Bytes) (w : ℕ) (s : redis.Store)
      → (n : ℕ) × ((redis.incr_expire k w s).0 ≡ some n)) where
  open redis use {Store, elapse, count, ttl}

  -- What a request may do to a number of messages and the store: nothing; or it is counted, and adds
  -- a message at most if the limit is not reached.
  abbrev pub Step : ℕ × Store → ℕ × Store → Type 0
  Step (m, s) (m', s') =
      ((m' ≡ m) × (s' ≡ s))
      ⊎ ((m' + (limiter.max_requests - (count (key_of user) s + 1))
            ≤ m + (limiter.max_requests - count (key_of user) s))
          × (count (key_of user) s' ≡ count (key_of user) s + 1)
          × (ttl (key_of user) s' ≡ limiter.window))

  submit-Step :
      (env : Env) (outside : Outside) (f : Submission) (p : Process) (s : Store)
      → Named outside user f
      → let after = (handle_submit_task env outside redis limiter f (p, s)).1 in
        Step (published p, s) (published after.0, after.1)
  submit-Step env outside f p s (inl h) =
      let (answer, counted, left) = one_allowed redis laws limiter user up _ s refl in
      let (sends, kept) =
        handle_submit_task-gated env outside f redis limiter user p s _ h answer in
      inr (
        ground (arith, sends),
        ap (count (key_of user)) kept ∙ counted,
        ap (ttl (key_of user)) kept ∙ left,
      )
  submit-Step env outside f p s (inr n) = inl (
    ap published (shut env outside redis limiter f p s (inl n)),
    shut-store env outside redis limiter f p s n,
  )

  pub serve_path-Step :
      (env : Env) (outside : Outside) (collectors : Process → Response) (path : Bytes)
      (f : Submission) (p : Process) (s : Store)
      → Named outside user f
      → let after = (serve_path env outside redis limiter collectors path f (p, s)).1 in
        Step (published p, s) (published after.0, after.1)
  unfolding serve_path
  serve_path-Step env outside collectors path f p s h =
      elim (Bool-cases (bytes_eq path (bytes "/submit-task"))) [
        | inl e ↦ rw e (submit-Step env outside f p s h)
        | inr e ↦ inl (
          ground (arith, e, metrics-unsent env outside redis limiter collectors p),
          ground (arith, e),
        )
      ]

  pub more-Step : (k m m' : ℕ) (s s' : Store) → Step (m, s) (m', s') → Step (m + k, s) (m' + k, s')
  more-Step k m m' s s' h = ground (arith, h)

  pub after-Step : (k m m' : ℕ) (s s' : Store) → Step (m, s) (m', s') → Step (k + m, s) (k + m', s')
  after-Step k m m' s s' h = ground (arith, h)
