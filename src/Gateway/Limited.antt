-- ===== src/Gateway/Limited.antt =====
-- gateway/server.go with limiter/rate_limit.go: what the submissions of one client put on the broker.
use distributed_messaging_sy.Base.{
  Bool, if◌then◌else◌, ℕ, ◌+◌, ◌-◌, ◌≤◌, ◌<◌, ◌≡◌, ◌∙◌, ap, refl, length, All, Bytes, bytes, List,
  [], ◌∷◌, some, arith,
}
use distributed_messaging_sy.Amqp.{Env}
use distributed_messaging_sy.Amqp.Process.{Process}
use distributed_messaging_sy.Amqp.Trace.{sent}
use distributed_messaging_sy.Limiter.{Redis, IsRedis, RateLimiter, key_of, allow}
use distributed_messaging_sy.Limiter.Window.{one_request}
use distributed_messaging_sy.DeadLetter.{send_to_retry_queue, publish_to_resilient_queue}
use distributed_messaging_sy.Exchanges.Direct.{publish_direct}
use distributed_messaging_sy.Exchanges.Topic.{publish_topic}
use distributed_messaging_sy.Exchanges.Fanout.{publish_fanout}
use distributed_messaging_sy.Exchanges.Headers.{publish_headers}
use distributed_messaging_sy.Gateway.Publish.{Request, publish_by_route, auto_detect_and_publish}
use distributed_messaging_sy.Gateway.Delivery.{auto_detect-shard}
use distributed_messaging_sy.Shards.Range.{pick_shard_total}
use distributed_messaging_sy.Gateway.Submit.{
  random_id, email, Outside, Submission, request_of, slice_from, wait_for_feedback,
  publish_and_wait, submit, limit, with_token, handle_submit_task,
}
use distributed_messaging_sy.Gateway.Admission.{opened}
use distributed_messaging_sy.Gateway.Answer.{reply_queue, consuming}

-- Submissions that come one after the other, each some milliseconds after the one before
abbrev pub Visit : Type 0
Visit = ℕ × Submission

module _ (env : Env) (outside : Outside) (redis : Redis) (limiter : RateLimiter) where
  unfoldable pub serve : List Visit → Process → redis.Store → Process × redis.Store
  serve [] p store = (p, store)
  serve ((gap, s) ∷ visits) p store =
      let (p', store') =
        (handle_submit_task env outside redis limiter s (p, redis.elapse gap store)).1 in
      serve visits p' store'

-- A submission that reaches the rate limiter in a user's name
pub record Reaches (outside : Outside) (user : Bytes) (s : Submission) : Type 0 where
  pub posted : s.method ≡ bytes "POST"
  pub long_enough : 8 ≤ length s.authorization
  pub known : outside.parse_jwt (slice_from 7 s.authorization) ≡ some (email user)

abbrev pub published : Process → ℕ
published p = length (sent p.calls)

module _ (env : Env) where
  route-sends_one :
      (r : Request) (shard : Bytes) (p : Process)
      → published (publish_by_route env r shard p).1 ≤ published p + 1
  unfolding publish_by_route send_to_retry_queue publish_to_resilient_queue publish_headers
      publish_topic publish_direct publish_fanout sent
  route-sends_one r shard p = ground arith

  auto_detect-sends_one :
      (r : Request) (p : Process) → published (auto_detect_and_publish env r p).1 ≤ published p + 1
  auto_detect-sends_one r p =
      rw (auto_detect-shard env r _ p (pick_shard_total r.task).2) (route-sends_one r _ p)

  module _ (outside : Outside) (s : Submission) where
    waiting-sends_one :
        (reply_to corr_id : Bytes) (p : Process)
        → published (publish_and_wait env outside s reply_to corr_id p).1 ≤ published p + 1
    unfolding publish_and_wait wait_for_feedback
    waiting-sends_one reply_to corr_id p =
        ground (arith, auto_detect-sends_one (request_of s reply_to corr_id) p)

    pub submit-sends_one : (p : Process) → published (submit env outside s p).1 ≤ published p + 1
    unfolding submit sent
    submit-sends_one p =
        let p' = consuming env outside s p in
        ground
          (arith, waiting-sends_one (reply_queue env outside s p) (random_id outside p'.calls) p')

    module _ (redis : Redis) (limiter : RateLimiter) where
      -- What a submission that reaches the limiter does to the broker is what the limiter allows.
      pub handle_submit_task-gated :
          (user : Bytes) (p : Process) (store : redis.Store) (allowed : Bool)
          → Reaches outside user s
          → (allow redis limiter user store).0 ≡ some allowed
          → let after = (handle_submit_task env outside redis limiter s (p, store)).1 in
            (published after.0 ≤ published p + (if allowed then 1 else 0))
            × (after.1 ≡ (allow redis limiter user store).1)
      unfolding with_token limit
      handle_submit_task-gated user p store allowed h e =
          rw (opened env outside redis limiter s p store h.posted h.long_enough, h.known)
            (ground (arith, e, submit-sends_one p))

module _ (env : Env) (outside : Outside) (redis : Redis) (laws : IsRedis redis)
    (limiter : RateLimiter) (user : Bytes)
    (up : (k : Bytes) (w : ℕ) (s : redis.Store)
      → (n : ℕ) × ((redis.incr_expire k w s).0 ≡ some n)) where
  open redis use {Store, elapse, count, ttl}

  one_visit :
      (gap n : ℕ) (s : Submission) (p : Process) (store : Store)
      → Reaches outside user s
      → count (key_of user) (elapse gap store) ≡ n
      → let after = (handle_submit_task env outside redis limiter s (p, elapse gap store)).1 in
        (published after.0 + (limiter.max_requests - (n + 1))
          ≤ published p + (limiter.max_requests - n))
        × (count (key_of user) after.1 ≡ n + 1)
        × (ttl (key_of user) after.1 ≡ limiter.window)
  one_visit gap n s p store h e =
      let (answer, counted, left) = one_request redis laws limiter user up gap n store e in
      let (sends, kept) =
        handle_submit_task-gated env outside s redis limiter user p (elapse gap store) _ h answer in
      ground
        (arith, sends, ap (count (key_of user)) kept ∙ counted, ap (ttl (key_of user)) kept ∙ left)

  later_visits :
      (visits : List Visit) (n : ℕ) (p : Process) (store : Store)
      → All (λ (v : Visit). (v.0 < limiter.window) × Reaches outside user v.1) visits
      → count (key_of user) store ≡ n
      → ttl (key_of user) store ≡ limiter.window
      → published (serve env outside redis limiter visits p store).0
        ≤ published p + (limiter.max_requests - n)
  unfolding serve
  later_visits [] n p store all e left = omega arith
  later_visits ((gap, s) ∷ visits) n p store ((close, h), all) e left =
      let (sends, counted, full) =
        one_visit gap n s p store h (ground (arith, laws.ends (key_of user) gap store)) in
      let after = (handle_submit_task env outside redis limiter s (p, elapse gap store)).1 in
      let rest = later_visits visits (n + 1) after.0 after.1 all counted full in omega arith

  -- While the store answers and follows Redis, and whatever the broker answers: however many
  -- submissions reach the limiter in one user's name, if each after the first comes less than a window
  -- after the one before, they put no more messages on the broker than the limit, to whatever exchange
  -- or queue, and whatever was counted before.
  pub serve-bounded :
      (gap : ℕ) (s : Submission) (visits : List Visit) (p : Process) (store : Store)
      → Reaches outside user s
      → All (λ (v : Visit). (v.0 < limiter.window) × Reaches outside user v.1) visits
      → published (serve env outside redis limiter ((gap, s) ∷ visits) p store).0
        ≤ published p + limiter.max_requests
  unfolding serve
  serve-bounded gap s visits p store h all =
      let (sends, counted, full) = one_visit gap _ s p store h refl in
      let after = (handle_submit_task env outside redis limiter s (p, elapse gap store)).1 in
      let n = count (key_of user) (elapse gap store) in
      let rest = later_visits visits (n + 1) after.0 after.1 all counted full in omega arith
