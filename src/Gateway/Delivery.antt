-- ===== src/Gateway/Delivery.antt =====
-- gateway/server.go, `autoDetectAndPublish`: every request has a route, and what the function reports
-- is what the broker took.
use distributed_messaging_sy.Base.{
  ℕ, ◌+◌, ◌≡◌, ◌≢◌, ◌⊎◌, inl, inr, Bool-cases, bytes_cases, bytes_eq_iff, decimal, ◌++◌, ◌%◌, Bytes,
  bytes, [], Option, none, some, Outcome, returns, arith,
}
use distributed_messaging_sy.Amqp.{Env, Error}
use distributed_messaging_sy.Amqp.Process.{Process}
use distributed_messaging_sy.Amqp.Trace.{taken_total}
use distributed_messaging_sy.Shards.{fnv32a, pick_shard}
use distributed_messaging_sy.Shards.Range.{pick_shard_total}
use distributed_messaging_sy.DeadLetter.{send_to_retry_queue, publish_to_resilient_queue}
use distributed_messaging_sy.DeadLetter.RetryChain.{accepting}
use distributed_messaging_sy.Exchanges.Direct.{publish_direct}
use distributed_messaging_sy.Exchanges.Topic.{publish_topic}
use distributed_messaging_sy.Exchanges.Fanout.{publish_fanout}
use distributed_messaging_sy.Exchanges.Headers.{publish_headers}
use distributed_messaging_sy.Gateway.Publish.{
  Request, is_pattern, publish_by_route, auto_detect_and_publish,
}
use distributed_messaging_sy.Gateway.Routing.{
  Routes, retried, failed, by_headers, by_pattern, by_key, by_hash, broadcast, HasWildcard,
  is_pattern_iff, Decodes, Publishes, publish_by_route-Publishes,
}

-- The same environment, with a broker that refuses every call
abbrev pub refusing : Env → Env
refusing env = record env { fails = λ _ _. some (bytes "refused") }

wildcard_cases : (key : Bytes) → HasWildcard key ⊎ (¬ HasWildcard key)
wildcard_cases key = elim (Bool-cases (is_pattern key)) [
  | inl e ↦ inl ((is_pattern_iff key).0 e)
  | inr e ↦ inr (λ h. cc (e, (is_pattern_iff key).1 h))
]

abbrev HasRoute : Request → Bytes → Type 0
HasRoute r shard = (e : Bytes) × (k : Bytes) × Routes r shard e k

keyless-HasRoute :
    (r : Request) (shard : Bytes)
    → r.retry ≢ bytes "1"
    → r.fail ≢ bytes "1"
    → r.headers_json ≡ []
    → r.routing_key ≡ []
    → HasRoute r shard
keyless-HasRoute r shard nr nf nh nk = elim (Bool-cases r.use_shards) [
  | inl s ↦ ([], shard, by_hash (nr, nf) nh nk s)
  | inr s ↦ (bytes "logs", [], broadcast (nr, nf) nh nk s)
]

keyed-HasRoute :
    (r : Request) (shard : Bytes)
    → r.retry ≢ bytes "1"
    → r.fail ≢ bytes "1"
    → r.headers_json ≡ []
    → HasRoute r shard
keyed-HasRoute r shard nr nf nh = elim (wildcard_cases r.routing_key) [
  | inl w ↦ (bytes "topic_exchange_suyash", r.routing_key, by_pattern (nr, nf) nh w)
  | inr n ↦ elim (bytes_cases r.routing_key []) [
    | inl e ↦ keyless-HasRoute r shard nr nf nh e
    | inr k ↦ (bytes "direct_logs", r.routing_key, by_key (nr, nf) nh n k)
  ]
]

Routes_total : (r : Request) (shard : Bytes) → HasRoute r shard
Routes_total r shard = elim (bytes_cases r.retry (bytes "1")) [
  | inl e ↦ (bytes "retry_exchange", _, retried e)
  | inr nr ↦ elim (bytes_cases r.fail (bytes "1")) [
    | inl e ↦ ([], _, failed nr e)
    | inr nf ↦ elim (bytes_cases r.headers_json []) [
      | inl e ↦ keyed-HasRoute r shard nr nf e
      | inr nh ↦ (bytes "headers_logs", [], by_headers (nr, nf) nh)
    ]
  ]
]

-- A picked shard leaves only the chain of returns.
pub auto_detect-shard :
    (env : Env) (r : Request) (shard : Bytes) (p : Process)
    → pick_shard r.task ≡ some shard
    → auto_detect_and_publish env r p ≡ publish_by_route env r shard p
unfolding auto_detect_and_publish
auto_detect-shard env r shard p e = rw (e, auto_detect_and_publish)

-- Under a broker that takes every call, and with a headers text that is empty or decodes to a
-- table, a submitted request returns no error, and exactly one message is published for it, to the
-- address of a route that the request has with the shard picked for its task; the message carries
-- the task, the reply queue and the correlation id, and is counted once.
pub auto_detect-Publishes :
    (env : Env) (r : Request) (p : Process)
    → Decodes env r
    → (shard : Bytes) × (pick_shard r.task ≡ some shard)
      × (e : Bytes) × (k : Bytes) × Routes r shard e k
      × ((auto_detect_and_publish (accepting env) r p).0 ≡ returns none)
      × Publishes r e k p (auto_detect_and_publish (accepting env) r p).1
auto_detect-Publishes env r p h =
    let shard = bytes "task_shard_" ++ decimal (fnv32a r.task % 4) in
    let picked : pick_shard r.task ≡ some shard = (pick_shard_total r.task).2 in
    let (e, k, route) = Routes_total r shard in
    let (done, published) = publish_by_route-Publishes env r shard p e k h route in
    let same = auto_detect-shard (accepting env) r shard p picked in
    (shard, picked, e, k, route, rw same done, rw same published)

-- 1 for a call that returned no error
abbrev pub successes : Outcome (Option Error) → ℕ
successes (returns none) = 1
successes _ = 0

module _ (env : Env) (r : Request) (p : Process) where
  route-reports :
      (shard : Bytes)
      → r.retry ≢ bytes "1"
      → (taken_total env (publish_by_route env r shard p).1.calls
          ≡ successes (publish_by_route env r shard p).0 + taken_total env p.calls)
        × ((publish_by_route env r shard p).1.metrics.msgs_published
            ≡ successes (publish_by_route env r shard p).0 + p.metrics.msgs_published)
  unfolding publish_by_route send_to_retry_queue publish_to_resilient_queue publish_headers
      publish_topic publish_direct publish_fanout taken_total
  route-reports shard n = ground (arith, bytes_eq_iff r.retry (bytes "1"))

  -- For a request that is not marked for retry, whatever the broker answers and whatever the
  -- headers text is: the broker took one message more if the function returned without an error,
  -- and none if it returned an error or panicked; and the counter of published messages says so.
  pub auto_detect-reports :
      r.retry ≢ bytes "1"
      → (taken_total env (auto_detect_and_publish env r p).1.calls
          ≡ successes (auto_detect_and_publish env r p).0 + taken_total env p.calls)
        × ((auto_detect_and_publish env r p).1.metrics.msgs_published
            ≡ successes (auto_detect_and_publish env r p).0 + p.metrics.msgs_published)
  auto_detect-reports n =
      rw (auto_detect-shard env r _ p (pick_shard_total r.task).2) (route-reports _ n)

  marked-succeeds :
      (shard : Bytes)
      → r.retry ≡ bytes "1"
      → ((publish_by_route env r shard p).0 ≡ returns none)
        × ((publish_by_route env r shard p).1.metrics.msgs_published ≡ p.metrics.msgs_published + 1)
  unfolding publish_by_route send_to_retry_queue
  marked-succeeds shard m = ground (arith, bytes_eq_iff r.retry (bytes "1"))

  marked-refused :
      (shard : Bytes)
      → r.retry ≡ bytes "1"
      → taken_total (refusing env) (publish_by_route (refusing env) r shard p).1.calls
        ≡ taken_total (refusing env) p.calls
  unfolding publish_by_route send_to_retry_queue taken_total
  marked-refused shard m = ground (arith, bytes_eq_iff r.retry (bytes "1"))

  -- A request marked for retry always returns without an error and is counted as published; under a
  -- broker that refuses every call, no message of it was taken all the same.
  pub marked-hides_error :
      r.retry ≡ bytes "1"
      → ((auto_detect_and_publish env r p).0 ≡ returns none)
        × ((auto_detect_and_publish env r p).1.metrics.msgs_published
            ≡ p.metrics.msgs_published + 1)
        × (taken_total (refusing env) (auto_detect_and_publish (refusing env) r p).1.calls
            ≡ taken_total (refusing env) p.calls)
  marked-hides_error m =
      let picked = (pick_shard_total r.task).2 in
      let (done, counted) = marked-succeeds _ m in
      let same = auto_detect-shard env r _ p picked in
      (
        rw same done,
        rw same counted,
        rw (auto_detect-shard (refusing env) r _ p picked) (marked-refused _ m),
      )
