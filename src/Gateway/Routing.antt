-- ===== src/Gateway/Routing.antt =====
-- gateway/server.go, `autoDetectAndPublish`: the routes of the requests, described apart from the
-- chain of returns, and what is published on them.
use distributed_messaging_sy.Base.{
  ℕ, ◌+◌, ◌≡◌, ◌≢◌, ◌⊎◌, ◌↔◌, true, false, bytes_eq_iff, bytes_eq_refl, has_prefix, contains, Bytes,
  bytes, [], ◌∷◌, ◌++◌, map, none, returns, arith,
}
use distributed_messaging_sy.Amqp.{Env, Publishing, Table, decoded}
use distributed_messaging_sy.Amqp.Process.{Process}
use distributed_messaging_sy.Amqp.Trace.{sent, sent_to}
use distributed_messaging_sy.DeadLetter.{
  send_to_retry_queue, publish_to_resilient_queue, first_retry,
}
use distributed_messaging_sy.DeadLetter.Queues.{retry_queue_of, resilient_queue_of}
use distributed_messaging_sy.DeadLetter.RetryChain.{accepting}
use distributed_messaging_sy.Exchanges.Direct.{publish_direct}
use distributed_messaging_sy.Exchanges.Topic.{publish_topic}
use distributed_messaging_sy.Exchanges.Fanout.{publish_fanout}
use distributed_messaging_sy.Exchanges.Headers.{publish_headers}
use distributed_messaging_sy.Gateway.Publish.{Request, is_pattern, publish_by_route}

-- A byte stands somewhere in a text.
abbrev pub Occurs : ℕ → Bytes → Type 0
Occurs b [] = ⊥
Occurs b (c ∷ s) = (c ≡ b) ⊎ Occurs b s

contains-Occurs : (b : ℕ) (s : Bytes) → (contains s (b ∷ []) ≡ true) ↔ Occurs b s
unfolding contains has_prefix
contains-Occurs b [] = (λ h. cc, λ h. absurd h)
contains-Occurs b (c ∷ s) =
    (λ h. ground (arith, contains-Occurs b s), λ h. ground (arith, contains-Occurs b s))

-- A routing key with a wildcard of a topic pattern
abbrev pub HasWildcard : Bytes → Type 0
HasWildcard key = Occurs b'*' key ⊎ Occurs b'#' key

pub is_pattern_iff : (key : Bytes) → (is_pattern key ≡ true) ↔ HasWildcard key
unfolding is_pattern bytes
is_pattern_iff key = (
  λ h. ground (arith, contains-Occurs b'*' key, contains-Occurs b'#' key),
  λ h. ground (arith, contains-Occurs b'*' key, contains-Occurs b'#' key),
)

-- A request without the flags that come first
abbrev Unflagged : Request → Type 0
Unflagged r = (r.retry ≢ bytes "1") × (r.fail ≢ bytes "1")

-- The exchange and the routing key that a request should go to, `shard` being the shard of its task
pub data Routes (r : Request) (shard : Bytes) : Bytes → Bytes → Type 0 where
  retried :
      r.retry ≡ bytes "1" → Routes r shard (bytes "retry_exchange") (shard ++ bytes "_retry_5s")
  failed :
      r.retry ≢ bytes "1" → r.fail ≡ bytes "1" → Routes r shard [] (bytes "resilient_" ++ shard)
  by_headers : Unflagged r → r.headers_json ≢ [] → Routes r shard (bytes "headers_logs") []
  by_pattern :
      Unflagged r
      → r.headers_json ≡ []
      → HasWildcard r.routing_key
      → Routes r shard (bytes "topic_exchange_suyash") r.routing_key
  by_key :
      Unflagged r
      → r.headers_json ≡ []
      → ¬ HasWildcard r.routing_key
      → r.routing_key ≢ []
      → Routes r shard (bytes "direct_logs") r.routing_key
  by_hash :
      Unflagged r
      → r.headers_json ≡ []
      → r.routing_key ≡ []
      → r.use_shards ≡ true
      → Routes r shard [] shard
  broadcast :
      Unflagged r
      → r.headers_json ≡ []
      → r.routing_key ≡ []
      → r.use_shards ≡ false
      → Routes r shard (bytes "logs") []

-- What a message of a request carries
abbrev pub carried : Publishing → Bytes × Bytes × Bytes
carried m = (m.body, m.reply_to, m.correlation_id)

-- Exactly one message more was published, to one address, and it carries the request's task, reply
-- queue and correlation id; the counter of published messages went up by one.
pub record Publishes (r : Request) (e k : Bytes) (p q : Process) : Type 0 where
  pub alone :
      map carried (sent q.calls) ≡ (r.task, r.reply_to, r.corr_id) ∷ map carried (sent p.calls)
  pub addressed :
      map carried (sent_to e k q.calls)
      ≡ (r.task, r.reply_to, r.corr_id) ∷ map carried (sent_to e k p.calls)
  pub counted : q.metrics.msgs_published ≡ p.metrics.msgs_published + 1

-- The headers text, where there is one, decodes to a table.
abbrev pub Decodes : Env → Request → Type 0
Decodes env r =
    (r.headers_json ≡ []) ⊎ ((t : Table) × (env.unmarshal_table r.headers_json ≡ decoded t))

module _ (env : Env) (r : Request) (shard : Bytes) where
  pub publish_by_route-Publishes :
      (p : Process) (e k : Bytes)
      → Decodes env r
      → Routes r shard e k
      → ((publish_by_route (accepting env) r shard p).0 ≡ returns none)
        × Publishes r e k p (publish_by_route (accepting env) r shard p).1
  unfolding publish_by_route send_to_retry_queue first_retry retry_queue_of
      publish_to_resilient_queue resilient_queue_of publish_headers publish_topic publish_direct
      publish_fanout sent sent_to
  publish_by_route-Publishes p e k h (retried a) = ground (
    arith,
    bytes_eq_iff r.retry (bytes "1"),
    bytes_eq_iff r.fail (bytes "1"),
    is_pattern_iff r.routing_key,
    bytes_eq_refl (bytes "retry_exchange"),
    bytes_eq_refl (shard ++ bytes "_retry_5s"),
  )
  publish_by_route-Publishes p e k h (failed a b) = ground (
    arith,
    bytes_eq_iff r.retry (bytes "1"),
    bytes_eq_iff r.fail (bytes "1"),
    is_pattern_iff r.routing_key,
    bytes_eq_refl ([]),
    bytes_eq_refl (bytes "resilient_" ++ shard),
  )
  publish_by_route-Publishes p e k h (by_headers a b) = ground (
    arith,
    bytes_eq_iff r.retry (bytes "1"),
    bytes_eq_iff r.fail (bytes "1"),
    is_pattern_iff r.routing_key,
    bytes_eq_refl (bytes "headers_logs"),
    bytes_eq_refl ([]),
  )
  publish_by_route-Publishes p e k h (by_pattern a b c) = ground (
    arith,
    bytes_eq_iff r.retry (bytes "1"),
    bytes_eq_iff r.fail (bytes "1"),
    is_pattern_iff r.routing_key,
    bytes_eq_refl (bytes "topic_exchange_suyash"),
    bytes_eq_refl (r.routing_key),
  )
  publish_by_route-Publishes p e k h (by_key a b c d) = ground (
    arith,
    bytes_eq_iff r.retry (bytes "1"),
    bytes_eq_iff r.fail (bytes "1"),
    is_pattern_iff r.routing_key,
    bytes_eq_refl (bytes "direct_logs"),
    bytes_eq_refl (r.routing_key),
  )
  publish_by_route-Publishes p e k h (by_hash a b c d) = ground (
    arith,
    bytes_eq_iff r.retry (bytes "1"),
    bytes_eq_iff r.fail (bytes "1"),
    is_pattern_iff r.routing_key,
    bytes_eq_refl ([]),
    bytes_eq_refl (shard),
  )
  publish_by_route-Publishes p e k h (broadcast a b c d) = ground (
    arith,
    bytes_eq_iff r.retry (bytes "1"),
    bytes_eq_iff r.fail (bytes "1"),
    is_pattern_iff r.routing_key,
    bytes_eq_refl (bytes "logs"),
    bytes_eq_refl ([]),
  )
