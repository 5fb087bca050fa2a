-- ===== src/Gateway/Publish.antt =====
-- gateway/server.go, `autoDetectAndPublish`: where a submitted task is published.
use distributed_messaging_sy.Base.{
  ◌+◌, Bool, false, not, ◌||◌, is_empty, bytes_eq, contains, if◌then◌else◌, Bytes, bytes, [],
  Option, none, some, panic, pure, ◌>>=◌, ◌>>◌,
}
use distributed_messaging_sy.Amqp.{Env, Error, publish}
use distributed_messaging_sy.Amqp.Process.{Act, call, record_metrics}
use distributed_messaging_sy.Shards.{pick_shard}
use distributed_messaging_sy.DeadLetter.{send_to_retry_queue, publish_to_resilient_queue}
use distributed_messaging_sy.Exchanges.Plain.{task_message}
use distributed_messaging_sy.Exchanges.Direct.{publish_direct}
use distributed_messaging_sy.Exchanges.Topic.{publish_topic}
use distributed_messaging_sy.Exchanges.Fanout.{publish_fanout}
use distributed_messaging_sy.Exchanges.Headers.{publish_headers}

-- The form values that choose the way of a task; `use_shards` is `!broadcast`.
pub record Request : Type 0 where
  pub task : Bytes
  pub routing_key : Bytes
  pub headers_json : Bytes
  pub fail : Bytes
  pub retry : Bytes
  pub reply_to : Bytes
  pub corr_id : Bytes
  pub use_shards : Bool

-- `if err == nil { monitor.MsgsPublished.Inc() }; return err`
abbrev pub count_published : Option Error → Act (Option Error)
count_published (some e) = pure (some e)
count_published none = do
  record_metrics (λ m. record m { msgs_published = m.msgs_published + 1 })
  pure none

-- `strings.Contains(routingKey, "*") || strings.Contains(routingKey, "#")`
unfoldable pub is_pattern : Bytes → Bool
is_pattern key = contains key (bytes "*") || contains key (bytes "#")

module _ (env : Env) where
  -- The consistent-hash fallback
  unfoldable pub publish_to_shard : Request → Bytes → Act (Option Error)
  publish_to_shard r shard = do
    err ← call env (publish [] shard false false (task_message [] r.task r.reply_to r.corr_id))
    count_published err

  -- The chain of early returns, once the shard is picked
  unfoldable pub publish_by_route : Request → Bytes → Act (Option Error)
  unfolding publish_to_shard
  publish_by_route r shard =
      if bytes_eq r.retry (bytes "1")
      then (do _ ← send_to_retry_queue env shard r.task r.reply_to r.corr_id; count_published none)
      else if bytes_eq r.fail (bytes "1")
      then (publish_to_resilient_queue env shard r.task r.reply_to r.corr_id >>= count_published)
      else if not (is_empty r.headers_json)
      then (publish_headers env r.task r.headers_json r.reply_to r.corr_id >>= count_published)
      else if is_pattern r.routing_key
      then (publish_topic env r.task r.routing_key r.reply_to r.corr_id >>= count_published)
      else if not (is_empty r.routing_key)
      then (publish_direct env r.task r.routing_key r.reply_to r.corr_id >>= count_published)
      else if r.use_shards
      then publish_to_shard r shard
      else publish_fanout env r.task r.reply_to r.corr_id

  unfoldable pub auto_detect_and_publish : Request → Act (Option Error)
  unfolding publish_by_route
  auto_detect_and_publish r = elim (pick_shard r.task) [
    | none ↦ panic
    | some shard ↦ publish_by_route r shard
  ]
