-- ===== src/DeadLetter.antt =====
-- dead_letter_queues/: the producers of delay_retry_producer.go and dlq_producer.go, and the queues
-- that delay_setup.go declares. The workers are modules below.
pub mod Queues
pub mod RetryWorker
pub mod ResilientWorker
pub mod DlqConsumer
pub mod Settlement
pub mod Counting
pub mod RetryChain
use distributed_messaging_sy.Base.{
  ℕ, ◌+◌, ◌%◌, ◌^◌, true, false, Bytes, bytes, List, [], ◌∷◌, ◌++◌, Option, none, some, pure, ◌>>=◌,
  ◌>>◌,
}
use distributed_messaging_sy.Amqp.{
  Env, Error, Table, Publishing, Value, text, publish, exchange_declare, queue_declare, queue_bind,
}
use Queues.{retry_queue_of, resilient_queue_of}
use distributed_messaging_sy.Amqp.Process.{Act, call, call_or_exit, record_metrics}

-- The message that starts a chain of retries
unfoldable pub first_retry : Bytes → Bytes → Bytes → Publishing
first_retry msg reply_to corr_id = record {
  headers = (bytes "x-retry-count", Value.int32 0) ∷ [];
  persistent = true;
  content_type = bytes "text/plain";
  body = msg;
  reply_to = reply_to;
  correlation_id = corr_id;
}

module _ (env : Env) where
  unfoldable pub send_to_retry_queue : Bytes → Bytes → Bytes → Bytes → Act (Option Error)
  send_to_retry_queue shard msg reply_to corr_id = do
    err ← call env (
        publish (bytes "retry_exchange") (retry_queue_of shard) false false
          (first_retry msg reply_to corr_id))
    elim err [
      | some e ↦ pure (some e)
      | none ↦ do
        record_metrics (λ m. record m { retry_messages = m.retry_messages + 1 })
        pure none
    ]

  unfoldable pub publish_to_resilient_queue : Bytes → Bytes → Bytes → Bytes → Act (Option Error)
  publish_to_resilient_queue shard body reply_to corr_id = do
    record_metrics (λ m. record m { failure_messages = m.failure_messages + 1 })
    call env (
        publish [] (resilient_queue_of shard) false false (record {
          headers = (bytes "x-force-fail", Value.bool true) ∷ [];
          persistent = true;
          content_type = bytes "text/plain";
          body = body;
          reply_to = reply_to;
          correlation_id = corr_id;
        }))

  -- One round of the loop of `SetupRetryQueues`
  unfoldable pub setup_retry_queue : Bytes → Act (Unit {0})
  setup_retry_queue shard = do
    call_or_exit env (
        queue_declare (retry_queue_of shard) true false false false (
          (bytes "x-message-ttl", Value.int32 5000)
          ∷ (bytes "x-dead-letter-exchange", text [])
          ∷ (bytes "x-dead-letter-routing-key", text shard)
          ∷ []))
    call_or_exit env
        (queue_bind (retry_queue_of shard) (retry_queue_of shard) (bytes "retry_exchange") false [])

  unfoldable pub setup_each : List Bytes → Act (Unit {0})
  setup_each [] = pure tt
  setup_each (shard ∷ rest) = do setup_retry_queue shard; setup_each rest

  unfoldable pub setup_retry_queues : List Bytes → Act (Unit {0})
  setup_retry_queues ring = do
    call_or_exit env
        (exchange_declare (bytes "retry_exchange") (bytes "direct") true false false false)
    setup_each ring
