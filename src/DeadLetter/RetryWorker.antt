-- ===== src/DeadLetter/RetryWorker.antt =====
-- dead_letter_queues/delay_retry_worker.go: the worker that consumes a shard's retry queue.
use distributed_messaging_sy.Base.{
  ℕ, ◌+◌, ◌%◌, ◌^◌, Bool, true, false, ◌||◌, ltb, leb, if◌then◌else◌, Bytes, bytes, List, [], ◌∷◌,
  none, some, pure, ◌>>=◌, ◌>>◌,
}
use distributed_messaging_sy.Amqp.{
  Env, Table, Value, Publishing, Delivery, get, publish, ack, nack, consume,
}
use distributed_messaging_sy.Amqp.Process.{
  Act, call, call_or_exit, call_ignored, send_feedback, count_ack,
}

-- The type switch on the header; any other type leaves 0.
abbrev pub as_int32 : Value → ℕ
as_int32 (Value.int32 v) = v
as_int32 (Value.int64 v) = v % 2 ^ 32
as_int32 (Value.float64 v) = v
as_int32 _ = 0

unfoldable pub retry_count : Table → ℕ
retry_count headers = elim (get (bytes "x-retry-count") headers) [ none ↦ 0 | some v ↦ as_int32 v ]

-- `retryCount < 3` on an int32 that is given by its bit pattern
abbrev pub may_retry : ℕ → Bool
may_retry w = ltb w 3 || leb (2 ^ 31) w

-- The message that is put back, `count` being the count after `retryCount++`
unfoldable pub requeued : Delivery → ℕ → Publishing
requeued d count = record {
  headers = (bytes "x-retry-count", Value.int32 count) ∷ [];
  persistent = true;
  content_type = bytes "text/plain";
  body = d.body;
  reply_to = d.reply_to;
  correlation_id = d.correlation_id;
}

module _ (env : Env) (retry_queue worker_id : Bytes) where
  -- The branch `retryCount < 3`
  unfoldable pub requeue : Delivery → ℕ → Act (Unit {0})
  requeue d count = do
    send_feedback env d (record {
      status = bytes "retry";
      attempt = some count;
      worker = some worker_id;
      reason = none;
    })
    err ← call env (publish (bytes "retry_exchange") retry_queue false false (requeued d count))
    elim err [
      | some e ↦ call_ignored env (nack d.tag false false)
      | none ↦ do call_ignored env (ack d.tag false); count_ack env worker_id
    ]

  -- The branch of a message that has used up its retries
  unfoldable pub give_up : Delivery → Act (Unit {0})
  give_up d = do
    send_feedback env d
        (record { status = bytes "dlq"; attempt = none; worker = some worker_id; reason = none })
    call_ignored env (ack d.tag false)
    count_ack env worker_id

  -- One round of `for d := range msgs`
  unfoldable pub retry_step : Delivery → Act (Unit {0})
  unfolding requeue give_up
  retry_step d =
      let count = retry_count d.headers in
      if may_retry count then requeue d ((count + 1) % 2 ^ 32) else give_up d

  -- The rounds until the channel of deliveries is closed
  unfoldable pub retry_loop : List Delivery → Act (Unit {0})
  retry_loop [] = pure tt
  retry_loop (d ∷ ds) = do retry_step d; retry_loop ds

  unfoldable pub start_delay_retry_worker : Act (Unit {0})
  start_delay_retry_worker = call_or_exit env (consume retry_queue [] false false false false)
