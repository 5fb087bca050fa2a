-- ===== src/WorkQueue.antt =====
-- work_queue_model/worker.go: the workers of the shard queues, and the auto-scaler that starts more.
pub mod Producer
pub mod Life
pub mod Scaling
pub mod Racing
use distributed_messaging_sy.Base.{
  ℕ, zero, suc, ◌+◌, ◌-◌, ◌%◌, ◌^◌, Bool, true, false, is_empty, ltb, fatal, if◌then◌else◌, decimal,
  Bytes, bytes, List, [], ◌∷◌, ◌++◌, Option, none, some, gets, modify, pure, ◌>>=◌, ◌>>◌,
}
use distributed_messaging_sy.Amqp.{
  Env, Delivery, Feedback, ack, qos, consume, queue_declare, queue_inspect,
}
use distributed_messaging_sy.Amqp.Process.{
  Process, Act, call, call_or_exit, pause, publish_feedback, count_ack, record_metrics, inspect,
}
use distributed_messaging_sy.DeadLetter.Queues.{quorum_args}

-- `shardRing`, which gateway/server.go declares with the same entries
abbrev pub shard_ring : List Bytes
shard_ring =
    bytes "task_shard_0" ∷ bytes "task_shard_1" ∷ bytes "task_shard_2" ∷ bytes "task_shard_3" ∷ []

abbrev pub success_by : Bytes → Feedback
success_by id = record { status = bytes "success"; attempt = none; worker = some id; reason = none }

-- `newCount := atomic.AddInt32(&WorkerCount, delta); monitor.LiveWorkers.Set(float64(newCount))`,
-- `delta` being the bit pattern of an int32
abbrev pub add_workers : ℕ → Act (Unit {0})
add_workers delta = modify (λ p. record p {
  worker_count = (p.worker_count + delta) % 2 ^ 32;
  metrics = record (p.metrics) { live_workers = (p.worker_count + delta) % 2 ^ 32 };
})

-- `StartAutoScaler`, up to the start of its goroutine, with whether `os.OpenFile` opens the log
unfoldable pub start_auto_scaler : Bool → Act (Unit {0})
start_auto_scaler true = pure tt
start_auto_scaler false = fatal

module _ (env : Env) where
  -- `StartTaskQueueWorker`, up to the start of its goroutine
  unfoldable pub start_task_queue_worker : Bytes → Act (Unit {0})
  start_task_queue_worker queue_name = do
    add_workers 1
    call_or_exit env (queue_declare queue_name true false false false quorum_args)
    call_or_exit env (qos 1 0 false)
    call_or_exit env (consume queue_name [] false false false false)

  -- The optional reply of a task
  unfoldable pub reply_success : Bytes → Delivery → Act (Unit {0})
  reply_success id d = if is_empty d.reply_to then pure tt else (do
    err ← publish_feedback env d (success_by id)
    elim err [
      | some _ ↦ pure tt
      | none ↦ record_metrics (λ m. record m { msgs_published = m.msgs_published + 1 })
    ])

  -- One round of `for d := range msgs`
  unfoldable pub task_step : Bytes → Delivery → Act (Unit {0})
  unfolding reply_success
  task_step id d = do
    pause env 100
    reply_success id d
    err ← call env (ack d.tag false)
    elim err [
      | some _ ↦ pure tt
      | none ↦ do
        count_ack env id
        modify (λ p. record p { ack_count = (p.ack_count + 1) % 2 ^ 64 })
    ]

  unfoldable pub task_rounds : Bytes → List Delivery → Act (Unit {0})
  task_rounds id [] = pure tt
  task_rounds id (d ∷ ds) = do task_step id d; task_rounds id ds

  -- The goroutine: the rounds until the channel of deliveries is closed, then the count goes down.
  unfoldable pub task_loop : Bytes → List Delivery → Act (Unit {0})
  task_loop id ds = do task_rounds id ds; add_workers (2 ^ 32 - 1)

  -- `for i := 0; i < burst; i++`
  unfoldable pub spawn : ℕ → Bytes → Act (Unit {0})
  spawn zero queue_name = pure tt
  spawn (suc n) queue_name = do start_task_queue_worker queue_name; spawn n queue_name

  -- One queue of a round of the auto-scaler
  unfoldable pub scale_queue : ℕ → ℕ → Bytes → Act (Unit {0})
  scale_queue threshold burst queue_name = do
    depth ← inspect env queue_name
    elim depth [
      | none ↦ pure tt
      | some n ↦ if ltb threshold n then spawn burst queue_name else pure tt
    ]

  unfoldable pub scale_queues : ℕ → ℕ → List Bytes → Act (Unit {0})
  scale_queues threshold burst [] = pure tt
  scale_queues threshold burst (q ∷ qs) = do
    scale_queue threshold burst q
    scale_queues threshold burst qs

  -- One round of its goroutine, after an interval in milliseconds
  unfoldable pub scale_round : ℕ → ℕ → ℕ → Act (Unit {0})
  scale_round interval threshold burst = do
    pause env interval
    scale_queues threshold burst shard_ring

  -- The first `n` rounds of the endless loop of the goroutine
  unfoldable pub auto_scaler : ℕ → ℕ → ℕ → ℕ → Act (Unit {0})
  auto_scaler interval threshold burst zero = pure tt
  auto_scaler interval threshold burst (suc n) = do
    scale_round interval threshold burst
    auto_scaler interval threshold burst n

  -- `StartResilientConsumer`, whose rounds only log
  unfoldable pub start_resilient_consumer : Act (Unit {0})
  start_resilient_consumer = do
    call_or_exit env (queue_declare (bytes "resilient_queue") true false false false quorum_args)
    call_or_exit env (consume (bytes "resilient_queue") [] true false false false)
