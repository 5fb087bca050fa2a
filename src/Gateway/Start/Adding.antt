-- ===== src/Gateway/Start/Adding.antt =====
-- gateway/server.go, `main`: the consumers that each step of the start adds to a queue.
use distributed_messaging_sy.Base.{
  ℕ, zero, suc, ◌+◌, ◌≤◌, ◌≡◌, bytes_eq, if◌then◌else◌, Bytes, bytes, List, [], ◌∷◌, ◌>>◌, map,
  returns, arith,
}
use distributed_messaging_sy.Amqp.{Env, queue_inspect}
use distributed_messaging_sy.Amqp.Process.{Process, Act, pause}
use distributed_messaging_sy.Amqp.Trace.{consumers}
use distributed_messaging_sy.DeadLetter.Queues.{retry_queue_of, resilient_queue_of}
use distributed_messaging_sy.DeadLetter.RetryChain.{accepting}
use distributed_messaging_sy.DeadLetter.RetryWorker.{start_delay_retry_worker}
use distributed_messaging_sy.DeadLetter.ResilientWorker.{start_resilient_worker}
use distributed_messaging_sy.DeadLetter.DlqConsumer.{start_dlq_consumer}
use distributed_messaging_sy.WorkQueue.{
  shard_ring, start_task_queue_worker, spawn, scale_queue, scale_queues, scale_round, auto_scaler,
}
use distributed_messaging_sy.Exchanges.Direct.{start_direct_consumer}
use distributed_messaging_sy.Exchanges.Topic.{start_topic_consumer}
use distributed_messaging_sy.Exchanges.Fanout.{start_fanout_consumer}
use distributed_messaging_sy.Exchanges.Headers.{start_headers_consumer}
use distributed_messaging_sy.Gateway.Start.{Machine, scaled_pause, start_each}
use distributed_messaging_sy.Gateway.Start.Sequence.{start_task, start_resilient, start_retry}

-- How often a queue stands in a list
abbrev pub occurs : Bytes → List Bytes → ℕ
occurs k [] = 0
occurs k (q ∷ qs) = (if bytes_eq q k then 1 else 0) + occurs k qs

-- The steps with a broker that takes every call, and the consumers that they add to a queue.
module _ (env : Env) (k : Bytes) where
  -- A step comes to its end and adds at least so many.
  abbrev pub Adds : Act (Unit {0}) → ℕ → Type 0
  Adds a n =
      (p : Process) → ((a p).0 ≡ returns tt) × (consumers k p.calls + n ≤ consumers k (a p).1.calls)

  pub then-Adds : (a b : Act (Unit {0})) (m n : ℕ) → Adds a m → Adds b n → Adds (a >> b) (m + n)
  then-Adds a b m n f g p = ground (arith, f p, g (a p).1)

  spawn-Adds : (n : ℕ) (q : Bytes) → Adds (spawn (accepting env) n q) 0
  unfolding spawn start_task_queue_worker consumers
  spawn-Adds zero q p = ground arith
  spawn-Adds (suc n) q p =
      ground (arith, spawn-Adds n q (start_task_queue_worker (accepting env) q p).1)

  scale_queue-Adds :
      (threshold burst : ℕ) (q : Bytes) → Adds (scale_queue (accepting env) threshold burst q) 0
  unfolding scale_queue consumers
  scale_queue-Adds threshold burst q p =
      ground (arith, spawn-Adds burst q (record p { calls = queue_inspect q ∷ p.calls }))

  scale_queues-Adds :
      (threshold burst : ℕ) (qs : List Bytes)
      → Adds (scale_queues (accepting env) threshold burst qs) 0
  unfolding scale_queues
  scale_queues-Adds threshold burst [] p = ground arith
  scale_queues-Adds threshold burst (q ∷ qs) p =
      then-Adds (scale_queue (accepting env) threshold burst q)
        (scale_queues (accepting env) threshold burst qs) 0 0 (scale_queue-Adds threshold burst q)
        (scale_queues-Adds threshold burst qs) p

  pub pause-Adds : (ms : ℕ) → Adds (pause (accepting env) ms) 0
  unfolding consumers
  pause-Adds ms p = ground arith

  auto_scaler-Adds :
      (interval threshold burst n : ℕ)
      → Adds (auto_scaler (accepting env) interval threshold burst n) 0
  unfolding auto_scaler scale_round
  auto_scaler-Adds interval threshold burst zero p = ground arith
  auto_scaler-Adds interval threshold burst (suc n) p =
      then-Adds (scale_round (accepting env) interval threshold burst)
        (auto_scaler (accepting env) interval threshold burst n) 0 0
        (then-Adds (pause (accepting env) interval)
          (scale_queues (accepting env) threshold burst shard_ring) 0 0 (pause-Adds interval)
          (scale_queues-Adds threshold burst shard_ring))
        (auto_scaler-Adds interval threshold burst n) p

  pub scaled_pause-Adds : (m : Machine) → Adds (scaled_pause (accepting env) m) 0
  unfolding scaled_pause
  scaled_pause-Adds m p =
      let p' = (pause (accepting env) 100 p).1 in
      let n = m.scaler_rounds p'.calls in
      ground (arith, pause-Adds 100 p, auto_scaler-Adds 1000 5 2 n p')

  -- Each start of a list adds a consumer to the queue of its entry.
  pub start_each-Adds :
      (wait : Act (Unit {0})) (f : ℕ → Bytes → Act (Unit {0})) (g : Bytes → Bytes)
      → Adds wait 0
      → ((i : ℕ) (q : Bytes) → Adds (f i q) (occurs k (g q ∷ [])))
      → (i : ℕ) (qs : List Bytes) → Adds (start_each wait f i qs) (occurs k (map g qs))
  unfolding start_each
  start_each-Adds wait f g waits each i [] p = ground arith
  start_each-Adds wait f g waits each i (q ∷ qs) p =
      let p₁ = (f i q p).1 in
      ground
        (arith, each i q p, waits p₁, start_each-Adds wait f g waits each (i + 1) qs (wait p₁).1)

  pub task-Adds : (i : ℕ) (q : Bytes) → Adds (start_task (accepting env) i q) (occurs k (q ∷ []))
  unfolding start_task_queue_worker consumers
  task-Adds i q p = ground arith

  pub resilient-Adds :
      (i : ℕ) (q : Bytes)
      → Adds (start_resilient (accepting env) i q) (occurs k (resilient_queue_of q ∷ []))
  unfolding start_resilient_worker consumers
  resilient-Adds i q p = ground arith

  pub retry-Adds :
      (i : ℕ) (q : Bytes)
      → Adds (start_retry (accepting env) i q) (occurs k (retry_queue_of q ∷ []))
  unfolding start_delay_retry_worker consumers
  retry-Adds i q p = ground arith

  pub dlq-Adds :
      Adds (start_dlq_consumer (accepting env)) (occurs k (bytes "dead_letter_queue" ∷ []))
  unfolding start_dlq_consumer consumers
  dlq-Adds p = ground arith

  pub plain-Adds :
      Adds (start_direct_consumer (accepting env) (bytes "info")) 0
      × Adds (start_topic_consumer (accepting env) (bytes "app.*")) 0
      × Adds (start_fanout_consumer (accepting env)) 0
      × Adds (start_headers_consumer (accepting env)) 0
  unfolding start_direct_consumer start_topic_consumer start_fanout_consumer start_headers_consumer
      consumers
  plain-Adds = ((λ p. ground arith), (λ p. ground arith), (λ p. ground arith), (λ p. ground arith))
