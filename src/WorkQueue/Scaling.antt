-- ===== src/WorkQueue/Scaling.antt =====
-- work_queue_model/worker.go: how many workers the auto-scaler starts.
use distributed_messaging_sy.Base.{
  ℕ, zero, suc, ◌+◌, ◌*◌, ◌%◌, ◌^◌, ◌≡◌, ltb, if◌then◌else◌, none, Bytes, List, [], ◌∷◌, arith,
  returns, bytes_eq,
}
use distributed_messaging_sy.Amqp.{Env, queue_inspect, sleep}
use distributed_messaging_sy.Amqp.Process.{Process}
use distributed_messaging_sy.Amqp.Trace.{consumers}
use distributed_messaging_sy.WorkQueue.{
  shard_ring, start_task_queue_worker, spawn, scale_queue, scale_queues, scale_round, auto_scaler,
}

-- The same environment, with a broker that refuses no call and whose queues keep their depths
abbrev pub steady : Env → (Bytes → ℕ) → Env
steady env depth = record env { fails = λ _ _. none; messages = λ _ q. depth q }

-- How many of some queues are deeper than the threshold
abbrev pub busy : (Bytes → ℕ) → ℕ → List Bytes → ℕ
busy depth threshold [] = 0
busy depth threshold (q ∷ qs) = (if ltb threshold (depth q) then 1 else 0) + busy depth threshold qs

-- How often a queue stands among some queues and is deeper than the threshold
abbrev pub busy_at : (Bytes → ℕ) → ℕ → Bytes → List Bytes → ℕ
busy_at depth threshold k [] = 0
busy_at depth threshold k (q ∷ qs) =
    (if bytes_eq q k then (if ltb threshold (depth q) then 1 else 0) else 0)
    + busy_at depth threshold k qs

module _ (env : Env) (depth : Bytes → ℕ) where
  spawn-adds :
      (n : ℕ) (q k : Bytes) (p : Process)
      → ((spawn (steady env depth) n q p).0 ≡ returns tt)
        × ((spawn (steady env depth) n q p).1.worker_count % 2 ^ 32 ≡ (p.worker_count + n) % 2 ^ 32)
        × (consumers k (spawn (steady env depth) n q p).1.calls
            ≡ (if bytes_eq q k then n else 0) + consumers k p.calls)
  unfolding spawn start_task_queue_worker consumers
  spawn-adds zero q k p = ground arith
  spawn-adds (suc n) q k p =
      ground (arith, spawn-adds n q k (start_task_queue_worker (steady env depth) q p).1)

  scale_queue-adds :
      (threshold burst : ℕ) (q k : Bytes) (p : Process)
      → ((scale_queue (steady env depth) threshold burst q p).0 ≡ returns tt)
        × ((scale_queue (steady env depth) threshold burst q p).1.worker_count % 2 ^ 32
            ≡ (p.worker_count + (if ltb threshold (depth q) then burst else 0)) % 2 ^ 32)
        × (consumers k (scale_queue (steady env depth) threshold burst q p).1.calls
            ≡ (if bytes_eq q k then (if ltb threshold (depth q) then burst else 0) else 0)
              + consumers k p.calls)
  unfolding scale_queue consumers
  scale_queue-adds threshold burst q k p =
      ground (arith, spawn-adds burst q k (record p { calls = queue_inspect q ∷ p.calls }))

  scale_queues-adds :
      (threshold burst : ℕ) (qs : List Bytes) (k : Bytes) (p : Process)
      → ((scale_queues (steady env depth) threshold burst qs p).0 ≡ returns tt)
        × ((scale_queues (steady env depth) threshold burst qs p).1.worker_count % 2 ^ 32
            ≡ (p.worker_count + burst * busy depth threshold qs) % 2 ^ 32)
        × (consumers k (scale_queues (steady env depth) threshold burst qs p).1.calls
            ≡ burst * busy_at depth threshold k qs + consumers k p.calls)
  unfolding scale_queues
  scale_queues-adds threshold burst [] k p = ground arith
  scale_queues-adds threshold burst (q ∷ qs) k p = ground (
    arith,
    scale_queue-adds threshold burst q k p,
    scale_queues-adds threshold burst qs k (scale_queue (steady env depth) threshold burst q p).1,
  )

  round-adds :
      (interval threshold burst : ℕ) (k : Bytes) (p : Process)
      → ((scale_round (steady env depth) interval threshold burst p).0 ≡ returns tt)
        × ((scale_round (steady env depth) interval threshold burst p).1.worker_count % 2 ^ 32
            ≡ (p.worker_count + burst * busy depth threshold shard_ring) % 2 ^ 32)
        × (consumers k (scale_round (steady env depth) interval threshold burst p).1.calls
            ≡ burst * busy_at depth threshold k shard_ring + consumers k p.calls)
  unfolding scale_round consumers
  round-adds interval threshold burst k p =
      scale_queues-adds threshold burst shard_ring k (record p { calls = sleep interval ∷ p.calls })

  -- While the broker takes every call and the queues keep their depths, each round of the
  -- auto-scaler starts `burst` workers for every shard queue that is deeper than the threshold:
  -- after `n` rounds the number of live workers, modulo 2^32, has grown by `n * burst` for each
  -- such queue, and each queue has as many consumers more as workers were started for it.
  pub auto_scaler-adds :
      (interval threshold burst n : ℕ) (k : Bytes) (p : Process)
      → ((auto_scaler (steady env depth) interval threshold burst n p).0 ≡ returns tt)
        × ((auto_scaler (steady env depth) interval threshold burst n p).1.worker_count % 2 ^ 32
            ≡ (p.worker_count + n * (burst * busy depth threshold shard_ring)) % 2 ^ 32)
        × (consumers k (auto_scaler (steady env depth) interval threshold burst n p).1.calls
            ≡ n * (burst * busy_at depth threshold k shard_ring) + consumers k p.calls)
  unfolding auto_scaler
  auto_scaler-adds interval threshold burst zero k p = ground arith
  auto_scaler-adds interval threshold burst (suc n) k p = ground (
    arith,
    round-adds interval threshold burst k p,
    auto_scaler-adds interval threshold burst n k
        (scale_round (steady env depth) interval threshold burst p).1,
  )
