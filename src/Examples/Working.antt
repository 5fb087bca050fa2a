-- ===== src/Examples/Working.antt =====
-- Workers of the task queues, and the auto-scaler.
use distributed_messaging_sy.Base.{
  ℕ, ◌≡◌, ◌%◌, ◌^◌, refl, bytes, bytes_eq, Bytes, if◌then◌else◌, [], ◌∷◌, returns, arith, ◌>>◌,
}
use distributed_messaging_sy.Amqp.Process.{started}
use distributed_messaging_sy.Amqp.Trace.{acks, nack_total, consumers}
use distributed_messaging_sy.WorkQueue.{start_task_queue_worker, task_loop, auto_scaler}
use distributed_messaging_sy.WorkQueue.Life.{worker-restores}
use distributed_messaging_sy.WorkQueue.Scaling.{steady, auto_scaler-adds}
use distributed_messaging_sy.Examples.Broker.{lossy, delivery}

abbrev queue : Bytes
queue = bytes "task_shard_1"

-- Seven messages wait in `queue`, and none elsewhere.
abbrev depths : Bytes → ℕ
depths q = if bytes_eq q queue then 7 else 0

worker-restores_example :
    let r =
      (start_task_queue_worker lossy queue
          >> task_loop lossy (bytes "worker-1") (delivery 1 0 ∷ delivery 9 0 ∷ []))
        started in
    (r.0 ≡ returns tt)
    × (acks 9 r.1.calls ≡ 1)
    × (nack_total r.1.calls ≡ 0)
    × (r.1.worker_count ≡ 0)
    × (r.1.metrics.live_workers ≡ 0)
unfolding acks nack_total start_task_queue_worker
worker-restores_example =
    worker-restores lossy (bytes "worker-1") queue (delivery 1 0 ∷ delivery 9 0 ∷ []) started 9
      (omega arith) refl

auto_scaler-adds_example :
    let r = auto_scaler (steady lossy depths) 1000 5 2 3 started in
    (r.0 ≡ returns tt) × (r.1.worker_count % 2 ^ 32 ≡ 6) × (consumers queue r.1.calls ≡ 6)
unfolding bytes bytes_eq consumers
auto_scaler-adds_example = auto_scaler-adds lossy depths 1000 5 2 3 queue started
