-- ===== src/Gateway/Scrape/Lacking.antt =====
-- gateway/server.go, `main`: no step of the start, and no round of the auto-scaler, declares task_queue.
use distributed_messaging_sy.Base.{
  ℕ, All, ◌≡◌, refl, false, ◌||◌, bytes_eq, Bool, Bytes, bytes, List, [], ◌∷◌, arith,
}
use distributed_messaging_sy.Amqp.{Env, Call, queue_declare}
use distributed_messaging_sy.Amqp.Process.{Process, pause}
use distributed_messaging_sy.DeadLetter.Queues.{retry_queue_of, resilient_queue_of}
use distributed_messaging_sy.DeadLetter.{setup_retry_queue, setup_each, setup_retry_queues}
use distributed_messaging_sy.DeadLetter.RetryWorker.{start_delay_retry_worker}
use distributed_messaging_sy.DeadLetter.ResilientWorker.{start_resilient_worker}
use distributed_messaging_sy.DeadLetter.DlqConsumer.{start_dlq_consumer}
use distributed_messaging_sy.WorkQueue.{shard_ring, auto_scaler, start_task_queue_worker}
use distributed_messaging_sy.Exchanges.Direct.{start_direct_consumer}
use distributed_messaging_sy.Exchanges.Topic.{start_topic_consumer}
use distributed_messaging_sy.Exchanges.Fanout.{start_fanout_consumer}
use distributed_messaging_sy.Exchanges.Headers.{start_headers_consumer}
use distributed_messaging_sy.Gateway.Start.{
  Machine, declare_shards, start_workers, start_consumers, start_gateway,
}
use distributed_messaging_sy.Gateway.Start.Sequence.{
  start_task, keeps-auto_scaler, keeps-sequence, keeps-start_workers, keeps-start_consumers,
}

-- A queue was declared by this name, with or without an error.
unfoldable pub is_declared : Bytes → List Call → Bool
is_declared q [] = false
is_declared q (queue_declare n _ _ _ _ _ ∷ cs) = let rest = is_declared q cs in bytes_eq n q || rest
is_declared q (_ ∷ cs) = is_declared q cs

abbrev pub Lacks : Process → Type 0
Lacks p = is_declared (bytes "task_queue") p.calls ≡ false

module _ (env : Env) where
  pub task-Lacks :
      (q : Bytes)
      → bytes_eq q (bytes "task_queue") ≡ false
      → (p : Process) → Lacks p
      → Lacks (start_task_queue_worker env q p).1
  unfolding is_declared start_task_queue_worker
  task-Lacks q n p h = ground (arith, n, h)

  declare-Lacks : (p : Process) → Lacks p → Lacks (declare_shards env shard_ring p).1
  unfolding declare_shards is_declared bytes bytes_eq
  declare-Lacks p h = ground (arith, h)

  setup-Lacks : (p : Process) → Lacks p → Lacks (setup_retry_queues env shard_ring p).1
  unfolding setup_retry_queues setup_each setup_retry_queue is_declared bytes bytes_eq
      retry_queue_of
  setup-Lacks p h = ground (arith, h)

  resilient-Lacks :
      (id q : Bytes) (p : Process)
      → Lacks p
      → Lacks (start_resilient_worker env id (resilient_queue_of q) p).1
  unfolding start_resilient_worker is_declared resilient_queue_of bytes bytes_eq
  resilient-Lacks id q p h = ground (arith, h)

  retry-Lacks :
      (id q : Bytes) (p : Process) → Lacks p → Lacks (start_delay_retry_worker env q id p).1
  unfolding start_delay_retry_worker is_declared
  retry-Lacks id q p h = ground (arith, h)

  tasks-Lacks :
      All (λ q. (i : ℕ) (p : Process) → Lacks p → Lacks (start_task env i q p).1) shard_ring
  unfolding bytes bytes_eq
  tasks-Lacks = (
    (λ i. task-Lacks _ refl),
    ((λ i. task-Lacks _ refl), ((λ i. task-Lacks _ refl), ((λ i. task-Lacks _ refl), tt))),
  )

  pub scaler-Lacks :
      (interval threshold burst n : ℕ) (p : Process)
      → Lacks p
      → Lacks (auto_scaler env interval threshold burst n p).1
  unfolding is_declared
  scaler-Lacks interval threshold burst n =
      keeps-auto_scaler env Lacks (λ ms p h. h) (λ q p h. h) interval threshold burst n tasks-Lacks

  workers-Lacks : (m : Machine) (p : Process) → Lacks p → Lacks (start_workers env m p).1
  unfolding is_declared
  workers-Lacks m =
      keeps-start_workers env Lacks (λ ms p h. h) (λ q p h. h) m tasks-Lacks
        (
          (λ i. resilient-Lacks _ _),
          (
            (λ i. resilient-Lacks _ _),
            ((λ i. resilient-Lacks _ _), ((λ i. resilient-Lacks _ _), tt)),
          ),
        )
        (
          (λ i. retry-Lacks _ _),
          ((λ i. retry-Lacks _ _), ((λ i. retry-Lacks _ _), ((λ i. retry-Lacks _ _), tt))),
        )

  direct-Lacks : (p : Process) → Lacks p → Lacks (start_direct_consumer env (bytes "info") p).1
  unfolding start_direct_consumer is_declared bytes bytes_eq
  direct-Lacks p h = ground (arith, h)

  topic-Lacks : (p : Process) → Lacks p → Lacks (start_topic_consumer env (bytes "app.*") p).1
  unfolding start_topic_consumer is_declared bytes bytes_eq
  topic-Lacks p h = ground (arith, h)

  fanout-Lacks : (p : Process) → Lacks p → Lacks (start_fanout_consumer env p).1
  unfolding start_fanout_consumer is_declared bytes bytes_eq
  fanout-Lacks p h = ground (arith, h)

  headers-Lacks : (p : Process) → Lacks p → Lacks (start_headers_consumer env p).1
  unfolding start_headers_consumer is_declared bytes bytes_eq
  headers-Lacks p h = ground (arith, h)

  dlq-Lacks : (p : Process) → Lacks p → Lacks (start_dlq_consumer env p).1
  unfolding start_dlq_consumer is_declared bytes bytes_eq
  dlq-Lacks p h = ground (arith, h)

  consumers-Lacks : (m : Machine) (p : Process) → Lacks p → Lacks (start_consumers env m p).1
  unfolding is_declared
  consumers-Lacks m =
      keeps-start_consumers env Lacks (λ ms p h. h) (λ q p h. h) m tasks-Lacks direct-Lacks
        topic-Lacks fanout-Lacks headers-Lacks dlq-Lacks

  pub start-Lacks : (m : Machine) (p : Process) → Lacks p → Lacks (start_gateway env m p).1
  unfolding start_gateway is_declared
  start-Lacks m =
      keeps-sequence Lacks
        (declare_shards env shard_ring
          ∷ setup_retry_queues env shard_ring
          ∷ pause env 100
          ∷ start_workers env m
          ∷ start_consumers env m
          ∷ [])
        (declare-Lacks, (setup-Lacks, ((λ p h. h), (workers-Lacks m, (consumers-Lacks m, tt)))))
