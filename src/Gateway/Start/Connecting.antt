-- ===== src/Gateway/Start/Connecting.antt =====
-- gateway/server.go, `main`: each step of the start has the channel that it needs.
use distributed_messaging_sy.Base.{
  ℕ, ◌≡◌, true, false, Bytes, bytes, List, [], ◌∷◌, IsReturn, arith, All,
}
use distributed_messaging_sy.Amqp.{Env, queue_inspect, queue_declare, exchange_declare}
use distributed_messaging_sy.Amqp.Process.{Process, Act, pause, call_or_exit}
use distributed_messaging_sy.Amqp.Connect.{connect, has_connection, has_channel, IsConnected}
use distributed_messaging_sy.DeadLetter.Queues.{quorum_args}
use distributed_messaging_sy.DeadLetter.{setup_retry_queue, setup_each, setup_retry_queues}
use distributed_messaging_sy.DeadLetter.RetryWorker.{start_delay_retry_worker}
use distributed_messaging_sy.DeadLetter.ResilientWorker.{start_resilient_worker}
use distributed_messaging_sy.DeadLetter.DlqConsumer.{start_dlq_consumer}
use distributed_messaging_sy.WorkQueue.{shard_ring, start_task_queue_worker}
use distributed_messaging_sy.Exchanges.Direct.{start_direct_consumer}
use distributed_messaging_sy.Exchanges.Topic.{start_topic_consumer}
use distributed_messaging_sy.Exchanges.Fanout.{start_fanout_consumer}
use distributed_messaging_sy.Exchanges.Headers.{start_headers_consumer}
use distributed_messaging_sy.Gateway.Start.{
  Machine, declare_shards, start_workers, start_consumers, start_gateway,
}
use distributed_messaging_sy.Gateway.Start.Order.{IsOrdered}
use distributed_messaging_sy.Gateway.Start.Sequence.{
  then_lem, start_task, start_resilient, start_retry, keeps-start_workers, keeps-start_consumers,
  keeps-sequence,
}

module _ (env : Env) where
  abbrev pub Linked : Process → Type 0
  Linked p = (has_channel env p.calls ≡ true) × IsConnected env p.calls

  abbrev KeepsLinked : Act (Unit {0}) → Type 0
  KeepsLinked a = (p : Process) → Linked p → Linked (a p).1

  task-Linked : (q : Bytes) (i : ℕ) → KeepsLinked (start_task env i q)
  unfolding has_channel IsConnected start_task_queue_worker
  task-Linked q i p h = ground (arith, h)

  resilient-Linked : (q : Bytes) (i : ℕ) → KeepsLinked (start_resilient env i q)
  unfolding has_channel IsConnected start_resilient_worker
  resilient-Linked q i p h = ground (arith, h)

  retry-Linked : (q : Bytes) (i : ℕ) → KeepsLinked (start_retry env i q)
  unfolding has_channel IsConnected start_delay_retry_worker
  retry-Linked q i p h = ground (arith, h)

  direct-Linked : KeepsLinked (start_direct_consumer env (bytes "info"))
  unfolding has_channel IsConnected start_direct_consumer
  direct-Linked p h = ground (arith, h)

  topic-Linked : KeepsLinked (start_topic_consumer env (bytes "app.*"))
  unfolding has_channel IsConnected start_topic_consumer
  topic-Linked p h = ground (arith, h)

  fanout-Linked : KeepsLinked (start_fanout_consumer env)
  unfolding has_channel IsConnected start_fanout_consumer
  fanout-Linked p h = ground (arith, h)

  headers-Linked : KeepsLinked (start_headers_consumer env)
  unfolding has_channel IsConnected start_headers_consumer
  headers-Linked p h = ground (arith, h)

  dlq-Linked : KeepsLinked (start_dlq_consumer env)
  unfolding has_channel IsConnected start_dlq_consumer
  dlq-Linked p h = ground (arith, h)

  declare-Linked : (qs : List Bytes) → KeepsLinked (declare_shards env qs)
  unfolding has_channel IsConnected declare_shards
  declare-Linked [] p h = h
  declare-Linked (q ∷ qs) p h =
      let a = call_or_exit env (queue_declare q true false false false quorum_args) in
      let kept : Linked (a p).1 = ground (arith, h) in
      then_lem Linked a (declare_shards env qs) p kept (λ r. declare-Linked qs (a p).1 kept)

  setup-Linked : (q : Bytes) → KeepsLinked (setup_retry_queue env q)
  unfolding has_channel IsConnected setup_retry_queue
  setup-Linked q p h = ground (arith, h)

  setup_each-Linked : (qs : List Bytes) → KeepsLinked (setup_each env qs)
  unfolding setup_each
  setup_each-Linked [] p h = h
  setup_each-Linked (q ∷ qs) p h =
      then_lem Linked (setup_retry_queue env q) (setup_each env qs) p (setup-Linked q p h)
        (λ r. setup_each-Linked qs (setup_retry_queue env q p).1 (setup-Linked q p h))

  setup_all-Linked : KeepsLinked (setup_retry_queues env shard_ring)
  unfolding has_channel IsConnected setup_retry_queues
  setup_all-Linked p h =
      let a =
        call_or_exit env
          (exchange_declare (bytes "retry_exchange") (bytes "direct") true false false false) in
      let kept : Linked (a p).1 = ground (arith, h) in
      then_lem Linked a (setup_each env shard_ring) p kept
        (λ r. setup_each-Linked shard_ring (a p).1 kept)

  pause-Linked : (ms : ℕ) → KeepsLinked (pause env ms)
  unfolding has_channel IsConnected
  pause-Linked ms p h = h

  inspect-Linked :
      (q : Bytes) (p : Process) → Linked p → Linked (record p { calls = queue_inspect q ∷ p.calls })
  unfolding has_channel IsConnected
  inspect-Linked q p h = ground (arith, h)

  tasks-Linked : All (λ q. (i : ℕ) → KeepsLinked (start_task env i q)) shard_ring
  tasks-Linked = (task-Linked _, (task-Linked _, (task-Linked _, (task-Linked _, tt))))

  pub start-Linked : (m : Machine) → KeepsLinked (start_gateway env m)
  unfolding start_gateway
  start-Linked m =
      keeps-sequence Linked
        (declare_shards env shard_ring
          ∷ setup_retry_queues env shard_ring
          ∷ pause env 100
          ∷ start_workers env m
          ∷ start_consumers env m
          ∷ [])
        (
          declare-Linked shard_ring,
          (
            setup_all-Linked,
            (
              pause-Linked 100,
              (
                keeps-start_workers env Linked pause-Linked inspect-Linked m tasks-Linked
                    (
                      resilient-Linked _,
                      (resilient-Linked _, (resilient-Linked _, (resilient-Linked _, tt))),
                    )
                    (retry-Linked _, (retry-Linked _, (retry-Linked _, (retry-Linked _, tt)))),
                (
                  keeps-start_consumers env Linked pause-Linked inspect-Linked m tasks-Linked
                      direct-Linked topic-Linked fanout-Linked headers-Linked dlq-Linked,
                  tt,
                ),
              ),
            ),
          ),
        )

  pub connect-Linked :
      (p : Process)
      → IsConnected env p.calls
      → IsConnected env (connect env p).1.calls
        × (IsReturn (connect env p).0 → has_channel env (connect env p).1.calls ≡ true)
  unfolding connect has_connection has_channel IsConnected
  connect-Linked p h = (ground (arith, h), λ r. ground (arith, h, r))

  pub connect-IsOrdered :
      (p : Process) → IsOrdered env p.calls → IsOrdered env (connect env p).1.calls
  unfolding connect IsOrdered
  connect-IsOrdered p h = ground (arith, h)
