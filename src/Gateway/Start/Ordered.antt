-- ===== src/Gateway/Start/Ordered.antt =====
-- gateway/server.go, `main`: nothing is consumed or bound before it is declared.
use distributed_messaging_sy.Base.{
  ℕ, ◌∷◌, ◌≡◌, refl, true, false, is_empty, Bytes, bytes, ◌++◌, ◌>>◌, decimal,
}
use distributed_messaging_sy.Amqp.{Env, queue_inspect}
use distributed_messaging_sy.Amqp.Process.{Process, Act, pause}
use distributed_messaging_sy.DeadLetter.Queues.{retry_queue_of, resilient_queue_of}
use distributed_messaging_sy.DeadLetter.{setup_retry_queues}
use distributed_messaging_sy.DeadLetter.ResilientWorker.{start_resilient_worker}
use distributed_messaging_sy.WorkQueue.{shard_ring, start_task_queue_worker}
use distributed_messaging_sy.Gateway.Start.{
  Machine, declare_shards, start_workers, start_consumers, start_gateway,
}
use distributed_messaging_sy.Gateway.Start.Order.{
  has_queue, IsOrdered, Grows, task-Grows, resilient-Grows, retry-Grows, dlq-Grows, direct-Grows,
  topic-Grows, fanout-Grows, headers-Grows,
}
use distributed_messaging_sy.Gateway.Start.Sequence.{
  then_lem, start_resilient, start_retry, keeps-start_workers, keeps-start_consumers,
}
use distributed_messaging_sy.Gateway.Start.Declaring.{
  declare-IsOrdered, AllDeclared, all-Grows, setup-Sets,
}

module _ (env : Env) where
  -- What holds between the steps of the start, once the queues for retries are declared
  abbrev Stands : Process → Type 0
  Stands p = IsOrdered env p.calls × AllDeclared env shard_ring p

  Grows-Stands : (a : Act (Unit {0})) (p : Process) → Grows env a p → Stands p → Stands (a p).1
  Grows-Stands a p (o, g) (h, all) = (o, all-Grows env shard_ring p (a p).1 g all)

  task-Stands :
      (q : Bytes)
      → is_empty q ≡ false
      → (i : ℕ) (p : Process) → Stands p
      → Stands (start_task_queue_worker env q p).1
  task-Stands q n i p h =
      Grows-Stands (start_task_queue_worker env q) p (task-Grows env q p n h.0) h

  resilient-Stands :
      (q : Bytes) (i : ℕ) (p : Process) → Stands p → Stands (start_resilient env i q p).1
  unfolding resilient_queue_of bytes
  resilient-Stands q i p h =
      let id = bytes "shard-resilient-" ++ decimal i in
      Grows-Stands (start_resilient_worker env id (resilient_queue_of q)) p
        (resilient-Grows env id (resilient_queue_of q) p refl h.0) h

  retry-Stands :
      (q : Bytes)
      → ((p : Process) → Stands p → has_queue env (retry_queue_of q) p.calls ≡ true)
      → (i : ℕ) (p : Process) → Stands p
      → Stands (start_retry env i q p).1
  retry-Stands q d i p h =
      Grows-Stands (start_retry env i q) p
        (retry-Grows env (bytes "shard-delay-" ++ decimal i) (retry_queue_of q) p (d p h) h.0) h

  pause-Stands : (ms : ℕ) (p : Process) → Stands p → Stands (pause env ms p).1
  unfolding IsOrdered has_queue
  pause-Stands ms p h = h

  inspect-Stands :
      (q : Bytes) (p : Process) → Stands p → Stands (record p { calls = queue_inspect q ∷ p.calls })
  unfolding IsOrdered has_queue
  inspect-Stands q p h = h

  workers-Stands : (m : Machine) (p : Process) → Stands p → Stands (start_workers env m p).1
  unfolding bytes
  workers-Stands m =
      keeps-start_workers env Stands pause-Stands inspect-Stands m
        (task-Stands _ refl, (task-Stands _ refl, (task-Stands _ refl, (task-Stands _ refl, tt))))
        (resilient-Stands _, (resilient-Stands _, (resilient-Stands _, (resilient-Stands _, tt))))
        (
          retry-Stands _ (λ p h. h.1.0),
          (
            retry-Stands _ (λ p h. h.1.1.0),
            (retry-Stands _ (λ p h. h.1.1.1.0), (retry-Stands _ (λ p h. h.1.1.1.1.0), tt)),
          ),
        )

  task-IsOrdered :
      (q : Bytes)
      → is_empty q ≡ false
      → (i : ℕ) (p : Process) → IsOrdered env p.calls
      → IsOrdered env (start_task_queue_worker env q p).1.calls
  task-IsOrdered q n i p h = (task-Grows env q p n h).0

  consumers-IsOrdered :
      (m : Machine) (p : Process)
      → IsOrdered env p.calls
      → IsOrdered env (start_consumers env m p).1.calls
  unfolding IsOrdered bytes
  consumers-IsOrdered m =
      keeps-start_consumers env (λ p. IsOrdered env p.calls) (λ ms p h. h) (λ q p h. h) m
        (
          task-IsOrdered _ refl,
          (task-IsOrdered _ refl, (task-IsOrdered _ refl, (task-IsOrdered _ refl, tt))),
        )
        (λ p h. (direct-Grows env (bytes "info") p h).0)
        (λ p h. (topic-Grows env (bytes "app.*") p h).0) (λ p h. (fanout-Grows env p h).0)
        (λ p h. (headers-Grows env p h).0) (λ p h. (dlq-Grows env p h).0)

  rest-IsOrdered :
      (m : Machine) (p : Process)
      → Stands p
      → IsOrdered env ((pause env 100 >> (start_workers env m >> start_consumers env m)) p).1.calls
  unfolding IsOrdered has_queue
  rest-IsOrdered m p h =
      let p₁ = (pause env 100 p).1 in
      let h₁ = workers-Stands m p₁ h in
      then_lem (λ p. IsOrdered env p.calls) (start_workers env m) (start_consumers env m) p₁ h₁.0
        (λ r. consumers-IsOrdered m (start_workers env m p₁).1 h₁.0)

-- Whatever the broker answers, and if an error ends the start early or not: the gateway consumes from
-- a queue, and binds a queue to an exchange, only after it has declared them without an error.
pub start_gateway-IsOrdered :
    (env : Env) (m : Machine) (p : Process)
    → IsOrdered env p.calls
    → IsOrdered env (start_gateway env m p).1.calls
unfolding start_gateway IsOrdered
start_gateway-IsOrdered env m p h =
    let ring = shard_ring in
    let rest = pause env 100 >> (start_workers env m >> start_consumers env m) in
    then_lem (λ p. IsOrdered env p.calls) (declare_shards env ring)
      (setup_retry_queues env ring >> rest) p (declare-IsOrdered env ring p h)
      (λ r.
        let p₁ = (declare_shards env ring p).1 in
        let set = setup-Sets env ring p₁ (declare-IsOrdered env ring p h) in
        then_lem (λ p. IsOrdered env p.calls) (setup_retry_queues env ring) rest p₁ set.0
          (λ back. rest-IsOrdered env m (setup_retry_queues env ring p₁).1 (set.0, set.1 back)))
