-- ===== src/Gateway/Start/Serving.antt =====
-- gateway/server.go, `main`: the consumers of a gateway that has started.
use distributed_messaging_sy.Base.{
  ℕ, Bool, true, false, ◌+◌, ◌<◌, ◌≡◌, bytes_eq, Bytes, bytes, List, [], ◌∷◌, ◌++◌, All, map,
  returns, arith,
}
use distributed_messaging_sy.Amqp.{Env, Call}
use distributed_messaging_sy.Amqp.Process.{Process, Act, pause}
use distributed_messaging_sy.Amqp.Trace.{consumers}
use distributed_messaging_sy.DeadLetter.Queues.{retry_queue_of, resilient_queue_of}
use distributed_messaging_sy.DeadLetter.{setup_retry_queue, setup_each, setup_retry_queues}
use distributed_messaging_sy.DeadLetter.RetryChain.{accepting}
use distributed_messaging_sy.DeadLetter.DlqConsumer.{start_dlq_consumer}
use distributed_messaging_sy.WorkQueue.{shard_ring, start_auto_scaler}
use distributed_messaging_sy.Exchanges.Direct.{start_direct_consumer}
use distributed_messaging_sy.Exchanges.Topic.{start_topic_consumer}
use distributed_messaging_sy.Exchanges.Fanout.{start_fanout_consumer}
use distributed_messaging_sy.Exchanges.Headers.{start_headers_consumer}
use distributed_messaging_sy.Gateway.Start.{
  Machine, declare_shards, scaled_pause, start_each, start_workers, start_consumers, start_gateway,
}
use distributed_messaging_sy.Gateway.Start.Sequence.{
  start_task, start_resilient, start_retry, sequence,
}
use distributed_messaging_sy.Gateway.Start.Adding.{
  occurs, Adds, then-Adds, pause-Adds, scaled_pause-Adds, start_each-Adds, task-Adds,
  resilient-Adds, retry-Adds, dlq-Adds, plain-Adds,
}

-- The queues that the gateway serves under a name of its own
abbrev pub served_queues : List Bytes
served_queues =
    shard_ring
    ++ map resilient_queue_of shard_ring
    ++ map retry_queue_of shard_ring
    ++ bytes "dead_letter_queue" ∷ []

-- Each queue has a consumer more.
abbrev pub Served : List Bytes → List Call → List Call → Type 0
Served qs old new = All (λ q. consumers q old < consumers q new) qs

-- The sequences of steps
module _ (env : Env) (k : Bytes) where
  -- Steps, each with the number of consumers that it adds
  abbrev total : List (Act (Unit {0}) × ℕ) → ℕ
  total [] = 0
  total (s ∷ steps) = s.1 + total steps

  sequence-Adds :
      (steps : List (Act (Unit {0}) × ℕ))
      → All (λ s. (Adds env k) s.0 s.1) steps
      → (Adds env k) (sequence (map (λ s. s.0) steps)) (total steps)
  sequence-Adds [] each p = ground arith
  sequence-Adds (s ∷ []) (one, each) p = ground (arith, one p)
  sequence-Adds (s ∷ t ∷ steps) (one, each) p =
      (then-Adds env k) s.0 (sequence (map (λ s. s.0) (t ∷ steps))) s.1 (total (t ∷ steps)) one
        (sequence-Adds (t ∷ steps) each) p

  setup-Adds :
      (Adds env k) (declare_shards (accepting env) shard_ring) 0
      × (Adds env k) (setup_retry_queues (accepting env) shard_ring) 0
  unfolding declare_shards setup_retry_queues setup_each setup_retry_queue consumers
  setup-Adds = ((λ p. ground arith), (λ p. ground arith))

  start_auto_scaler-Adds : (opens : Bool) → opens ≡ true → (Adds env k) (start_auto_scaler opens) 0
  unfolding start_auto_scaler
  start_auto_scaler-Adds true h p = ground arith
  start_auto_scaler-Adds false h p = ground (arith, h)

  abbrev to_shards : ℕ
  to_shards =
      occurs k (map (λ q. q) shard_ring)
      + (occurs k (map resilient_queue_of shard_ring) + occurs k (map retry_queue_of shard_ring))

  start_workers-Adds :
      (m : Machine) → m.opens_log ≡ true → (Adds env k) (start_workers (accepting env) m) to_shards
  unfolding start_workers
  start_workers-Adds m opens p =
      let wait = scaled_pause (accepting env) m in
      let waits = (scaled_pause-Adds env k) m in
      let kept =
        sequence-Adds
          ((
            start_each (pause (accepting env) 100) (start_task (accepting env)) 0 shard_ring,
            occurs k (map (λ q. q) shard_ring),
          )
            ∷ (start_auto_scaler (m.opens_log), 0)
            ∷ (
              start_each wait (start_resilient (accepting env)) 0 shard_ring,
              occurs k (map resilient_queue_of shard_ring),
            )
            ∷ (
              start_each wait (start_retry (accepting env)) 0 shard_ring,
              occurs k (map retry_queue_of shard_ring),
            )
            ∷ [])
          (
            (start_each-Adds env k) (pause (accepting env) 100) (start_task (accepting env))
                (λ q. q) ((pause-Adds env k) 100) (task-Adds env k) 0 shard_ring,
            (
              start_auto_scaler-Adds (m.opens_log) opens,
              (
                (start_each-Adds env k) wait (start_resilient (accepting env)) resilient_queue_of
                    waits (resilient-Adds env k) 0 shard_ring,
                (
                  (start_each-Adds env k) wait (start_retry (accepting env)) retry_queue_of waits
                      (retry-Adds env k) 0 shard_ring,
                  tt,
                ),
              ),
            ),
          )
          p in
      (kept.0, omega (arith, kept.1))

  start_consumers-Adds :
      (m : Machine)
      → (Adds env k) (start_consumers (accepting env) m) (occurs k (bytes "dead_letter_queue" ∷ []))
  unfolding start_consumers
  start_consumers-Adds m p =
      let waits = (scaled_pause-Adds env k) m in
      let wait : Act (Unit {0}) × ℕ = (scaled_pause (accepting env) m, 0) in
      let (direct, topic, fanout, headers) = (plain-Adds env k) in
      let kept =
        sequence-Adds
          ((start_direct_consumer (accepting env) (bytes "info"), 0)
            ∷ wait
            ∷ (start_topic_consumer (accepting env) (bytes "app.*"), 0)
            ∷ wait
            ∷ (start_fanout_consumer (accepting env), 0)
            ∷ wait
            ∷ (start_headers_consumer (accepting env), 0)
            ∷ wait
            ∷ (start_dlq_consumer (accepting env), occurs k (bytes "dead_letter_queue" ∷ []))
            ∷ wait
            ∷ [])
          (
            direct,
            (
              waits,
              (
                topic,
                (waits, (fanout, (waits, (headers, (waits, ((dlq-Adds env k), (waits, tt))))))),
              ),
            ),
          )
          p in
      (kept.0, omega (arith, kept.1))

  start_gateway-Adds :
      (m : Machine)
      → m.opens_log ≡ true
      → (Adds env k)
          (start_gateway (accepting env) m)
          (to_shards + occurs k (bytes "dead_letter_queue" ∷ []))
  unfolding start_gateway
  start_gateway-Adds m opens p =
      let (declared, set) = setup-Adds in
      let kept =
        sequence-Adds
          ((declare_shards (accepting env) shard_ring, 0)
            ∷ (setup_retry_queues (accepting env) shard_ring, 0)
            ∷ (pause (accepting env) 100, 0)
            ∷ (start_workers (accepting env) m, to_shards)
            ∷ (start_consumers (accepting env) m, occurs k (bytes "dead_letter_queue" ∷ []))
            ∷ [])
          (
            declared,
            (
              set,
              ((pause-Adds env k) 100, (start_workers-Adds m opens, (start_consumers-Adds m, tt))),
            ),
          )
          p in
      (kept.0, omega (arith, kept.1))

-- Under a broker that takes every call, on a machine that opens the log of the auto-scaler, the start
-- comes to its end: then the queue of each shard, its resilient queue, its queue for retries and the
-- queue of dead letters have at least one consumer more than before.
pub start_gateway-Served :
    (env : Env) (m : Machine) (p : Process)
    → m.opens_log ≡ true
    → let r = start_gateway (accepting env) m p in
      (r.0 ≡ returns tt) × Served served_queues p.calls r.1.calls
unfolding bytes bytes_eq resilient_queue_of retry_queue_of
start_gateway-Served env m p opens =
    let r = start_gateway (accepting env) m p in
    let more : (k : Bytes)
        → 0 < to_shards env k + occurs k (bytes "dead_letter_queue" ∷ [])
        → consumers k p.calls < consumers k r.1.calls =
      λ k h. omega (arith, h, (start_gateway-Adds env k m opens p).1) in
    (
      (start_gateway-Adds env [] m opens p).0,
      (
        more _ (omega arith),
        (
          more _ (omega arith),
          (
            more _ (omega arith),
            (
              more _ (omega arith),
              (
                more _ (omega arith),
                (
                  more _ (omega arith),
                  (
                    more _ (omega arith),
                    (
                      more _ (omega arith),
                      (
                        more _ (omega arith),
                        (
                          more _ (omega arith),
                          (
                            more _ (omega arith),
                            (more _ (omega arith), (more _ (omega arith), tt)),
                          ),
                        ),
                      ),
                    ),
                  ),
                ),
              ),
            ),
          ),
        ),
      ),
    )
