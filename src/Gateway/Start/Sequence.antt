-- ===== src/Gateway/Start/Sequence.antt =====
-- gateway/server.go, `main`: what each step of the start keeps, the start keeps.
use distributed_messaging_sy.Base.{
  ℕ, zero, suc, Bool, true, false, arith, pure, ◌+◌, Bytes, bytes, List, [], ◌∷◌, ◌++◌, All,
  Outcome, returns, exits, panics, IsReturn, ◌>>◌, decimal,
}
use distributed_messaging_sy.Amqp.{Env, queue_inspect}
use distributed_messaging_sy.Amqp.Process.{Process, Act, pause}
use distributed_messaging_sy.DeadLetter.Queues.{retry_queue_of, resilient_queue_of}
use distributed_messaging_sy.DeadLetter.RetryWorker.{start_delay_retry_worker}
use distributed_messaging_sy.DeadLetter.ResilientWorker.{start_resilient_worker}
use distributed_messaging_sy.DeadLetter.DlqConsumer.{start_dlq_consumer}
use distributed_messaging_sy.WorkQueue.{
  shard_ring, start_task_queue_worker, spawn, scale_queue, scale_queues, scale_round, auto_scaler,
  start_auto_scaler,
}
use distributed_messaging_sy.Exchanges.Direct.{start_direct_consumer}
use distributed_messaging_sy.Exchanges.Topic.{start_topic_consumer}
use distributed_messaging_sy.Exchanges.Fanout.{start_fanout_consumer}
use distributed_messaging_sy.Exchanges.Headers.{start_headers_consumer}
use distributed_messaging_sy.Gateway.Start.{
  Machine, scaled_pause, start_each, start_workers, start_consumers,
}

-- A property of a state passes a step and what follows it.
pub then_lem :
    {B : Type 0} (P : Process → Type 0) (a : Act (Unit {0})) (b : Act B) (p : Process)
    → P (a p).1
    → (IsReturn (a p).0 → P (b (a p).1).1)
    → P ((a >> b) p).1
then_lem P a b p = split (a p)
  where
    split :
        (r : Outcome (Unit {0}) × Process)
        → P r.1
        → (IsReturn r.0 → P (b r.1).1)
        → P (((λ _. r) >> b) p).1
    split (returns _, s) h k = k tt
    split (exits, s) h k = h
    split (panics, s) h k = h

-- Steps one after the other
abbrev pub sequence : List (Act (Unit {0})) → Act (Unit {0})
sequence [] = pure tt
sequence (a ∷ []) = a
sequence (a ∷ b ∷ steps) = a >> sequence (b ∷ steps)

-- What each step keeps, the sequence keeps.
pub keeps-sequence :
    (P : Process → Type 0) (steps : List (Act (Unit {0})))
    → All (λ a. (p : Process) → P p → P (a p).1) steps
    → (p : Process) → P p
    → P (sequence steps p).1
keeps-sequence P [] each p h = h
keeps-sequence P (a ∷ []) (keep, each) p h = keep p h
keeps-sequence P (a ∷ b ∷ steps) (keep, each) p h =
    then_lem P a (sequence (b ∷ steps)) p (keep p h)
      (λ r. keeps-sequence P (b ∷ steps) each (a p).1 (keep p h))

module _ (env : Env) where
  abbrev pub start_task : ℕ → Bytes → Act (Unit {0})
  start_task i q = start_task_queue_worker env q

  abbrev pub start_resilient : ℕ → Bytes → Act (Unit {0})
  start_resilient i q =
      start_resilient_worker env (bytes "shard-resilient-" ++ decimal i) (resilient_queue_of q)

  abbrev pub start_retry : ℕ → Bytes → Act (Unit {0})
  start_retry i q =
      start_delay_retry_worker env (retry_queue_of q) (bytes "shard-delay-" ++ decimal i)

  -- The steps under any log and any rounds of the auto-scaler keep a property that pauses and the
  -- inspection of a queue keep.
  module _ (P : Process → Type 0) (paused : (ms : ℕ) (p : Process) → P p → P (pause env ms p).1)
      (inspected : (q : Bytes) (p : Process)
        → P p
        → P (record p { calls = queue_inspect q ∷ p.calls })) where
    abbrev pub Kept : Act (Unit {0}) → Type 0
    Kept a = (p : Process) → P p → P (a p).1

    abbrev pub KeptEach : (ℕ → Bytes → Act (Unit {0})) → List Bytes → Type 0
    KeptEach f qs = All (λ q. (i : ℕ) → Kept (f i q)) qs

    keeps-spawn : (n : ℕ) (q : Bytes) → Kept (start_task_queue_worker env q) → Kept (spawn env n q)
    unfolding spawn
    keeps-spawn zero q one p h = h
    keeps-spawn (suc n) q one p h =
        then_lem P (start_task_queue_worker env q) (spawn env n q) p (one p h)
          (λ r. keeps-spawn n q one (start_task_queue_worker env q p).1 (one p h))

    keeps-scale_queue :
        (threshold burst : ℕ) (q : Bytes)
        → Kept (start_task_queue_worker env q)
        → Kept (scale_queue env threshold burst q)
    unfolding scale_queue
    keeps-scale_queue threshold burst q one p h =
        let h' = inspected q p h in
        let p' = record p { calls = queue_inspect q ∷ p.calls } in
        ground (arith, h', keeps-spawn burst q one p' h')

    keeps-scale_queues :
        (threshold burst : ℕ) (qs : List Bytes)
        → KeptEach start_task qs
        → Kept (scale_queues env threshold burst qs)
    unfolding scale_queues
    keeps-scale_queues threshold burst [] each p h = h
    keeps-scale_queues threshold burst (q ∷ qs) (one, each) p h =
        let a = scale_queue env threshold burst q in
        let h' = keeps-scale_queue threshold burst q (one 0) p h in
        then_lem P a (scale_queues env threshold burst qs) p h'
          (λ r. keeps-scale_queues threshold burst qs each (a p).1 h')

    keeps-scale_round :
        (interval threshold burst : ℕ)
        → KeptEach start_task shard_ring
        → Kept (scale_round env interval threshold burst)
    unfolding scale_round
    keeps-scale_round interval threshold burst tasks p h =
        keeps-scale_queues threshold burst shard_ring tasks (pause env interval p).1
          (paused interval p h)

    pub keeps-auto_scaler :
        (interval threshold burst n : ℕ)
        → KeptEach start_task shard_ring
        → Kept (auto_scaler env interval threshold burst n)
    unfolding auto_scaler
    keeps-auto_scaler interval threshold burst zero tasks p h = h
    keeps-auto_scaler interval threshold burst (suc n) tasks p h =
        let a = scale_round env interval threshold burst in
        let h' = keeps-scale_round interval threshold burst tasks p h in
        then_lem P a (auto_scaler env interval threshold burst n) p h'
          (λ r. keeps-auto_scaler interval threshold burst n tasks (a p).1 h')

    keeps-start_auto_scaler : (opens : Bool) → Kept (start_auto_scaler opens)
    unfolding start_auto_scaler
    keeps-start_auto_scaler true p h = h
    keeps-start_auto_scaler false p h = h

    keeps-start_each :
        (wait : Act (Unit {0})) (f : ℕ → Bytes → Act (Unit {0})) (qs : List Bytes)
        → Kept wait
        → KeptEach f qs
        → (i : ℕ) → Kept (start_each wait f i qs)
    unfolding start_each
    keeps-start_each wait f [] waits each i p h = h
    keeps-start_each wait f (q ∷ qs) waits (one, each) i p h =
        then_lem P (f i q) (wait >> start_each wait f (i + 1) qs) p (one i p h) (λ r.
          let p' = (f i q p).1 in
          let h' = waits p' (one i p h) in
          then_lem P wait (start_each wait f (i + 1) qs) p' h'
            (λ r. keeps-start_each wait f qs waits each (i + 1) (wait p').1 h'))

    module _ (machine : Machine) (tasks : KeptEach start_task shard_ring) where
      keeps-scaled_pause : Kept (scaled_pause env machine)
      unfolding scaled_pause
      keeps-scaled_pause p h =
          let p' = (pause env 100 p).1 in
          keeps-auto_scaler 1000 5 2 (machine.scaler_rounds p'.calls) tasks p' (paused 100 p h)

      pub keeps-start_workers :
          KeptEach start_resilient shard_ring
          → KeptEach start_retry shard_ring
          → Kept (start_workers env machine)
      unfolding start_workers
      keeps-start_workers resilient retries =
          let wait = scaled_pause env machine in
          keeps-sequence P
            (start_each (pause env 100) start_task 0 shard_ring
              ∷ start_auto_scaler (machine.opens_log)
              ∷ start_each wait start_resilient 0 shard_ring
              ∷ start_each wait start_retry 0 shard_ring
              ∷ [])
            (
              keeps-start_each (pause env 100) start_task shard_ring (paused 100) tasks 0,
              (
                keeps-start_auto_scaler (machine.opens_log),
                (
                  keeps-start_each wait start_resilient shard_ring keeps-scaled_pause resilient 0,
                  (keeps-start_each wait start_retry shard_ring keeps-scaled_pause retries 0, tt),
                ),
              ),
            )

      pub keeps-start_consumers :
          Kept (start_direct_consumer env (bytes "info"))
          → Kept (start_topic_consumer env (bytes "app.*"))
          → Kept (start_fanout_consumer env)
          → Kept (start_headers_consumer env)
          → Kept (start_dlq_consumer env)
          → Kept (start_consumers env machine)
      unfolding start_consumers
      keeps-start_consumers direct topic fanout headers dlq =
          let wait = scaled_pause env machine in
          let waits = keeps-scaled_pause in
          keeps-sequence P
            (start_direct_consumer env (bytes "info")
              ∷ wait
              ∷ start_topic_consumer env (bytes "app.*")
              ∷ wait
              ∷ start_fanout_consumer env
              ∷ wait
              ∷ start_headers_consumer env
              ∷ wait
              ∷ start_dlq_consumer env
              ∷ wait
              ∷ [])
            (
              direct,
              (waits, (topic, (waits, (fanout, (waits, (headers, (waits, (dlq, (waits, tt))))))))),
            )
