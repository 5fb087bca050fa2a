-- ===== src/Gateway/Start.antt =====
-- gateway/server.go, `main`: the declarations of the gateway and the start of its workers, once
-- there is a channel. A goroutine that is started before a pause is taken to come to the end of
-- its start in the pause; the rounds that the auto-scaler, once it is started, makes beside the rest
-- are taken to fall into the pauses.
pub mod Sequence
pub mod Order
pub mod Declaring
pub mod Ordered
pub mod Adding
pub mod Serving
pub mod Connecting
pub mod Main
use distributed_messaging_sy.Base.{
  ℕ, ◌+◌, Bool, true, false, gets, Bytes, bytes, List, [], ◌∷◌, Option, none, some, pure, ◌>>=◌,
  ◌>>◌, ◌++◌, decimal,
}
use distributed_messaging_sy.Amqp.{Env, Call, queue_declare}
use distributed_messaging_sy.Amqp.Process.{Act, call_or_exit, pause}
use distributed_messaging_sy.DeadLetter.Queues.{quorum_args, retry_queue_of, resilient_queue_of}
use distributed_messaging_sy.DeadLetter.{setup_retry_queues}
use distributed_messaging_sy.DeadLetter.RetryWorker.{start_delay_retry_worker}
use distributed_messaging_sy.DeadLetter.ResilientWorker.{start_resilient_worker}
use distributed_messaging_sy.DeadLetter.DlqConsumer.{start_dlq_consumer}
use distributed_messaging_sy.WorkQueue.{
  shard_ring, start_task_queue_worker, start_auto_scaler, auto_scaler,
}
use distributed_messaging_sy.Exchanges.Direct.{start_direct_consumer}
use distributed_messaging_sy.Exchanges.Topic.{start_topic_consumer}
use distributed_messaging_sy.Exchanges.Fanout.{start_fanout_consumer}
use distributed_messaging_sy.Exchanges.Headers.{start_headers_consumer}

-- What the start needs beside the broker: whether `os.OpenFile` opens the log of the auto-scaler, and
-- how many rounds of the auto-scaler fall into the pause that comes after some calls.
pub record Machine : Type 0 where
  pub opens_log : Bool
  pub scaler_rounds : List Call → ℕ

-- `for i, q := range shardRing { go f(q, …); … }`, with the pause, from an index on
unfoldable pub start_each :
    Act (Unit {0}) → (ℕ → Bytes → Act (Unit {0})) → ℕ → List Bytes → Act (Unit {0})
start_each wait f i [] = pure tt
start_each wait f i (q ∷ qs) = do f i q; wait; start_each wait f (i + 1) qs

module _ (env : Env) where
  unfoldable pub declare_shards : List Bytes → Act (Unit {0})
  declare_shards [] = pure tt
  declare_shards (q ∷ qs) = do
    call_or_exit env (queue_declare q true false false false quorum_args)
    declare_shards qs

module _ (env : Env) (machine : Machine) where
  -- `time.Sleep(100 * time.Millisecond)` with the rounds of the auto-scaler in it
  unfoldable pub scaled_pause : Act (Unit {0})
  scaled_pause = do
    pause env 100
    n ← gets (λ p. machine.scaler_rounds p.calls)
    auto_scaler env 1000 5 2 n

  -- The workers of the shards; a task worker starts alike under any name.
  unfoldable pub start_workers : Act (Unit {0})
  start_workers = do
    start_each (pause env 100) (λ i q. start_task_queue_worker env q) 0 shard_ring
    start_auto_scaler machine.opens_log
    start_each scaled_pause
        (λ i q.
          start_resilient_worker env (bytes "shard-resilient-" ++ decimal i) (resilient_queue_of q))
        0 shard_ring
    start_each scaled_pause
        (λ i q. start_delay_retry_worker env (retry_queue_of q) (bytes "shard-delay-" ++ decimal i))
        0 shard_ring

  -- The other consumers
  unfoldable pub start_consumers : Act (Unit {0})
  start_consumers = do
    start_direct_consumer env (bytes "info")
    scaled_pause
    start_topic_consumer env (bytes "app.*")
    scaled_pause
    start_fanout_consumer env
    scaled_pause
    start_headers_consumer env
    scaled_pause
    start_dlq_consumer env
    scaled_pause

  unfoldable pub start_gateway : Act (Unit {0})
  start_gateway = do
    declare_shards env shard_ring
    setup_retry_queues env shard_ring
    pause env 100
    start_workers
    start_consumers
