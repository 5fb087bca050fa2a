-- ===== src/DeadLetter/ResilientWorker.antt =====
-- dead_letter_queues/dlq_worker.go: the worker that consumes a resilient queue.
use distributed_messaging_sy.Base.{
  Bool, true, false, ◌||◌, if◌then◌else◌, Bytes, bytes, List, [], ◌∷◌, Option, none, some, gets,
  pure, ◌>>=◌, ◌>>◌,
}
use distributed_messaging_sy.Amqp.{
  Env, Table, Value, Delivery, get, ack, nack, consume, queue_declare,
}
use distributed_messaging_sy.Amqp.Process.{
  Act, call_or_exit, call_ignored, send_feedback, count_ack,
}
use distributed_messaging_sy.DeadLetter.Queues.{quorum_args}

-- `d.Headers["x-force-fail"].(bool)`, with false where the key or the type is another
abbrev pub as_bool : Option Value → Bool
as_bool (some (Value.bool b)) = b
as_bool _ = false

unfoldable pub force_fail : Table → Bool
force_fail headers = as_bool (get (bytes "x-force-fail") headers)

module _ (env : Env) (worker_id : Bytes) where
  unfoldable pub reject : Delivery → Act (Unit {0})
  reject d = do
    send_feedback env d (record {
      status = bytes "dlq";
      attempt = none;
      worker = some worker_id;
      reason = some (bytes "forced failure");
    })
    call_ignored env (nack d.tag false false)

  unfoldable pub succeed : Delivery → Act (Unit {0})
  succeed d = do
    send_feedback env d (record {
      status = bytes "success";
      attempt = none;
      worker = some worker_id;
      reason = none;
    })
    count_ack env worker_id
    call_ignored env (ack d.tag false)

  -- One round of `for d := range msgs`
  unfoldable pub resilient_step : Delivery → Act (Unit {0})
  unfolding reject succeed
  resilient_step d = do
    should_fail ← gets (λ p. force_fail d.headers || env.coin p.calls)
    if should_fail then reject d else succeed d

  unfoldable pub resilient_loop : List Delivery → Act (Unit {0})
  resilient_loop [] = pure tt
  resilient_loop (d ∷ ds) = do resilient_step d; resilient_loop ds

  unfoldable pub start_resilient_worker : Bytes → Act (Unit {0})
  start_resilient_worker queue_name = do
    call_or_exit env (queue_declare queue_name true false false false quorum_args)
    call_or_exit env (consume queue_name [] false false false false)
