-- ===== src/DeadLetter/DlqConsumer.antt =====
-- dead_letter_queues/dlq_consumer.go: the consumer of the dead-letter queue.
use distributed_messaging_sy.Base.{◌+◌, true, false, bytes, List, [], ◌∷◌, pure, ◌>>◌}
use distributed_messaging_sy.Amqp.{
  Env, Delivery, status_only, ack, consume, exchange_declare, queue_declare, queue_bind,
}
use distributed_messaging_sy.Amqp.Process.{
  Act, call_or_exit, call_ignored, send_feedback, count_ack, record_metrics,
}

module _ (env : Env) where
  unfoldable pub start_dlq_consumer : Act (Unit {0})
  start_dlq_consumer = do
    call_or_exit env
        (exchange_declare (bytes "dlx_exchange") (bytes "direct") true false false false)
    call_or_exit env (queue_declare (bytes "dead_letter_queue") true false false false [])
    call_or_exit env
        (queue_bind (bytes "dead_letter_queue") (bytes "dead_task") (bytes "dlx_exchange") false [])
    call_or_exit env (consume (bytes "dead_letter_queue") [] false false false false)
    record_metrics (λ m. record m { dlq_messages = m.dlq_messages + 1 })

  -- One round of `for d := range msgs`
  unfoldable pub dlq_step : Delivery → Act (Unit {0})
  dlq_step d = do
    send_feedback env d (status_only (bytes "dlq"))
    count_ack env (bytes "dlq")
    call_ignored env (ack d.tag false)

  unfoldable pub dlq_loop : List Delivery → Act (Unit {0})
  dlq_loop [] = pure tt
  dlq_loop (d ∷ ds) = do dlq_step d; dlq_loop ds
