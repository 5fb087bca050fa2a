-- ===== src/Exchanges/Fanout.antt =====
-- pubsub/: the producer and the consumer of the fanout exchange.
use distributed_messaging_sy.Base.{
  ◌+◌, true, false, Bytes, bytes, [], Option, none, some, pure, ◌>>=◌, ◌>>◌,
}
use distributed_messaging_sy.Amqp.{Env, Error, Delivery, consume, exchange_declare, queue_bind}
use distributed_messaging_sy.Amqp.Process.{
  Act, call_or_exit, declare_unnamed_or_exit, record_metrics,
}
use distributed_messaging_sy.Exchanges.Plain.{task_message, declare_and_publish, succeed}

module _ (env : Env) where
  unfoldable pub publish_fanout : Bytes → Bytes → Bytes → Act (Option Error)
  publish_fanout task reply_to corr_id = do
    err ←
        declare_and_publish env (bytes "logs") (bytes "fanout") []
          (task_message [] task reply_to corr_id)
    elim err [
      | some e ↦ pure (some e)
      | none ↦ do
        record_metrics (λ m. record m { msgs_published = m.msgs_published + 1 })
        pure none
    ]

  unfoldable pub start_fanout_consumer : Act (Unit {0})
  start_fanout_consumer = do
    call_or_exit env (exchange_declare (bytes "logs") (bytes "fanout") true false false false)
    name ← declare_unnamed_or_exit env
    call_or_exit env (queue_bind name [] (bytes "logs") false [])
    call_or_exit env (consume name [] false false false false)

  -- One round of `for d := range msgs`; the label is that of the direct exchange.
  unfoldable pub fanout_step : Delivery → Act (Unit {0})
  fanout_step d = succeed env d (bytes "direct")
