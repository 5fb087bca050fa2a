-- ===== src/Exchanges/Direct.antt =====
-- direct_exchange/: the producer and the consumer of the direct exchange.
use distributed_messaging_sy.Base.{true, false, Bytes, bytes, [], Option, ◌>>=◌, ◌>>◌}
use distributed_messaging_sy.Amqp.{Env, Error, Delivery, consume, exchange_declare, queue_bind}
use distributed_messaging_sy.Amqp.Process.{Act, call_or_exit, declare_unnamed_or_exit}
use distributed_messaging_sy.Exchanges.Plain.{task_message, declare_and_publish, succeed}

module _ (env : Env) where
  unfoldable pub publish_direct : Bytes → Bytes → Bytes → Bytes → Act (Option Error)
  publish_direct task routing_key reply_to corr_id =
      declare_and_publish env (bytes "direct_logs") (bytes "direct") routing_key
        (task_message [] task reply_to corr_id)

  unfoldable pub start_direct_consumer : Bytes → Act (Unit {0})
  start_direct_consumer routing_key = do
    call_or_exit env
        (exchange_declare (bytes "direct_logs") (bytes "direct") true false false false)
    name ← declare_unnamed_or_exit env
    call_or_exit env (queue_bind name routing_key (bytes "direct_logs") false [])
    call_or_exit env (consume name [] false false false false)

  -- One round of `for d := range msgs`
  unfoldable pub direct_step : Delivery → Act (Unit {0})
  direct_step d = succeed env d (bytes "direct")
