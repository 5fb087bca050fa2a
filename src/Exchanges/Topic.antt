-- ===== src/Exchanges/Topic.antt =====
-- topic_exchange/: the producer and the consumer of the topic exchange.
use distributed_messaging_sy.Base.{true, false, Bytes, bytes, [], Option, ◌>>=◌, ◌>>◌}
use distributed_messaging_sy.Amqp.{Env, Error, Delivery, consume, exchange_declare, queue_bind}
use distributed_messaging_sy.Amqp.Process.{Act, call_or_exit, declare_unnamed_or_exit}
use distributed_messaging_sy.Exchanges.Plain.{task_message, declare_and_publish, succeed}

module _ (env : Env) where
  unfoldable pub publish_topic : Bytes → Bytes → Bytes → Bytes → Act (Option Error)
  publish_topic task routing_key reply_to corr_id =
      declare_and_publish env (bytes "topic_exchange_suyash") (bytes "topic") routing_key
        (task_message [] task reply_to corr_id)

  unfoldable pub start_topic_consumer : Bytes → Act (Unit {0})
  start_topic_consumer binding_key = do
    call_or_exit env
        (exchange_declare (bytes "topic_exchange_suyash") (bytes "topic") true false false false)
    name ← declare_unnamed_or_exit env
    call_or_exit env (queue_bind name binding_key (bytes "topic_exchange_suyash") false [])
    call_or_exit env (consume name [] false false false false)

  -- One round of `for d := range msgs`; the label is the binding key.
  unfoldable pub topic_step : Bytes → Delivery → Act (Unit {0})
  topic_step binding_key d = succeed env d binding_key
