-- ===== src/Gateway/Consumer.antt =====
-- gateway/gateway_consumer.go: an earlier consumer, of a queue to which nothing publishes any more, whose
-- rounds only log; and gateway/rabbitmq_conn.go, the connection of earlier files.
use distributed_messaging_sy.Base.{true, false, bytes, [], ◌>>◌}
use distributed_messaging_sy.Amqp.{Env, queue_declare, consume}
use distributed_messaging_sy.Amqp.Process.{Act, call_or_exit}
use distributed_messaging_sy.Amqp.Connect.{connect}

-- `main`, up to its loop
unfoldable pub start_gateway_consumer : Env → Act (Unit {0})
start_gateway_consumer env = do
  connect env
  call_or_exit env (queue_declare (bytes "gateway_tasks") true false false false [])
  call_or_exit env (consume (bytes "gateway_tasks") [] true false false false)

-- `init` of rabbitmq_conn.go
unfoldable pub init_channel : Env → Act (Unit {0})
init_channel env = connect env
