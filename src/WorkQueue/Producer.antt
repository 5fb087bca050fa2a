-- ===== src/WorkQueue/Producer.antt =====
-- work_queue_model/producer.go.
use distributed_messaging_sy.Base.{
  true, false, Bytes, bytes, [], ◌∷◌, Option, none, some, pure, ◌>>=◌,
}
use distributed_messaging_sy.Amqp.{Env, Error, Table, text, publish, queue_declare}
use distributed_messaging_sy.Amqp.Process.{Act, call}

-- The same entries as `quorum_args`, in the order of this file
abbrev resilient_args : Table
resilient_args =
    (bytes "x-dead-letter-exchange", text (bytes "dlx_exchange"))
    ∷ (bytes "x-dead-letter-routing-key", text (bytes "dead_task"))
    ∷ (bytes "x-queue-type", text (bytes "quorum"))
    ∷ []

unfoldable pub publish_to_resilient_queue : Env → Bytes → Act (Option Error)
publish_to_resilient_queue env task = do
  err ← call env (queue_declare (bytes "resilient_queue") true false false false resilient_args)
  elim err [
    | some e ↦ pure (some e)
    | none ↦ call env (
        publish [] (bytes "resilient_queue") false false (record {
          headers = [];
          persistent = false;
          content_type = bytes "text/plain";
          body = task;
          reply_to = [];
          correlation_id = [];
        }))
  ]
