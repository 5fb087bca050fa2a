-- ===== src/Exchanges/Plain.antt =====
-- What the four packages have in common: the message without headers that three producers publish,
-- and the round of a consumer that replies "success" and acknowledges.
use distributed_messaging_sy.Base.{true, false, Bytes, bytes, Option, none, some, pure, ◌>>=◌, ◌>>◌}
use distributed_messaging_sy.Amqp.{
  Env, Error, Table, Publishing, Delivery, status_only, publish, exchange_declare,
}
use distributed_messaging_sy.Amqp.Process.{Act, call, send_feedback, ack_counted}

abbrev pub task_message : Table → Bytes → Bytes → Bytes → Publishing
task_message headers task reply_to corr_id = record {
  headers = headers;
  persistent = false;
  content_type = bytes "text/plain";
  body = task;
  reply_to = reply_to;
  correlation_id = corr_id;
}

module _ (env : Env) where
  -- `ExchangeDeclare(name, kind, true, false, false, false, nil)`, then `Publish` with the mandatory
  -- flag; the first error is returned.
  abbrev pub declare_and_publish : Bytes → Bytes → Bytes → Publishing → Act (Option Error)
  declare_and_publish exchange kind key msg = do
    err ← call env (exchange_declare exchange kind true false false false)
    elim err [ some e ↦ pure (some e) | none ↦ call env (publish exchange key true false msg) ]

  -- One round: the reply under `if d.ReplyTo != ""`, then the counted acknowledgement
  abbrev pub succeed : Delivery → Bytes → Act (Unit {0})
  succeed d label = do send_feedback env d (status_only (bytes "success")); ack_counted env d label
