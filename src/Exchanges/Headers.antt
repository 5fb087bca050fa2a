-- ===== src/Exchanges/Headers.antt =====
-- headers_exchange/: the producer and the consumer of the headers exchange.
use distributed_messaging_sy.Base.{
  true, false, Bytes, bytes, [], ◌∷◌, Option, none, some, panic, pure, ◌>>=◌, ◌>>◌,
}
use distributed_messaging_sy.Amqp.{
  Env, Error, Table, text, malformed, nil_map, decoded, get, Delivery, consume, exchange_declare,
  queue_bind,
}
use distributed_messaging_sy.Amqp.Process.{Act, call_or_exit, declare_unnamed_or_exit}
use distributed_messaging_sy.Exchanges.Plain.{task_message, declare_and_publish, succeed}

-- `if _, ok := headers["x-match"]; !ok { headers["x-match"] = "all" }` on a map that is not nil
unfoldable pub with_match : Table → Table
with_match headers = elim (get (bytes "x-match") headers) [
  | some _ ↦ headers
  | none ↦ (bytes "x-match", text (bytes "all")) ∷ headers
]

unfoldable pub binding_headers : Table
binding_headers = (bytes "x-match", text (bytes "any")) ∷ (bytes "env", text (bytes "prod")) ∷ []

module _ (env : Env) where
  -- The test reads a nil map, which has no key; the write to it then panics.
  unfoldable pub publish_headers : Bytes → Bytes → Bytes → Bytes → Act (Option Error)
  unfolding with_match
  publish_headers task headers_json reply_to corr_id = elim (env.unmarshal_table headers_json) [
    | malformed e ↦ pure (some e)
    | nil_map ↦ panic
    | decoded headers ↦
        declare_and_publish env (bytes "headers_logs") (bytes "headers") []
          (task_message (with_match headers) task reply_to corr_id)
  ]

  unfoldable pub start_headers_consumer : Act (Unit {0})
  start_headers_consumer = do
    call_or_exit env
        (exchange_declare (bytes "headers_logs") (bytes "headers") true false false false)
    name ← declare_unnamed_or_exit env
    call_or_exit env (queue_bind name [] (bytes "headers_logs") false binding_headers)
    call_or_exit env (consume name [] false false false false)

  -- One round of `for d := range msgs`
  unfoldable pub headers_step : Delivery → Act (Unit {0})
  headers_step d = succeed env d (bytes "headers")
