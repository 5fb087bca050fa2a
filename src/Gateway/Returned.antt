-- ===== src/Gateway/Returned.antt =====
-- gateway/server.go: the handler of messages that the broker returns as unroutable.
use distributed_messaging_sy.Base.{
  ◌+◌, ◌^◌, ◌%◌, false, is_empty, if◌then◌else◌, Bytes, bytes, List, [], ◌∷◌, pure, gets, modify,
  ◌>>=◌, ◌>>◌,
}
use distributed_messaging_sy.Amqp.{Env, Publishing, publish, status_only}
use distributed_messaging_sy.Amqp.Process.{Act, record_metrics, call_ignored}

-- `amqp.Return`, with the fields that the handler reads
pub record Return : Type 0 where
  pub content_type : Bytes
  pub body : Bytes
  pub reply_to : Bytes
  pub correlation_id : Bytes

abbrev count_published_message : Act (Unit {0})
count_published_message =
    modify (λ p. record p { published_count = (p.published_count + 1) % 2 ^ 64 })

abbrev pub dead_notice : Env → Return → Publishing
dead_notice env ret = record {
  headers = [];
  persistent = false;
  content_type = bytes "application/json";
  body = env.marshal (status_only (bytes "dlq"));
  reply_to = [];
  correlation_id = ret.correlation_id;
}

abbrev pub forwarded : Return → Publishing
forwarded ret = record {
  headers = [];
  persistent = false;
  content_type = ret.content_type;
  body = ret.body;
  reply_to = ret.reply_to;
  correlation_id = ret.correlation_id;
}

module _ (env : Env) where
  -- The notice to the client
  unfoldable pub tell_dead : Return → Act (Unit {0})
  tell_dead ret = if is_empty ret.reply_to then pure tt else (do
    count_published_message
    call_ignored env (publish [] ret.reply_to false false (dead_notice env ret)))

  -- One round of `for ret := range returns`
  unfoldable pub return_step : Return → Act (Unit {0})
  unfolding tell_dead
  return_step ret = do
    record_metrics (λ m. record m { dlx_messages = m.dlx_messages + 1 })
    tell_dead ret
    count_published_message
    latency ← gets (λ p. env.elapsed_ms p.calls)
    record_metrics (λ m. record m {
      worker_throughput = bytes "dlx_handler" ∷ m.worker_throughput;
      task_latency = latency ∷ m.task_latency;
    })
    call_ignored env
        (publish (bytes "dlx_exchange") (bytes "dead_task") false false (forwarded ret))

  unfoldable pub return_loop : List Return → Act (Unit {0})
  return_loop [] = pure tt
  return_loop (ret ∷ rets) = do return_step ret; return_loop rets
