-- ===== src/Amqp/Process.antt =====
-- The state of a gateway process, and the calls of the client library as actions on it.
use distributed_messaging_sy.Base.{
  ℕ, ◌+◌, false, Bytes, is_empty, List, [], ◌∷◌, Option, none, some, false, true, Go, Outcome,
  fatal, pure, modify, must, ◌>>=◌, if◌then◌else◌, bytes,
}
use distributed_messaging_sy.Monitor.{Metrics, fresh}
use distributed_messaging_sy.Amqp.{
  Call, Env, Error, ack, queue_declare, queue_inspect, Delivery, Feedback, publish, sleep,
}

-- `worker_count` is the bit pattern of an int32, the other two of an int64.
pub record Process : Type 0 where
  pub calls : List Call  -- newest first
  pub metrics : Metrics
  pub worker_count : ℕ
  pub ack_count : ℕ
  pub published_count : ℕ

abbrev pub started : Process
started = record {
  calls = [];
  metrics = fresh;
  worker_count = 0;
  ack_count = 0;
  published_count = 0;
}

abbrev pub Act {ℓ} : Type ℓ → Type ℓ
Act A = Go Process A

abbrev pub record_metrics : (Metrics → Metrics) → Act (Unit {0})
record_metrics f = modify (λ p. record p { metrics = f p.metrics })

module _ (env : Env) where
  -- A call whose answer is an `error`
  abbrev pub call : Call → Act (Option Error)
  call c p = (Outcome.returns (env.fails p.calls c), record p { calls = c ∷ p.calls })

  abbrev pub pause : ℕ → Act (Unit {0})
  pause ms = modify (λ p. record p { calls = sleep ms ∷ p.calls })

  -- `Ch.Publish("", d.ReplyTo, false, false, amqp.Publishing{…})` with a JSON body
  abbrev pub publish_feedback : Delivery → Feedback → Act (Option Error)
  publish_feedback d f = call (
      publish [] d.reply_to false false (record {
        headers = [];
        persistent = false;
        content_type = bytes "application/json";
        body = env.marshal f;
        reply_to = [];
        correlation_id = d.correlation_id;
      }))

  -- The same under `if d.ReplyTo != ""`, with the error dropped
  abbrev pub send_feedback : Delivery → Feedback → Act (Unit {0})
  send_feedback d f =
      if is_empty d.reply_to then pure tt else (publish_feedback d f >>= λ _. pure tt)

  -- `WorkerThroughput.WithLabelValues(label).Inc()` and the observation of the latency
  abbrev pub count_ack : Bytes → Act (Unit {0})
  count_ack label = modify (λ p. record p {
    metrics = record (p.metrics) {
      msgs_acked = p.metrics.msgs_acked + 1;
      worker_throughput = label ∷ p.metrics.worker_throughput;
      task_latency = env.elapsed_ms p.calls ∷ p.metrics.task_latency;
    };
  })

  -- A call whose error ends the process
  abbrev pub call_or_exit : Call → Act (Unit {0})
  call_or_exit c = call c >>= must

  -- A call whose error is dropped, `_ = ch.…`
  abbrev pub call_ignored : Call → Act (Unit {0})
  call_ignored c = call c >>= λ _. pure tt

  -- `QueueDeclare("", …)`: the name that the server gives, or an error
  abbrev pub declare_unnamed : Act (Option Bytes)
  declare_unnamed p =
      let c = queue_declare [] false true true false [] in
      (
        Outcome.returns
            (elim (env.fails p.calls c) [ none ↦ some (env.server_named p.calls) | some _ ↦ none ]),
        record p { calls = c ∷ p.calls },
      )

  -- `stats, err := Ch.QueueInspect(queue)`: `stats.Messages`, or an error
  abbrev pub inspect : Bytes → Act (Option ℕ)
  inspect queue p =
      let c = queue_inspect queue in
      (
        Outcome.returns (elim (env.fails p.calls c) [
          | none ↦ some (env.messages p.calls queue)
          | some _ ↦ none
        ]),
        record p { calls = c ∷ p.calls },
      )

  -- The same with an error that ends the process
  abbrev pub declare_unnamed_or_exit : Act Bytes
  declare_unnamed_or_exit = do name ← declare_unnamed; elim name [ none ↦ fatal | some n ↦ pure n ]

  -- `if err := d.Ack(false); err != nil { log } else { count }`
  abbrev pub ack_counted : Delivery → Bytes → Act (Unit {0})
  ack_counted d label = do
    err ← call (ack d.tag false)
    elim err [ some _ ↦ pure tt | none ↦ count_ack label ]
