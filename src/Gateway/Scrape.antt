-- ===== src/Gateway/Scrape.antt =====
-- gateway/server.go, `metricsHandler`: the page of queue depths and counts.
pub mod Lacking
pub mod Missing
use distributed_messaging_sy.Base.{
  ℕ, ◌+◌, ◌-◌, ◌^◌, ltb, if◌then◌else◌, decimal, Bytes, bytes, List, [], ◌∷◌, ◌++◌, Option, none,
  some, Outcome, pure, gets, ◌>>=◌, ◌>>◌, Response, unwritten, http_error, write, set_content_type,
}
use distributed_messaging_sy.Amqp.{Env, Error, queue_inspect}
use distributed_messaging_sy.Amqp.Process.{Process, Act}

-- `stats, err := ch.QueueInspect(queue)`
pub data Inspected : Type 0 where
  refused : Error → Inspected
  depth : ℕ → Inspected

-- `dlqStats.Messages`, which an error sets to 0
abbrev pub depth_or_zero : Inspected → ℕ
depth_or_zero (refused _) = 0
depth_or_zero (depth n) = n

-- `%d` of the bit pattern of an integer of `w + 1` bits
unfoldable pub signed : ℕ → ℕ → Bytes
signed w n = if ltb n (2 ^ w) then decimal n else bytes "-" ++ decimal (2 ^ (w + 1) - n)

abbrev line : Bytes → Bytes
line s = s ++ bytes "\n"

abbrev pub metrics_text : ℕ → ℕ → Process → Bytes
metrics_text queue_depth dlq_depth p =
    line (bytes "# HELP rabbitmq_queue_depth Number of messages ready in task_queue")
    ++ line (bytes "        # TYPE rabbitmq_queue_depth gauge")
    ++ line (bytes "            rabbitmq_queue_depth " ++ decimal queue_depth)
    ++ line (bytes "        # HELP rabbitmq_dlq_depth Number of messages in dead letter queue")
    ++ line (bytes "        # TYPE rabbitmq_dlq_depth gauge")
    ++ line (bytes "            rabbitmq_dlq_depth " ++ decimal dlq_depth)
    ++ line (bytes "        # HELP rabbitmq_live_workers Number of live workers")
    ++ line (bytes "        # TYPE rabbitmq_live_workers gauge")
    ++ line (bytes "            rabbitmq_live_workers " ++ signed 31 p.worker_count)
    ++ line (bytes "        # HELP rabbitmq_messages_published Total messages published")
    ++ line (bytes "        # TYPE rabbitmq_messages_published counter")
    ++ line (bytes "            rabbitmq_messages_published " ++ signed 63 p.published_count)
    ++ line (
        bytes
          "        # HELP rabbitmq_messages_acknowledged Total messages acknowledged by workers")
    ++ line (bytes "        # TYPE rabbitmq_messages_acknowledged counter")
    ++ line (bytes "            rabbitmq_messages_acknowledged " ++ signed 63 p.ack_count)

module _ (env : Env) where
  abbrev inspect_queue : Bytes → Act Inspected
  inspect_queue queue p =
      let c = queue_inspect queue in
      (
        Outcome.returns (elim (env.fails p.calls c) [
          | none ↦ depth (env.messages p.calls queue)
          | some e ↦ refused e
        ]),
        record p { calls = c ∷ p.calls },
      )

  unfoldable pub metrics_handler : Act Response
  metrics_handler = do
    stats ← inspect_queue (bytes "task_queue")
    elim stats [
      | refused e ↦ pure (http_error (bytes "QueueInspect error: " ++ e) 500 unwritten)
      | depth n ↦ do
        dlq ← inspect_queue (bytes "dead_task")
        text ← gets (metrics_text n (depth_or_zero dlq))
        pure (write text (set_content_type (bytes "text/plain; version=0.0.4") unwritten))
    ]
