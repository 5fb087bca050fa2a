-- ===== src/Examples/Settling.antt =====
-- Deliveries that the workers of the dead-letter queues and of the exchanges are handed.
use distributed_messaging_sy.Base.{
  ◌≡◌, inr, refl, bytes, bytes_eq, Bytes, List, [], ◌∷◌, none, returns,
}
use distributed_messaging_sy.Amqp.{Delivery, get}
use distributed_messaging_sy.Amqp.Process.{started}
use distributed_messaging_sy.Amqp.Trace.{acks, nacks, ack_total, nack_total, sent_to, taken}
use distributed_messaging_sy.DeadLetter.{first_retry}
use distributed_messaging_sy.DeadLetter.RetryWorker.{retry_loop, retry_count}
use distributed_messaging_sy.DeadLetter.RetryChain.{relay, accepting, reports, relay-first_retry}
use distributed_messaging_sy.DeadLetter.Settlement.{
  settled, kept, retry_loop-settles, retry_loop-keeps, exhausted-sends_nothing,
}
use distributed_messaging_sy.DeadLetter.Counting.{
  IsCounted, perform_all, retries, resilient, dead, perform_all-IsCounted,
}
use distributed_messaging_sy.Exchanges.Consuming.{
  topic, consumer_loop, Consumed, consumer_loop-Consumed,
}
use distributed_messaging_sy.Examples.Broker.{lossy, lossy-IsFaithful, delivery}

abbrev queue : Bytes
queue = bytes "task_shard_0_retry_5s"

abbrev worker : Bytes
worker = bytes "worker-1"

-- Two deliveries with retries left, and one without
abbrev three : List Delivery
three = delivery 1 0 ∷ delivery 2 1 ∷ delivery 3 3 ∷ []

relay-first_retry_example :
    let (p', left) =
      relay
        (accepting lossy)
        queue
        worker
        (1 ∷ 2 ∷ 3 ∷ 4 ∷ [])
        (first_retry (bytes "resize") (bytes "amq.gen-1") (bytes "7"))
        started in
    (left ≡ none)
    × (reports lossy (bytes "amq.gen-1") p'
        ≡ (bytes "7", bytes "dlq")
          ∷ (bytes "7", bytes "retry")
          ∷ (bytes "7", bytes "retry")
          ∷ (bytes "7", bytes "retry")
          ∷ [])
    × (nack_total p'.calls ≡ 0)
unfolding bytes nack_total sent_to
relay-first_retry_example =
    relay-first_retry lossy lossy-IsFaithful queue worker (bytes "resize") (bytes "amq.gen-1")
      (bytes "7") (λ e. cc) 1 2 3 4 [] started

retry_loop-settles_example :
    ((retry_loop lossy queue worker three started).0 ≡ returns tt)
    × (settled 2 (retry_loop lossy queue worker three started).1 ≡ 1)
unfolding acks nacks
retry_loop-settles_example = retry_loop-settles lossy queue worker three started 2

retry_loop-keeps_example :
    kept lossy queue worker (retry_loop lossy queue worker three started).1 ≡ 2
unfolding bytes bytes_eq get retry_count taken nack_total
retry_loop-keeps_example = retry_loop-keeps lossy queue worker three started

exhausted-sends_nothing_example :
    let p = (retry_loop lossy queue worker (delivery 3 3 ∷ []) started).1 in
    (sent_to [] (bytes "dead_letter_queue") p.calls ≡ []) × (nack_total p.calls ≡ 0)
unfolding bytes bytes_eq get retry_count sent_to nack_total
exhausted-sends_nothing_example =
    exhausted-sends_nothing lossy queue worker (delivery 3 3 ∷ []) started []
      (bytes "dead_letter_queue") (refl, tt) (inr (λ e. cc), tt)

perform_all-IsCounted_example : IsCounted (
    perform_all lossy
      (retries queue worker three ∷ resilient worker three ∷ dead three ∷ [])
      started)
unfolding ack_total
perform_all-IsCounted_example =
    perform_all-IsCounted lossy
      (retries queue worker three ∷ resilient worker three ∷ dead three ∷ []) started
      (record { acked = refl; by_worker = refl; timed = refl })

consumer_loop-Consumed_example :
    let r = consumer_loop lossy (topic (bytes "images.*")) three started in
    (r.0 ≡ returns tt) × Consumed lossy three (bytes "amq.gen-1") 2 started r.1
unfolding bytes
consumer_loop-Consumed_example =
    consumer_loop-Consumed lossy (topic (bytes "images.*")) three (bytes "amq.gen-1") 2 started
      (λ e. cc)
