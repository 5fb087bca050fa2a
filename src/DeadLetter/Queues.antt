-- ===== src/DeadLetter/Queues.antt =====
-- dead_letter_queues/: the names of a shard's queues, and the arguments of a quorum queue.
use distributed_messaging_sy.Base.{Bytes, bytes, [], ◌∷◌, ◌++◌}
use distributed_messaging_sy.Amqp.{Table, text}

-- `shard + "_retry_5s"` and `"resilient_" + shard`
unfoldable pub retry_queue_of : Bytes → Bytes
retry_queue_of shard = shard ++ bytes "_retry_5s"

unfoldable pub resilient_queue_of : Bytes → Bytes
resilient_queue_of shard = bytes "resilient_" ++ shard

-- The arguments of a quorum queue whose refused messages go to the dead-letter exchange
unfoldable pub quorum_args : Table
quorum_args =
    (bytes "x-queue-type", text (bytes "quorum"))
    ∷ (bytes "x-dead-letter-exchange", text (bytes "dlx_exchange"))
    ∷ (bytes "x-dead-letter-routing-key", text (bytes "dead_task"))
    ∷ []
