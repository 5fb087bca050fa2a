-- ===== src/Monitor.antt =====
-- monitor/metrics.go: the Prometheus collectors that the program writes. A counter is a number; a
-- counter vector is the list of the labels it was incremented at; a histogram is the list of its
-- observations; both lists have the newest entry first. The collectors `QueueDepth`, `DLQDepth` and
-- `QueueConsumers` are registered and never written, and have no field.
use distributed_messaging_sy.Base.{ℕ, List, [], Bytes}

pub record Metrics : Type 0 where
  pub quorum_recoveries_total : ℕ
  pub quorum_recoveries_failed : ℕ
  pub quorum_recovery_duration : List ℕ  -- milliseconds; the source observes seconds
  pub live_workers : ℕ  -- a gauge, as the bit pattern of the int32 that it is set to
  pub msgs_published : ℕ
  pub msgs_acked : ℕ
  pub worker_throughput : List Bytes
  pub task_latency : List ℕ
  pub dlx_messages : ℕ
  pub dlq_messages : ℕ
  pub retry_messages : ℕ
  pub failure_messages : ℕ

-- What the collectors hold when `Init` registers them.
abbrev pub fresh : Metrics
fresh = record {
  quorum_recoveries_total = 0;
  quorum_recoveries_failed = 0;
  quorum_recovery_duration = [];
  live_workers = 0;
  msgs_published = 0;
  msgs_acked = 0;
  worker_throughput = [];
  task_latency = [];
  dlx_messages = 0;
  dlq_messages = 0;
  retry_messages = 0;
  failure_messages = 0;
}
