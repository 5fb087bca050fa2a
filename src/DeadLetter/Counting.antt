-- ===== src/DeadLetter/Counting.antt =====
-- dead_letter_queues/: the metrics that the workers write agree with the calls that they make.
use distributed_messaging_sy.Base.{◌≡◌, Bytes, List, [], ◌∷◌, arith, length}
use distributed_messaging_sy.Amqp.{Env, Delivery}
use distributed_messaging_sy.Amqp.Process.{Process}
use distributed_messaging_sy.Amqp.Trace.{ack_total}
use distributed_messaging_sy.DeadLetter.RetryWorker.{retry_step, retry_loop}
use distributed_messaging_sy.DeadLetter.ResilientWorker.{resilient_step, resilient_loop}
use distributed_messaging_sy.DeadLetter.DlqConsumer.{dlq_step, dlq_loop}
use distributed_messaging_sy.DeadLetter.Settlement.{
  retry_step-settles, resilient_step-settles, dlq_step-settles,
}

-- The three collectors that `count_ack` writes agree with the acknowledgements issued.
pub record IsCounted (p : Process) : Type 0 where
  pub acked : p.metrics.msgs_acked ≡ ack_total p.calls
  pub by_worker : length p.metrics.worker_throughput ≡ ack_total p.calls
  pub timed : length p.metrics.task_latency ≡ ack_total p.calls

-- A worker's deliveries, as the three loops take them
pub data Work : Type 0 where
  retries : (queue id : Bytes) (ds : List Delivery) → Work
  resilient : (id : Bytes) (ds : List Delivery) → Work
  dead : (ds : List Delivery) → Work

module _ (env : Env) where
  abbrev pub perform : Work → Process → Process
  perform (retries q id ds) p = (retry_loop env q id ds p).1
  perform (resilient id ds) p = (resilient_loop env id ds p).1
  perform (dead ds) p = (dlq_loop env ds p).1

  abbrev pub perform_all : List Work → Process → Process
  perform_all [] p = p
  perform_all (w ∷ ws) p = perform_all ws (perform w p)

  retry_step-IsCounted :
      (q id : Bytes) (d : Delivery) (p : Process)
      → IsCounted p
      → IsCounted (retry_step env q id d p).1
  unfolding retry_step ack_total
  retry_step-IsCounted q id d p h = ground arith

  resilient_step-IsCounted :
      (id : Bytes) (d : Delivery) (p : Process)
      → IsCounted p
      → IsCounted (resilient_step env id d p).1
  unfolding resilient_step ack_total
  resilient_step-IsCounted id d p h = ground arith

  dlq_step-IsCounted : (d : Delivery) (p : Process) → IsCounted p → IsCounted (dlq_step env d p).1
  unfolding dlq_step ack_total
  dlq_step-IsCounted d p h = ground arith

  retry_loop-IsCounted :
      (q id : Bytes) (ds : List Delivery) (p : Process)
      → IsCounted p
      → IsCounted (retry_loop env q id ds p).1
  unfolding retry_loop
  retry_loop-IsCounted q id [] p h = h
  retry_loop-IsCounted q id (d ∷ ds) p h = ground (
    arith,
    retry_step-settles env q id d p 0,
    retry_loop-IsCounted q id ds (retry_step env q id d p).1 (retry_step-IsCounted q id d p h),
  )

  resilient_loop-IsCounted :
      (id : Bytes) (ds : List Delivery) (p : Process)
      → IsCounted p
      → IsCounted (resilient_loop env id ds p).1
  unfolding resilient_loop
  resilient_loop-IsCounted id [] p h = h
  resilient_loop-IsCounted id (d ∷ ds) p h = ground (
    arith,
    resilient_step-settles env id d p 0,
    resilient_loop-IsCounted id ds (resilient_step env id d p).1
        (resilient_step-IsCounted id d p h),
  )

  dlq_loop-IsCounted :
      (ds : List Delivery) (p : Process) → IsCounted p → IsCounted (dlq_loop env ds p).1
  unfolding dlq_loop
  dlq_loop-IsCounted [] p h = h
  dlq_loop-IsCounted (d ∷ ds) p h = ground (
    arith,
    dlq_step-settles env d p 0,
    dlq_loop-IsCounted ds (dlq_step env d p).1 (dlq_step-IsCounted d p h),
  )

  perform-IsCounted : (w : Work) (p : Process) → IsCounted p → IsCounted (perform w p)
  perform-IsCounted (retries q id ds) p h = retry_loop-IsCounted q id ds p h
  perform-IsCounted (resilient id ds) p h = resilient_loop-IsCounted id ds p h
  perform-IsCounted (dead ds) p h = dlq_loop-IsCounted ds p h

  -- Through any sequence of the three workers' runs, the counter of acknowledged messages, the
  -- throughput over all workers and the number of latency observations stay equal to the number of
  -- acknowledgements issued.
  pub perform_all-IsCounted :
      (ws : List Work) (p : Process) → IsCounted p → IsCounted (perform_all ws p)
  perform_all-IsCounted [] p h = h
  perform_all-IsCounted (w ∷ ws) p h =
      perform_all-IsCounted ws (perform w p) (perform-IsCounted w p h)
