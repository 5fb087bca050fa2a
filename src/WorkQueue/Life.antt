-- ===== src/WorkQueue/Life.antt =====
-- work_queue_model/worker.go: the life of a worker, from its start to the end of its deliveries.
use distributed_messaging_sy.Base.{
  ℕ, ◌+◌, ◌%◌, ◌^◌, ◌<◌, ◌≡◌, Bytes, List, [], ◌∷◌, arith, returns, ◌>>◌,
}
use distributed_messaging_sy.Amqp.{Env, Delivery}
use distributed_messaging_sy.Amqp.Process.{Process}
use distributed_messaging_sy.Amqp.Trace.{acks, nack_total, acks_taken}
use distributed_messaging_sy.DeadLetter.Settlement.{tagged}
use distributed_messaging_sy.WorkQueue.{start_task_queue_worker, task_step, task_rounds, task_loop}

-- The two counts of acknowledgements agree with what the broker took; the first wraps.
record IsTallied (env : Env) (p : Process) : Type 0 where
  pub counted : p.ack_count ≡ acks_taken env p.calls % 2 ^ 64
  pub exported : p.metrics.msgs_acked ≡ acks_taken env p.calls

module _ (env : Env) (id : Bytes) where
  task_step-settles :
      (d : Delivery) (p : Process) (t : ℕ)
      → ((task_step env id d p).0 ≡ returns tt)
        × (acks t (task_step env id d p).1.calls ≡ tagged t (d ∷ []) + acks t p.calls)
        × (nack_total (task_step env id d p).1.calls ≡ nack_total p.calls)
        × ((task_step env id d p).1.worker_count ≡ p.worker_count)
  unfolding task_step acks nack_total
  task_step-settles d p t = ground arith

  task_rounds-settles :
      (ds : List Delivery) (p : Process) (t : ℕ)
      → ((task_rounds env id ds p).0 ≡ returns tt)
        × (acks t (task_rounds env id ds p).1.calls ≡ tagged t ds + acks t p.calls)
        × (nack_total (task_rounds env id ds p).1.calls ≡ nack_total p.calls)
        × ((task_rounds env id ds p).1.worker_count ≡ p.worker_count)
  unfolding task_rounds
  task_rounds-settles [] p t = ground arith
  task_rounds-settles (d ∷ ds) p t =
      ground (arith, task_step-settles d p t, task_rounds-settles ds (task_step env id d p).1 t)

  task_step-IsTallied :
      (d : Delivery) (p : Process) → IsTallied env p → IsTallied env (task_step env id d p).1
  unfolding task_step acks_taken
  task_step-IsTallied d p h = ground arith

  task_rounds-IsTallied :
      (ds : List Delivery) (p : Process)
      → IsTallied env p
      → IsTallied env (task_rounds env id ds p).1
  unfolding task_rounds
  task_rounds-IsTallied [] p h = h
  task_rounds-IsTallied (d ∷ ds) p h = ground (
    arith,
    task_step-settles d p 0,
    task_rounds-IsTallied ds (task_step env id d p).1 (task_step-IsTallied d p h),
  )

  start-keeps :
      (q : Bytes) (p : Process) (t : ℕ)
      → (acks t (start_task_queue_worker env q p).1.calls ≡ acks t p.calls)
        × (nack_total (start_task_queue_worker env q p).1.calls ≡ nack_total p.calls)
        × ((start_task_queue_worker env q p).1.worker_count ≡ (p.worker_count + 1) % 2 ^ 32)
  unfolding start_task_queue_worker acks nack_total
  start-keeps q p t = ground arith

  -- A worker that starts and whose channel is closed after some deliveries has acknowledged each of
  -- them once and refused none, and leaves the number of live workers, counted in 32 bits, and its
  -- gauge as the number was before the start.
  pub worker-restores :
      (q : Bytes) (ds : List Delivery) (p : Process) (t : ℕ)
      → p.worker_count < 2 ^ 32
      → (start_task_queue_worker env q p).0 ≡ returns tt
      → let r = (start_task_queue_worker env q >> task_loop env id ds) p in
        (r.0 ≡ returns tt)
        × (acks t r.1.calls ≡ tagged t ds + acks t p.calls)
        × (nack_total r.1.calls ≡ nack_total p.calls)
        × (r.1.worker_count ≡ p.worker_count)
        × (r.1.metrics.live_workers ≡ p.worker_count)
  unfolding task_loop
  worker-restores q ds p t small ok =
      ground
        (arith, start-keeps q p t, task_rounds-settles ds (start_task_queue_worker env q p).1 t)

  -- A worker's rounds keep the 64-bit count of acknowledgements and the exported counter equal to
  -- the number of acknowledgements that returned no error, the former modulo 2^64.
  task_loop-IsTallied :
      (ds : List Delivery) (p : Process) → IsTallied env p → IsTallied env (task_loop env id ds p).1
  unfolding task_loop
  task_loop-IsTallied ds p h =
      ground (arith, task_rounds-settles ds p 0, task_rounds-IsTallied ds p h)
