-- ===== src/Gateway/Start/Order.antt =====
-- gateway/server.go, `main`: what it is to consume and bind only what was declared, and that the start
-- of each worker does.
use distributed_messaging_sy.Base.{
  ◌≡◌, true, false, ◌&&◌, ◌||◌, bytes_eq, bytes_eq_refl, is_empty, if◌then◌else◌, Bool, Bytes,
  bytes, List, [], ◌∷◌, Option, none, some, ◌>>=◌, ◌>>◌, arith,
}
use distributed_messaging_sy.Amqp.{
  Env, Call, Table, exchange_declare, queue_declare, queue_bind, consume,
}
use distributed_messaging_sy.Amqp.Process.{Process, Act, call_or_exit, declare_unnamed_or_exit}
use distributed_messaging_sy.DeadLetter.RetryWorker.{start_delay_retry_worker}
use distributed_messaging_sy.DeadLetter.ResilientWorker.{start_resilient_worker}
use distributed_messaging_sy.DeadLetter.DlqConsumer.{start_dlq_consumer}
use distributed_messaging_sy.WorkQueue.{start_task_queue_worker}
use distributed_messaging_sy.Exchanges.Direct.{start_direct_consumer}
use distributed_messaging_sy.Exchanges.Topic.{start_topic_consumer}
use distributed_messaging_sy.Exchanges.Fanout.{start_fanout_consumer}
use distributed_messaging_sy.Exchanges.Headers.{binding_headers, start_headers_consumer}

abbrev is_none {ℓ} : {A : Type ℓ} → Option A → Bool
is_none none = true
is_none (some _) = false

module _ (env : Env) where
  -- A queue was declared without an error; a name that is left out is chosen by the broker.
  unfoldable pub has_queue : Bytes → List Call → Bool
  has_queue q [] = false
  has_queue q (queue_declare n d a x w args ∷ cs) =
      let rest = has_queue q cs in
      (is_none (env.fails cs (queue_declare n d a x w args))
        && bytes_eq (if is_empty n then env.server_named cs else n) q)
      || rest
  has_queue q (_ ∷ cs) = has_queue q cs

  -- An exchange was declared without an error.
  unfoldable pub has_exchange : Bytes → List Call → Bool
  has_exchange e [] = false
  has_exchange e (exchange_declare n k d a i w ∷ cs) =
      let rest = has_exchange e cs in
      (is_none (env.fails cs (exchange_declare n k d a i w)) && bytes_eq n e) || rest
  has_exchange e (_ ∷ cs) = has_exchange e cs

  -- Each queue was declared before it is consumed from, and each queue and exchange before they are
  -- bound.
  unfoldable pub IsOrdered : List Call → Type 0
  IsOrdered [] = Unit
  IsOrdered (consume q _ _ _ _ _ ∷ cs) = (has_queue q cs ≡ true) × IsOrdered cs
  IsOrdered (queue_bind q k e _ _ ∷ cs) =
      (has_queue q cs ≡ true) × (has_exchange e cs ≡ true) × IsOrdered cs
  IsOrdered (_ ∷ cs) = IsOrdered cs

  -- A step from an ordered record of calls leaves an ordered one, and forgets no queue.
  abbrev pub Grows : Act (Unit {0}) → Process → Type 0
  Grows a p =
      IsOrdered (a p).1.calls
      × ((j : Bytes) → has_queue j p.calls ≡ true → has_queue j (a p).1.calls ≡ true)

  pub task-Grows :
      (q : Bytes) (p : Process)
      → is_empty q ≡ false
      → IsOrdered p.calls
      → Grows (start_task_queue_worker env q) p
  unfolding IsOrdered has_queue has_exchange start_task_queue_worker
  task-Grows q p n h = (ground (arith, h, n, bytes_eq_refl q), λ j k. ground (arith, k))

  pub resilient-Grows :
      (id q : Bytes) (p : Process)
      → is_empty q ≡ false
      → IsOrdered p.calls
      → Grows (start_resilient_worker env id q) p
  unfolding IsOrdered has_queue has_exchange start_resilient_worker
  resilient-Grows id q p n h = (ground (arith, h, n, bytes_eq_refl q), λ j k. ground (arith, k))

  pub retry-Grows :
      (id q : Bytes) (p : Process)
      → has_queue q p.calls ≡ true
      → IsOrdered p.calls
      → Grows (start_delay_retry_worker env q id) p
  unfolding IsOrdered has_queue has_exchange start_delay_retry_worker
  retry-Grows id q p d h = (ground (arith, h, d), λ j k. ground (arith, k))

  pub dlq-Grows : (p : Process) → IsOrdered p.calls → Grows (start_dlq_consumer env) p
  unfolding IsOrdered has_queue has_exchange start_dlq_consumer bytes
  dlq-Grows p h = (
    ground
        (arith, h, bytes_eq_refl (bytes "dead_letter_queue"), bytes_eq_refl (bytes "dlx_exchange")),
    λ j k. ground (arith, k),
  )

  -- The start that the consumers of the exchanges share
  abbrev subscribe : Bytes → Bytes → Bytes → Table → Act (Unit {0})
  subscribe exchange kind key args = do
    call_or_exit env (exchange_declare exchange kind true false false false)
    name ← declare_unnamed_or_exit env
    call_or_exit env (queue_bind name key exchange false args)
    call_or_exit env (consume name [] false false false false)

  subscribe-Grows :
      (exchange kind key : Bytes) (args : Table) (p : Process)
      → IsOrdered p.calls
      → Grows (subscribe exchange kind key args) p
  unfolding IsOrdered has_queue has_exchange
  subscribe-Grows exchange kind key args p h =
      let before = exchange_declare exchange kind true false false false ∷ p.calls in
      (
        ground (arith, h, bytes_eq_refl exchange, bytes_eq_refl (env.server_named before)),
        λ j k. ground (arith, k),
      )

  pub direct-Grows :
      (key : Bytes) (p : Process) → IsOrdered p.calls → Grows (start_direct_consumer env key) p
  unfolding start_direct_consumer
  direct-Grows key p h = subscribe-Grows (bytes "direct_logs") (bytes "direct") key [] p h

  pub topic-Grows :
      (key : Bytes) (p : Process) → IsOrdered p.calls → Grows (start_topic_consumer env key) p
  unfolding start_topic_consumer
  topic-Grows key p h = subscribe-Grows (bytes "topic_exchange_suyash") (bytes "topic") key [] p h

  pub fanout-Grows : (p : Process) → IsOrdered p.calls → Grows (start_fanout_consumer env) p
  unfolding start_fanout_consumer
  fanout-Grows p h = subscribe-Grows (bytes "logs") (bytes "fanout") [] [] p h

  pub headers-Grows : (p : Process) → IsOrdered p.calls → Grows (start_headers_consumer env) p
  unfolding start_headers_consumer
  headers-Grows p h =
      subscribe-Grows (bytes "headers_logs") (bytes "headers") [] binding_headers p h
