-- ===== src/DeadLetter/Settlement.antt =====
-- dead_letter_queues/: which deliveries the three workers acknowledge or refuse, what they put back,
-- and what they count.
use distributed_messaging_sy.Base.{
  ℕ, ◌+◌, ◌≡◌, ◌≢◌, ◌⊎◌, refl, ◌==◌, false, if◌then◌else◌, Bytes, bytes, List, [], ◌∷◌, arith,
  returns, All, bytes_eq, bytes_eq_iff, bytes_eq_refl,
}
use distributed_messaging_sy.Amqp.{Env, Delivery}
use distributed_messaging_sy.Amqp.Process.{Process}
use distributed_messaging_sy.Amqp.Trace.{acks, nacks, nack_total, taken, sent_to}
use distributed_messaging_sy.DeadLetter.RetryWorker.{retry_count, may_retry, retry_step, retry_loop}
use distributed_messaging_sy.DeadLetter.ResilientWorker.{resilient_step, resilient_loop}
use distributed_messaging_sy.DeadLetter.DlqConsumer.{dlq_step, dlq_loop}

-- How many deliveries of a list have a tag
abbrev pub tagged : ℕ → List Delivery → ℕ
tagged t [] = 0
tagged t (d ∷ ds) = (if d.tag == t then 1 else 0) + tagged t ds

-- How many deliveries of a list have retries left
abbrev pub retriable : List Delivery → ℕ
retriable [] = 0
retriable (d ∷ ds) = (if may_retry (retry_count d.headers) then 1 else 0) + retriable ds

-- Answered, positively or negatively
abbrev pub settled : ℕ → Process → ℕ
settled t p = acks t p.calls + nacks t p.calls

module _ (env : Env) (q id : Bytes) where
  pub retry_step-settles :
      (d : Delivery) (p : Process) (t : ℕ)
      → ((retry_step env q id d p).0 ≡ returns tt)
        × (settled t (retry_step env q id d p).1 ≡ tagged t (d ∷ []) + settled t p)
  unfolding retry_step acks nacks
  retry_step-settles d p t = ground arith

  -- Whatever the broker answers, the retry worker gets through its deliveries, and answers each of
  -- them exactly once: a tag is settled as often as deliveries carry it.
  pub retry_loop-settles :
      (ds : List Delivery) (p : Process) (t : ℕ)
      → ((retry_loop env q id ds p).0 ≡ returns tt)
        × (settled t (retry_loop env q id ds p).1 ≡ tagged t ds + settled t p)
  unfolding retry_loop
  retry_loop-settles [] p t = ground arith
  retry_loop-settles (d ∷ ds) p t =
      ground (arith, retry_step-settles d p t, retry_loop-settles ds (retry_step env q id d p).1 t)

  -- What stands on the retry queue, or was refused and so goes to the broker
  abbrev pub kept : Process → ℕ
  kept p = taken env (bytes "retry_exchange") q p.calls + nack_total p.calls

  retry_step-keeps :
      (d : Delivery) (p : Process) → kept (retry_step env q id d p).1 ≡ retriable (d ∷ []) + kept p
  unfolding retry_step taken nack_total bytes bytes_eq
  retry_step-keeps d p = ground (arith, bytes_eq_refl q)

  -- Every delivery with retries left is either taken by the broker back onto the retry queue or
  -- refused, and no other delivery adds to the two.
  pub retry_loop-keeps :
      (ds : List Delivery) (p : Process) → kept (retry_loop env q id ds p).1 ≡ retriable ds + kept p
  unfolding retry_loop
  retry_loop-keeps [] p = omega arith
  retry_loop-keeps (d ∷ ds) p = ground (
    arith,
    retry_step-settles d p 0,
    retry_step-keeps d p,
    retry_loop-keeps ds (retry_step env q id d p).1,
  )

  -- An address other than the reply queue of a delivery
  abbrev pub IsElsewhere : Bytes → Bytes → Delivery → Type 0
  IsElsewhere e k d = (e ≢ []) ⊎ (d.reply_to ≢ k)

  exhausted_step-sends_nothing :
      (d : Delivery) (p : Process) (e k : Bytes)
      → may_retry (retry_count d.headers) ≡ false
      → IsElsewhere e k d
      → (sent_to e k (retry_step env q id d p).1.calls ≡ sent_to e k p.calls)
        × (nack_total (retry_step env q id d p).1.calls ≡ nack_total p.calls)
  unfolding retry_step nack_total sent_to
  exhausted_step-sends_nothing d p e k h n =
      ground (arith, bytes_eq_iff [] e, bytes_eq_iff d.reply_to k, n)

  -- Deliveries whose retries are used up reach no dead-letter queue by this worker: it publishes
  -- nothing for them to any address, a queue through the default exchange included, but to their own
  -- reply queues; and it refuses none of them, so that the broker does not dead-letter them either.
  pub exhausted-sends_nothing :
      (ds : List Delivery) (p : Process) (e k : Bytes)
      → All (λ d. may_retry (retry_count d.headers) ≡ false) ds
      → All (IsElsewhere e k) ds
      → (sent_to e k (retry_loop env q id ds p).1.calls ≡ sent_to e k p.calls)
        × (nack_total (retry_loop env q id ds p).1.calls ≡ nack_total p.calls)
  unfolding retry_loop
  exhausted-sends_nothing [] p e k h n = (refl, refl)
  exhausted-sends_nothing (d ∷ ds) p e k h n = ground (
    arith,
    retry_step-settles d p 0,
    exhausted_step-sends_nothing d p e k h.0 n.0,
    exhausted-sends_nothing ds (retry_step env q id d p).1 e k h.1 n.1,
  )

module _ (env : Env) (id : Bytes) where
  pub resilient_step-settles :
      (d : Delivery) (p : Process) (t : ℕ)
      → ((resilient_step env id d p).0 ≡ returns tt)
        × (settled t (resilient_step env id d p).1 ≡ tagged t (d ∷ []) + settled t p)
  unfolding resilient_step acks nacks
  resilient_step-settles d p t = ground arith

  -- Whatever the broker and the coin answer, the resilient worker gets through its deliveries and
  -- settles each exactly once.
  resilient_loop-settles :
      (ds : List Delivery) (p : Process) (t : ℕ)
      → ((resilient_loop env id ds p).0 ≡ returns tt)
        × (settled t (resilient_loop env id ds p).1 ≡ tagged t ds + settled t p)
  unfolding resilient_loop
  resilient_loop-settles [] p t = ground arith
  resilient_loop-settles (d ∷ ds) p t = ground (
    arith,
    resilient_step-settles d p t,
    resilient_loop-settles ds (resilient_step env id d p).1 t,
  )

module _ (env : Env) where
  pub dlq_step-settles :
      (d : Delivery) (p : Process) (t : ℕ)
      → ((dlq_step env d p).0 ≡ returns tt)
        × (acks t (dlq_step env d p).1.calls ≡ tagged t (d ∷ []) + acks t p.calls)
        × (nack_total (dlq_step env d p).1.calls ≡ nack_total p.calls)
        × ((dlq_step env d p).1.metrics.dlq_messages ≡ p.metrics.dlq_messages)
  unfolding dlq_step acks nack_total
  dlq_step-settles d p t = ground arith

  -- The consumer of the dead-letter queue acknowledges each delivery exactly once and refuses none;
  -- the counter of dead-lettered messages stays as it was, however many arrive.
  dlq_loop-settles :
      (ds : List Delivery) (p : Process) (t : ℕ)
      → ((dlq_loop env ds p).0 ≡ returns tt)
        × (acks t (dlq_loop env ds p).1.calls ≡ tagged t ds + acks t p.calls)
        × (nack_total (dlq_loop env ds p).1.calls ≡ nack_total p.calls)
        × ((dlq_loop env ds p).1.metrics.dlq_messages ≡ p.metrics.dlq_messages)
  unfolding dlq_loop
  dlq_loop-settles [] p t = ground arith
  dlq_loop-settles (d ∷ ds) p t =
      ground (arith, dlq_step-settles d p t, dlq_loop-settles ds (dlq_step env d p).1 t)
