-- ===== src/DeadLetter/RetryChain.antt =====
-- dead_letter_queues/: a message that `SendToRetryQueue` starts, through the retry worker to its end.
use distributed_messaging_sy.Base.{
  ℕ, suc, ◌+◌, ◌<◌, ◌≡◌, ◌≢◌, ◌∙◌, ltb, true, if◌then◌else◌, Bytes, bytes, bytes_eq, bytes_eq_iff,
  bytes_eq_refl, List, [], ◌∷◌, Option, none, some, length, map, arith,
}
use distributed_messaging_sy.Amqp.{Env, Publishing, Delivery, Value, IsFaithful, get}
use distributed_messaging_sy.Amqp.Process.{Process}
use distributed_messaging_sy.Amqp.Trace.{sent_to, nack_total}
use distributed_messaging_sy.DeadLetter.{first_retry}
use distributed_messaging_sy.DeadLetter.RetryWorker.{retry_count, requeued, retry_step}

-- The delivery that carries a published message
abbrev pub carry : ℕ → Publishing → Delivery
carry t m = record {
  tag = t;
  headers = m.headers;
  content_type = m.content_type;
  body = m.body;
  reply_to = m.reply_to;
  correlation_id = m.correlation_id;
}

-- The newest message, if there are more than before
abbrev pub newly : List Publishing → List Publishing → Option Publishing
newly old [] = none
newly old (m ∷ ms) = if ltb (length old) (suc (length ms)) then some m else none

-- The messages put on a retry queue, newest first
abbrev pub on_retry_queue : Bytes → Process → List Publishing
on_retry_queue q p = sent_to (bytes "retry_exchange") q p.calls

-- The correlation ids and reports that were sent to a reply queue, newest first
abbrev pub reports : Env → Bytes → Process → List (Bytes × Bytes)
reports env reply_to p =
    map (λ (m : Publishing). (m.correlation_id, env.status_of m.body)) (sent_to [] reply_to p.calls)

-- The worker is handed a message, then whatever message it puts on the retry queue in that round,
-- and so on, under the given tags. The message that is left on the queue at the end, if any.
unfoldable pub relay :
    Env → Bytes → Bytes → List ℕ → Publishing → Process → Process × Option Publishing
relay env q id [] m p = (p, some m)
relay env q id (t ∷ ts) m p =
    let p' = (retry_step env q id (carry t m) p).1 in
    elim (newly (on_retry_queue q p) (on_retry_queue q p')) [
      | none ↦ (p', none)
      | some m' ↦ relay env q id ts m' p'
    ]

abbrev with_count : Bytes → Bytes → Bytes → ℕ → Publishing
with_count msg reply_to corr n = record {
  headers = (bytes "x-retry-count", Value.int32 n) ∷ [];
  persistent = true;
  content_type = bytes "text/plain";
  body = msg;
  reply_to = reply_to;
  correlation_id = corr;
}

-- The same environment, with a broker that refuses no call
abbrev pub accepting : Env → Env
accepting env = record env { fails = λ _ _. none }

module _ (env : Env) (faithful : IsFaithful env) (q id msg reply_to corr : Bytes)
    (replies : reply_to ≢ []) where
  abbrev after : ℕ → ℕ → Process → Process
  after n t p = (retry_step (accepting env) q id (carry t (with_count msg reply_to corr n)) p).1

  after-retry :
      (n t : ℕ) (p : Process)
      → n < 3
      → (on_retry_queue q (after n t p) ≡ with_count msg reply_to corr (n + 1) ∷ on_retry_queue q p)
        × (reports (accepting env) reply_to (after n t p)
            ≡ (corr, bytes "retry") ∷ reports env reply_to p)
        × (nack_total (after n t p).calls ≡ nack_total p.calls)
  unfolding retry_step requeued sent_to bytes bytes_eq retry_count get nack_total
  after-retry n t p h = ground (
    arith,
    bytes_eq_refl q,
    bytes_eq_refl reply_to,
    bytes_eq_iff [] reply_to,
    faithful.status_of-marshal (record {
      status = bytes "retry";
      attempt = some (n + 1);
      worker = some id;
      reason = none;
    }),
  )

  after-last :
      (t : ℕ) (p : Process)
      → (on_retry_queue q (after 3 t p) ≡ on_retry_queue q p)
        × (reports (accepting env) reply_to (after 3 t p)
            ≡ (corr, bytes "dlq") ∷ reports env reply_to p)
        × (nack_total (after 3 t p).calls ≡ nack_total p.calls)
  unfolding retry_step sent_to bytes bytes_eq retry_count get nack_total
  after-last t p = ground (
    arith,
    bytes_eq_refl reply_to,
    bytes_eq_iff [] reply_to,
    faithful.status_of-marshal
        (record { status = bytes "dlq"; attempt = none; worker = some id; reason = none }),
  )

  relay-retry :
      (n t : ℕ) (ts : List ℕ) (p : Process)
      → n < 3
      → relay (accepting env) q id (t ∷ ts) (with_count msg reply_to corr n) p
        ≡ relay (accepting env) q id ts (with_count msg reply_to corr (n + 1)) (after n t p)
  unfolding relay
  relay-retry n t ts p h = ground (arith, after-retry n t p h)

  relay-last :
      (t : ℕ) (ts : List ℕ) (p : Process)
      → relay (accepting env) q id (t ∷ ts) (with_count msg reply_to corr 3) p ≡ (after 3 t p, none)
  unfolding relay
  relay-last t ts p = ground (arith, after-last t p)

  -- If the broker takes every call and the message has a reply queue, a message that
  -- `SendToRetryQueue` starts is handed to the retry worker four times, if there is room for four
  -- deliveries, and then leaves the queue for good; its sender is told "retry" three times and then
  -- "dlq", each time under the task's identifier, and no delivery is refused.
  pub relay-first_retry :
      (t₀ t₁ t₂ t₃ : ℕ) (ts : List ℕ) (p : Process)
      → let (p', left) =
          relay (accepting env) q id (t₀ ∷ t₁ ∷ t₂ ∷ t₃ ∷ ts) (first_retry msg reply_to corr) p in
        (left ≡ none)
        × (reports env reply_to p'
            ≡ (corr, bytes "dlq")
              ∷ (corr, bytes "retry")
              ∷ (corr, bytes "retry")
              ∷ (corr, bytes "retry")
              ∷ reports env reply_to p)
        × (nack_total p'.calls ≡ nack_total p.calls)
  unfolding first_retry
  relay-first_retry t₀ t₁ t₂ t₃ ts p = ground (
    arith,
    chain,
    after-retry 0 t₀ p (omega arith),
    after-retry 1 t₁ p₁ (omega arith),
    after-retry 2 t₂ p₂ (omega arith),
    after-last t₃ p₃,
  )
    where
      p₁ : Process
      p₁ = after 0 t₀ p

      p₂ : Process
      p₂ = after 1 t₁ p₁

      p₃ : Process
      p₃ = after 2 t₂ p₂

      chain :
          relay (accepting env) q id (t₀ ∷ t₁ ∷ t₂ ∷ t₃ ∷ ts) (with_count msg reply_to corr 0) p
          ≡ (after 3 t₃ p₃, none)
      chain =
          relay-retry 0 t₀ (t₁ ∷ t₂ ∷ t₃ ∷ ts) p (omega arith)
          ∙ relay-retry 1 t₁ (t₂ ∷ t₃ ∷ ts) p₁ (omega arith)
          ∙ relay-retry 2 t₂ (t₃ ∷ ts) p₂ (omega arith)
          ∙ relay-last t₃ ts p₃
