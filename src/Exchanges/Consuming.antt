-- ===== src/Exchanges/Consuming.antt =====
-- The consumers of the four exchanges: their loops over deliveries, and what these settle and count.
use distributed_messaging_sy.Base.{
  ℕ, ◌+◌, ◌≡◌, ◌≢◌, bytes_eq, bytes_eq_iff, bytes_eq_refl, if◌then◌else◌, Bytes, List, [], ◌∷◌,
  arith, pure, returns, ◌>>◌, length,
}
use distributed_messaging_sy.Amqp.{Env, Delivery}
use distributed_messaging_sy.Amqp.Process.{Process, Act}
use distributed_messaging_sy.Amqp.Trace.{acks, nack_total, acks_taken, sent_to}
use distributed_messaging_sy.DeadLetter.Settlement.{tagged}
use distributed_messaging_sy.Exchanges.Direct.{direct_step}
use distributed_messaging_sy.Exchanges.Topic.{topic_step}
use distributed_messaging_sy.Exchanges.Fanout.{fanout_step}
use distributed_messaging_sy.Exchanges.Headers.{headers_step}

pub data Exchange : Type 0 where
  direct : Exchange
  topic : (binding_key : Bytes) → Exchange
  fanout : Exchange
  headers : Exchange

module _ (env : Env) where
  unfoldable pub step : Exchange → Delivery → Act (Unit {0})
  unfolding direct_step topic_step fanout_step headers_step
  step direct d = direct_step env d
  step (topic binding_key) d = topic_step env binding_key d
  step fanout d = fanout_step env d
  step headers d = headers_step env d

  -- `for d := range msgs` of the consumer of an exchange
  unfoldable pub consumer_loop : Exchange → List Delivery → Act (Unit {0})
  consumer_loop x [] = pure tt
  consumer_loop x (d ∷ ds) = do step x d; consumer_loop x ds

  -- How many of some deliveries ask for a reply to a queue
  abbrev pub replies_to : Bytes → List Delivery → ℕ
  replies_to k [] = 0
  replies_to k (d ∷ ds) = (if bytes_eq d.reply_to k then 1 else 0) + replies_to k ds

  -- What a consumer does with its deliveries, counted from before to after
  pub record Consumed (ds : List Delivery) (k : Bytes) (t : ℕ) (p q : Process) : Type 0 where
    pub acked : acks t q.calls ≡ tagged t ds + acks t p.calls
    pub refused : nack_total q.calls ≡ nack_total p.calls
    pub replied : length (sent_to [] k q.calls) ≡ replies_to k ds + length (sent_to [] k p.calls)
    pub counted :
        q.metrics.msgs_acked + acks_taken env p.calls
        ≡ p.metrics.msgs_acked + acks_taken env q.calls

  step-Consumed :
      (x : Exchange) (d : Delivery) (k : Bytes) (t : ℕ) (p : Process)
      → k ≢ []
      → ((step x d p).0 ≡ returns tt) × Consumed (d ∷ []) k t p (step x d p).1
  unfolding step acks nack_total acks_taken sent_to
  step-Consumed direct d k t p n = ground (arith, bytes_eq_refl [], bytes_eq_iff d.reply_to k)
  step-Consumed _ d k t p n = ground (arith, bytes_eq_refl [], bytes_eq_iff d.reply_to k)

  -- Whatever the broker answers, the consumer of each exchange gets through its deliveries: it
  -- acknowledges each exactly once and refuses none, sends to each reply queue exactly one message
  -- for each delivery that names it, and counts exactly the acknowledgements that returned no error.
  pub consumer_loop-Consumed :
      (x : Exchange) (ds : List Delivery) (k : Bytes) (t : ℕ) (p : Process)
      → k ≢ []
      → ((consumer_loop x ds p).0 ≡ returns tt) × Consumed ds k t p (consumer_loop x ds p).1
  unfolding consumer_loop
  consumer_loop-Consumed x [] k t p n = ground arith
  consumer_loop-Consumed x (d ∷ ds) k t p n =
      ground (arith, step-Consumed x d k t p n, consumer_loop-Consumed x ds k t (step x d p).1 n)
