-- ===== src/Gateway/Unroutable.antt =====
-- gateway/server.go: what becomes of the messages that the broker returns.
use distributed_messaging_sy.Base.{
  ◌+◌, ◌≡◌, ◌≢◌, bytes_eq, bytes_eq_iff, bytes_eq_refl, if◌then◌else◌, length, Bytes, bytes, List,
  [], ◌∷◌, arith, returns, ℕ,
}
use distributed_messaging_sy.Amqp.{Env, Publishing}
use distributed_messaging_sy.Amqp.Process.{Process}
use distributed_messaging_sy.Amqp.Trace.{sent_to}
use distributed_messaging_sy.Gateway.Returned.{Return, forwarded, return_step, return_loop}

-- The messages forwarded for some returns, the last one first, over those sent before
abbrev pub forwarded_all : List Return → List Publishing → List Publishing
forwarded_all [] before = before
forwarded_all (ret ∷ rets) before = forwarded_all rets (forwarded ret ∷ before)

-- How many of some returns ask for replies to a queue
abbrev pub asking : Bytes → List Return → ℕ
asking k [] = 0
asking k (ret ∷ rets) = (if bytes_eq ret.reply_to k then 1 else 0) + asking k rets

abbrev dead_tasks : Process → List Publishing
dead_tasks p = sent_to (bytes "dlx_exchange") (bytes "dead_task") p.calls

module _ (env : Env) where
  return_step_lem :
      (ret : Return) (k : Bytes) (p : Process)
      → k ≢ []
      → ((return_step env ret p).0 ≡ returns tt)
        × (dead_tasks (return_step env ret p).1 ≡ forwarded ret ∷ dead_tasks p)
        × (length (sent_to [] k (return_step env ret p).1.calls)
            ≡ asking k (ret ∷ []) + length (sent_to [] k p.calls))
        × ((return_step env ret p).1.metrics.dlx_messages ≡ p.metrics.dlx_messages + 1)
  unfolding return_step sent_to bytes bytes_eq
  return_step_lem ret k p n = ground (arith, bytes_eq_iff ret.reply_to k, bytes_eq_refl [])

  -- Whatever the broker answers, the handler gets through the returned messages: it publishes each to
  -- the dead-letter exchange exactly once and in order, with its content type, body, reply queue and
  -- correlation id, counts it once, and sends exactly one notice to each reply queue for each message
  -- that names it.
  pub return_loop-forwards :
      (rets : List Return) (k : Bytes) (p : Process)
      → k ≢ []
      → ((return_loop env rets p).0 ≡ returns tt)
        × (dead_tasks (return_loop env rets p).1 ≡ forwarded_all rets (dead_tasks p))
        × (length (sent_to [] k (return_loop env rets p).1.calls)
            ≡ asking k rets + length (sent_to [] k p.calls))
        × ((return_loop env rets p).1.metrics.dlx_messages ≡ p.metrics.dlx_messages + length rets)
  unfolding return_loop
  return_loop-forwards [] k p n = ground arith
  return_loop-forwards (ret ∷ rets) k p n =
      ground
        (arith, return_step_lem ret k p n, return_loop-forwards rets k (return_step env ret p).1 n)
