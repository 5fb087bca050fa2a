-- ===== src/Loads.antt =====
-- flood.go, testing_shards.go and resilient.go: the programs that put load on the gateway, and the
-- earlier consumer of a single queue for failing tasks.
use distributed_messaging_sy.Base.{
  ℕ, zero, suc, ◌+◌, ◌≡◌, ◌∙◌, refl, inr, true, false, decimal, All, Bytes, bytes, List, [], ◌∷◌,
  ◌++◌, ◌>>◌, arith,
}
use distributed_messaging_sy.Amqp.{Env, Table, text, queue_declare, consume}
use distributed_messaging_sy.Amqp.Process.{Process, Act, call_or_exit}
use distributed_messaging_sy.Limiter.{Redis, RateLimiter}
use distributed_messaging_sy.Gateway.Submit.{Outside, Submission, handle_submit_task}
use distributed_messaging_sy.Gateway.Admission.{shut}
use distributed_messaging_sy.Gateway.Limited.{Visit, serve}

-- A form with the task alone, without an Authorization header
abbrev bare_form : Bytes → Submission
bare_form task = record {
  method = bytes "POST";
  authorization = [];
  task = task;
  routing_key = [];
  headers_json = [];
  fail = [];
  retry = [];
  broadcast = [];
}

-- The tasks with the numbers from `i` on, `gap` milliseconds apart
unfoldable numbered : Bytes → ℕ → ℕ → ℕ → List Visit
numbered name gap i zero = []
numbered name gap i (suc n) = (gap, bare_form (name ++ decimal i)) ∷ numbered name gap (i + 1) n

-- What flood.go sends, in the order of its loop, and what testing_shards.go sends
unfoldable flood : List Visit
unfolding numbered
flood = numbered (bytes "task-") 5 0 50

unfoldable force_shards : List Visit
unfolding numbered
force_shards = numbered (bytes "spam-") 0 0 20

-- The arguments of the queue of resilient.go, which is no quorum queue
abbrev resilient_args : Table
resilient_args =
    (bytes "x-dead-letter-exchange", text (bytes "dlx_exchange"))
    ∷ (bytes "x-dead-letter-routing-key", text (bytes "dead_task"))
    ∷ []

-- `main` of resilient.go, up to its loop, with a connection and a channel; its rounds only log.
unfoldable start_resilient_queue : Env → Act (Unit {0})
start_resilient_queue env = do
  call_or_exit env (queue_declare (bytes "resilient_queue") true false false false resilient_args)
  call_or_exit env (consume (bytes "resilient_queue") [] true false false false)

numbered-bare :
    (name : Bytes) (gap i n : ℕ)
    → All (λ (v : Visit). v.1.authorization ≡ []) (numbered name gap i n)
unfolding numbered
numbered-bare name gap i zero = tt
numbered-bare name gap i (suc n) = (refl, numbered-bare name gap (i + 1) n)

module _ (env : Env) (outside : Outside) (redis : Redis) (limiter : RateLimiter) where
  -- Submissions without an Authorization header leave the broker and the counters alone, however many
  -- there are.
  serve-idle :
      (visits : List Visit) (p : Process) (store : redis.Store)
      → All (λ (v : Visit). v.1.authorization ≡ []) visits
      → (serve env outside redis limiter visits p store).0 ≡ p
  unfolding serve
  serve-idle [] p store all = refl
  serve-idle ((gap, s) ∷ visits) p store (bare, all) =
      let after = (handle_submit_task env outside redis limiter s (p, redis.elapse gap store)).1 in
      serve-idle visits after.0 after.1 all
      ∙ shut env outside redis limiter s p (redis.elapse gap store) (inr (ground (arith, bare)))

  -- Both programs that put load on the gateway leave the broker alone: every task that they send is
  -- refused for its missing header.
  loads-idle :
      (p : Process) (store : redis.Store)
      → ((serve env outside redis limiter flood p store).0 ≡ p)
        × ((serve env outside redis limiter force_shards p store).0 ≡ p)
  unfolding flood force_shards
  loads-idle p store = (
    serve-idle _ p store (numbered-bare (bytes "task-") 5 0 50),
    serve-idle _ p store (numbered-bare (bytes "spam-") 0 0 20),
  )
