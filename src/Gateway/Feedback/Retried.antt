-- ===== src/Gateway/Feedback/Retried.antt =====
-- gateway/server.go and dead_letter_queues/: a task that is marked for retry is answered at the end of
-- its retries.
use distributed_messaging_sy.Base.{
  ℕ, ◌≡◌, ◌≢◌, ◌∙◌, ap, inr, bytes_eq_iff, bytes_eq_refl, refl, All, map, Bytes, bytes, List, [],
  ◌∷◌, ◌++◌, some, none, returns, arith,
}
use distributed_messaging_sy.Amqp.{Env, Delivery, IsFaithful}
use distributed_messaging_sy.Amqp.Process.{Process}
use distributed_messaging_sy.Amqp.Trace.{sent_to}
use distributed_messaging_sy.Limiter.{Redis, RateLimiter}
use distributed_messaging_sy.Shards.{pick_shard}
use distributed_messaging_sy.DeadLetter.{first_retry, send_to_retry_queue}
use distributed_messaging_sy.DeadLetter.Queues.{retry_queue_of}
use distributed_messaging_sy.DeadLetter.RetryChain.{accepting, relay, relay-first_retry}
use distributed_messaging_sy.Gateway.Publish.{Request, publish_by_route}
use distributed_messaging_sy.Gateway.Submit.{
  Outside, Submission, request_of, relay_feedback, handle_submit_task,
}
use distributed_messaging_sy.Gateway.Admission.{Admitted}
use distributed_messaging_sy.Gateway.Answer.{
  reply_queue, task_id, handle_submit_task-routed, consuming,
}
use distributed_messaging_sy.Gateway.Feedback.{
  Reading, reading, told, Passed, wait_for_feedback-reading,
}

All-append : (P : Reading → Type 0) (xs ys : List Reading) → All P xs → All P ys → All P (xs ++ ys)
All-append P [] ys px py = py
All-append P (x ∷ xs) ys (p, px) py = (p, All-append P xs ys px py)

append_assoc : (xs ys zs : List Reading) → xs ++ (ys ++ zs) ≡ (xs ++ ys) ++ zs
append_assoc [] ys zs = refl
append_assoc (x ∷ xs) ys zs = ap (◌∷◌ x) (append_assoc xs ys zs)

-- A marked request puts the start of a chain of retries on the retry queue of its shard.
route-retries :
    (env : Env) (r : Request) (shard : Bytes) (p : Process)
    → r.retry ≡ bytes "1"
    → ((publish_by_route (accepting env) r shard p).0 ≡ returns none)
      × (sent_to
            (bytes "retry_exchange")
            (retry_queue_of shard)
            (publish_by_route (accepting env) r shard p).1.calls
          ≡ first_retry r.task r.reply_to r.corr_id
            ∷ sent_to (bytes "retry_exchange") (retry_queue_of shard) p.calls)
unfolding publish_by_route send_to_retry_queue sent_to
route-retries env r shard p m = ground (
  arith,
  bytes_eq_iff r.retry (bytes "1"),
  m,
  bytes_eq_refl (bytes "retry_exchange"),
  bytes_eq_refl (retry_queue_of shard),
)

-- What the sender of a task is told over the whole chain of retries
abbrev chain_told : Bytes → List Reading
chain_told corr =
    (corr, bytes "retry") ∷ (corr, bytes "retry") ∷ (corr, bytes "retry") ∷ (corr, bytes "dlq") ∷ []

relay-told :
    (env : Env) (faithful : IsFaithful env) (q id msg reply_to corr : Bytes) (t₀ t₁ t₂ t₃ : ℕ)
    (p : Process)
    → reply_to ≢ []
    → sent_to [] reply_to p.calls ≡ []
    → told env reply_to
        (relay (accepting env) q id (t₀ ∷ t₁ ∷ t₂ ∷ t₃ ∷ []) (first_retry msg reply_to corr) p).0
      ≡ chain_told corr
relay-told env faithful q id msg reply_to corr t₀ t₁ t₂ t₃ p n unused =
    let (_, all, _) = relay-first_retry env faithful q id msg reply_to corr n t₀ t₁ t₂ t₃ [] p in
    rw (all, unused) refl

module _ (env : Env) (faithful : IsFaithful env) (outside : Outside) (s : Submission) (p : Process)
    (redis : Redis) (limiter : RateLimiter) (store : redis.Store) where
  -- Where the broker takes every call, names the reply queue, and a marshalled feedback is read back
  -- with its status: an admitted submission with a task that is marked for retry has the start of a
  -- chain of retries put on the retry queue of its shard. If a retry worker that has sent nothing to
  -- the reply queue before is handed this message and then those it puts back, and the reply queue
  -- brings what the worker reports, after messages that end no wait, then the client is answered with
  -- a feedback of status "dlq".
  pub handle_submit_task-Retried :
      (shard id : Bytes) (t₀ t₁ t₂ t₃ : ℕ) (wp : Process) (seen later : List Reading)
      → s.retry ≡ bytes "1"
      → s.task ≢ []
      → reply_queue env outside s p ≢ []
      → pick_shard s.task ≡ some shard
      → Admitted outside redis limiter s store
      → sent_to [] (reply_queue env outside s p) wp.calls ≡ []
      → let r = handle_submit_task (accepting env) outside redis limiter s (p, store) in
        let q = retry_queue_of shard in
        let m = first_retry s.task (reply_queue env outside s p) (task_id env outside s p) in
        map (reading env) (outside.arrivals r.1.0.calls)
          ≡ seen
            ++ (told env
                  (reply_queue env outside s p)
                  (relay (accepting env) q id (t₀ ∷ t₁ ∷ t₂ ∷ t₃ ∷ []) m wp).0
                ++ later)
        → All (Passed (task_id env outside s p)) seen
        → (sent_to (bytes "retry_exchange") q r.1.0.calls
            ≡ m ∷ sent_to (bytes "retry_exchange") q p.calls)
          × (x : Delivery) × (r.0 ≡ returns (some (relay_feedback x)))
          × (env.status_of x.body ≡ bytes "dlq")
  unfolding bytes sent_to
  handle_submit_task-Retried shard id t₀ t₁ t₂ t₃ wp seen later marked named queue picked h unused
        brings passed =
      let corr = task_id env outside s p in
      let request = request_of s (reply_queue env outside s p) corr in
      let (done, starts) = route-retries env request shard (consuming env outside s p) marked in
      let (same, waits) =
        handle_submit_task-routed env outside s p redis limiter store shard named picked done h in
      let again : Passed corr (corr, bytes "retry") = inr refl in
      let chain =
        relay-told env faithful (retry_queue_of shard) id s.task _ corr t₀ t₁ t₂ t₃ wp queue
          unused in
      let (x, answer, status) =
        wait_for_feedback-reading env outside s.task corr (bytes "dlq") _
          (seen ++ ((corr, bytes "retry") ∷ (corr, bytes "retry") ∷ (corr, bytes "retry") ∷ []))
          later (brings ∙ ap (λ l. seen ++ (l ++ later)) chain ∙ append_assoc seen _ _)
          (All-append _ seen _ passed (again, (again, (again, tt)))) (λ e. cc) in
      (
        ap (λ x. sent_to (bytes "retry_exchange") (retry_queue_of shard) x.calls) same ∙ starts,
        x,
        waits ∙ answer,
        status,
      )
