-- ===== src/Gateway/Feedback/Failed.antt =====
-- gateway/server.go and dead_letter_queues/: a task that is marked to fail is dead-lettered, and its
-- client told so.
use distributed_messaging_sy.Base.{
  ℕ, ◌+◌, ◌≡◌, ◌≢◌, ◌∙◌, ap, true, bytes_eq, bytes_eq_iff, bytes_eq_refl, All, map, Bytes, bytes,
  List, [], ◌∷◌, ◌++◌, some, none, returns, arith,
}
use distributed_messaging_sy.Amqp.{Env, Delivery, Publishing, Value, IsFaithful, get}
use distributed_messaging_sy.Amqp.Process.{Process}
use distributed_messaging_sy.Amqp.Trace.{sent_to, acks, nacks}
use distributed_messaging_sy.Limiter.{Redis, RateLimiter}
use distributed_messaging_sy.Shards.{pick_shard}
use distributed_messaging_sy.DeadLetter.{publish_to_resilient_queue}
use distributed_messaging_sy.DeadLetter.Queues.{resilient_queue_of}
use distributed_messaging_sy.DeadLetter.ResilientWorker.{force_fail, resilient_step}
use distributed_messaging_sy.DeadLetter.RetryChain.{accepting, carry}
use distributed_messaging_sy.Gateway.Publish.{Request, publish_by_route}
use distributed_messaging_sy.Gateway.Submit.{
  Outside, Submission, request_of, relay_feedback, handle_submit_task,
}
use distributed_messaging_sy.Gateway.Admission.{Admitted}
use distributed_messaging_sy.Gateway.Answer.{
  reply_queue, task_id, handle_submit_task-routed, consuming,
}
use distributed_messaging_sy.Gateway.Feedback.{
  Reading, reading, told, Passed, wait_for_feedback-reading,
}

-- The message of a task that is marked to fail
abbrev pub failing : Bytes → Bytes → Bytes → Publishing
failing task reply_to corr_id = record {
  headers = (bytes "x-force-fail", Value.bool true) ∷ [];
  persistent = true;
  content_type = bytes "text/plain";
  body = task;
  reply_to = reply_to;
  correlation_id = corr_id;
}

route-fails :
    (env : Env) (r : Request) (shard : Bytes) (p : Process)
    → r.retry ≢ bytes "1"
    → r.fail ≡ bytes "1"
    → ((publish_by_route (accepting env) r shard p).0 ≡ returns none)
      × (sent_to [] (resilient_queue_of shard) (publish_by_route (accepting env) r shard p).1.calls
          ≡ failing r.task r.reply_to r.corr_id ∷ sent_to [] (resilient_queue_of shard) p.calls)
unfolding publish_by_route publish_to_resilient_queue sent_to
route-fails env r shard p once marked = ground (
  arith,
  bytes_eq_iff r.retry (bytes "1"),
  bytes_eq_iff r.fail (bytes "1"),
  once,
  marked,
  bytes_eq_refl [],
  bytes_eq_refl (resilient_queue_of shard),
)

-- A resilient worker that is handed the message refuses it for good, and reports it as dead-lettered.
worker-rejects :
    (env : Env) (faithful : IsFaithful env) (id task reply_to corr : Bytes) (t : ℕ) (p : Process)
    → reply_to ≢ []
    → sent_to [] reply_to p.calls ≡ []
    → let after = (resilient_step (accepting env) id (carry t (failing task reply_to corr)) p).1 in
      (told env reply_to after ≡ (corr, bytes "dlq") ∷ [])
      × (nacks t after.calls ≡ nacks t p.calls + 1)
      × (acks t after.calls ≡ acks t p.calls)
unfolding resilient_step force_fail get bytes bytes_eq sent_to nacks acks
worker-rejects env faithful id task reply_to corr t p n unused = ground (
  arith,
  bytes_eq_refl reply_to,
  bytes_eq_refl [],
  bytes_eq_iff reply_to [],
  unused,
  faithful.status_of-marshal (record {
    status = bytes "dlq";
    attempt = none;
    worker = some id;
    reason = some (bytes "forced failure");
  }),
)

module _ (env : Env) (faithful : IsFaithful env) (outside : Outside) (s : Submission) (p : Process)
    (redis : Redis) (limiter : RateLimiter) (store : redis.Store) where
  -- Where the broker takes every call, names the reply queue, and a marshalled feedback is read back
  -- with its status: an admitted submission with a task that is marked to fail, and not for retry, has
  -- its message put on the resilient queue of its shard. A resilient worker that is handed this
  -- message, and has sent nothing to the reply queue before, refuses it once and does not acknowledge
  -- it; and if the reply queue brings what the worker reports, after messages that end no wait, the
  -- client is answered with a feedback of status "dlq".
  pub handle_submit_task-Failed :
      (shard id : Bytes) (t : ℕ) (wp : Process) (seen later : List Reading)
      → s.retry ≢ bytes "1"
      → s.fail ≡ bytes "1"
      → s.task ≢ []
      → reply_queue env outside s p ≢ []
      → pick_shard s.task ≡ some shard
      → Admitted outside redis limiter s store
      → sent_to [] (reply_queue env outside s p) wp.calls ≡ []
      → let r = handle_submit_task (accepting env) outside redis limiter s (p, store) in
        let q = resilient_queue_of shard in
        let m = failing s.task (reply_queue env outside s p) (task_id env outside s p) in
        let worked = (resilient_step (accepting env) id (carry t m) wp).1 in
        map (reading env) (outside.arrivals r.1.0.calls)
          ≡ seen ++ (told env (reply_queue env outside s p) worked ++ later)
        → All (Passed (task_id env outside s p)) seen
        → (sent_to [] q r.1.0.calls ≡ m ∷ sent_to [] q p.calls)
          × (nacks t worked.calls ≡ nacks t wp.calls + 1)
          × (acks t worked.calls ≡ acks t wp.calls)
          × (x : Delivery) × (r.0 ≡ returns (some (relay_feedback x)))
          × (env.status_of x.body ≡ bytes "dlq")
  unfolding bytes sent_to
  handle_submit_task-Failed shard id t wp seen later once marked named queue picked h unused brings
        passed =
      let corr = task_id env outside s p in
      let start = consuming env outside s p in
      let request = request_of s (reply_queue env outside s p) corr in
      let (done, fails) = route-fails env request shard start once marked in
      let (same, waits) =
        handle_submit_task-routed env outside s p redis limiter store shard named picked done h in
      let (reports, refused, kept) =
        worker-rejects env faithful id s.task _ corr t wp queue unused in
      let (x, answer, status) =
        wait_for_feedback-reading env outside s.task corr (bytes "dlq") _ seen later
          (brings ∙ ap (λ l. seen ++ (l ++ later)) reports) passed (λ e. cc) in
      (
        ap (λ x. sent_to [] (resilient_queue_of shard) x.calls) same ∙ fails,
        refused,
        kept,
        x,
        waits ∙ answer,
        status,
      )
