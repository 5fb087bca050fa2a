-- ===== src/Gateway/Feedback/Served.antt =====
-- gateway/server.go and the workers: a task that a worker handles is answered with the worker's
-- feedback.
use distributed_messaging_sy.Base.{
  ℕ, ◌≡◌, ◌≢◌, ◌∙◌, ap, sym, bytes_eq_iff, bytes_eq_refl, All, map, Bytes, bytes, List, [], ◌∷◌,
  ◌++◌, some, returns, arith,
}
use distributed_messaging_sy.Amqp.{Env, Delivery, Publishing, IsFaithful, status_only}
use distributed_messaging_sy.Amqp.Process.{Process, Act}
use distributed_messaging_sy.Amqp.Trace.{sent, sent_to}
use distributed_messaging_sy.Limiter.{Redis, RateLimiter}
use distributed_messaging_sy.DeadLetter.RetryChain.{accepting, carry}
use distributed_messaging_sy.WorkQueue.{task_step, success_by}
use distributed_messaging_sy.Exchanges.Consuming.{Exchange, step}
use distributed_messaging_sy.Gateway.Routing.{Decodes}
use distributed_messaging_sy.Gateway.Submit.{
  Outside, Submission, request_of, relay_feedback, handle_submit_task,
}
use distributed_messaging_sy.Gateway.Admission.{Admitted}
use distributed_messaging_sy.Gateway.Answer.{reply_queue, task_id, handle_submit_task-Publishes}
use distributed_messaging_sy.Gateway.Feedback.{
  Reading, reading, told, Passed, wait_for_feedback-reading,
}

-- Who handles a task that is marked neither for retry nor to fail
pub data Worker : Type 0 where
  sharded : (id : Bytes) → Worker  -- a task worker of a shard
  subscribed : Exchange → Worker

abbrev pub work : Env → Worker → Delivery → Act (Unit {0})
work env (sharded id) d = task_step env id d
work env (subscribed x) d = step env x d

module _ (env : Env) (faithful : IsFaithful env) where
  work-told :
      (w : Worker) (d : Delivery) (p : Process)
      → d.reply_to ≢ []
      → sent_to [] d.reply_to p.calls ≡ []
      → told env d.reply_to (work (accepting env) w d p).1
        ≡ (d.correlation_id, bytes "success") ∷ []
  unfolding sent_to task_step step
  work-told (sharded id) d p n unused = ground (
    arith,
    bytes_eq_refl d.reply_to,
    bytes_eq_refl [],
    bytes_eq_iff d.reply_to [],
    unused,
    faithful.status_of-marshal (success_by id),
  )
  work-told (subscribed x) d p n unused = ground (
    arith,
    bytes_eq_refl d.reply_to,
    bytes_eq_refl [],
    bytes_eq_iff d.reply_to [],
    unused,
    faithful.status_of-marshal (status_only (bytes "success")),
  )

module _ (env : Env) (faithful : IsFaithful env) (outside : Outside) (s : Submission) (p : Process)
    (redis : Redis) (limiter : RateLimiter) (store : redis.Store) where
  -- The message of the submission names its reply queue and its identifier.
  addressed_lem :
      (m : Publishing) (before : List Publishing)
      → s.task ≢ []
      → Decodes env (request_of s (reply_queue env outside s p) (task_id env outside s p))
      → Admitted outside redis limiter s store
      → let r = handle_submit_task (accepting env) outside redis limiter s (p, store) in
        sent r.1.0.calls ≡ m ∷ before
        → (m.reply_to ≡ reply_queue env outside s p) × (m.correlation_id ≡ task_id env outside s p)
  addressed_lem m before named decodes h e =
      let (_, _, _, _, _, once, _) =
        handle_submit_task-Publishes env outside s p redis limiter store named decodes h in
      let alone = once.alone in (cc, cc)

  -- Where the broker takes every call, names the reply queue, and a marshalled feedback is read back
  -- with its status: an admitted submission with a task, whose headers text is empty or decodes to a
  -- table, is answered with a feedback of status "success", if its message, whatever the route, is
  -- handed to a task worker or to a worker of an exchange that has sent nothing to the reply queue
  -- before, and the reply queue brings what the worker reports, after messages that end no wait.
  pub handle_submit_task-Served :
      (w : Worker) (t : ℕ) (m : Publishing) (before : List Publishing) (wp : Process)
      (seen later : List Reading)
      → s.task ≢ []
      → reply_queue env outside s p ≢ []
      → Decodes env (request_of s (reply_queue env outside s p) (task_id env outside s p))
      → Admitted outside redis limiter s store
      → let r = handle_submit_task (accepting env) outside redis limiter s (p, store) in
        sent r.1.0.calls ≡ m ∷ before
        → sent_to [] (reply_queue env outside s p) wp.calls ≡ []
        → map (reading env) (outside.arrivals r.1.0.calls)
          ≡ seen
            ++ (told env (reply_queue env outside s p) (work (accepting env) w (carry t m) wp).1
                ++ later)
        → All (Passed (task_id env outside s p)) seen
        → (x : Delivery) × (r.0 ≡ returns (some (relay_feedback x)))
          × (env.status_of x.body ≡ bytes "success")
  unfolding bytes
  handle_submit_task-Served w t m before wp seen later named queue decodes h e unused brings
        passed =
      let (to, under) = addressed_lem m before named decodes h e in
      let (_, _, _, _, _, _, waits) =
        handle_submit_task-Publishes env outside s p redis limiter store named decodes h in
      let reports =
        work-told env faithful w (carry t m) wp (λ none_named. queue (sym to ∙ none_named))
          (rw (to) unused) in
      let told_lem : told env (reply_queue env outside s p)
            (work (accepting env) w (carry t m) wp).1
          ≡ (task_id env outside s p, bytes "success") ∷ [] =
        cc in
      let (x, answer, status) =
        wait_for_feedback-reading env outside s.task (task_id env outside s p) (bytes "success") _
          seen later (brings ∙ ap (λ l. seen ++ (l ++ later)) told_lem) passed (λ e. cc) in
      (x, waits ∙ answer, status)
