-- ===== src/Gateway/Answer.antt =====
-- gateway/server.go, `handleSubmitTask`: an admitted task is published and waited for.
use std.Path.{subst}
use distributed_messaging_sy.Base.{
  ◌≡◌, ◌≢◌, refl, ◌∙◌, ap, sym, false, true, is_empty, Bytes, [], ◌∷◌, none, some, arith, returns,
}
use distributed_messaging_sy.Amqp.{Env, consume, queue_declare}
use distributed_messaging_sy.Amqp.Process.{Process}
use distributed_messaging_sy.Amqp.Trace.{sent, sent_to}
use distributed_messaging_sy.Limiter.{Redis, RateLimiter, allow}
use distributed_messaging_sy.Shards.{pick_shard}
use distributed_messaging_sy.DeadLetter.RetryChain.{accepting}
use distributed_messaging_sy.Gateway.Publish.{publish_by_route, auto_detect_and_publish}
use distributed_messaging_sy.Gateway.Routing.{Routes, Publishes, Decodes}
use distributed_messaging_sy.Gateway.Delivery.{auto_detect-shard, auto_detect-Publishes}
use distributed_messaging_sy.Gateway.Submit.{
  random_id, email, Outside, Submission, request_of, wait_for_feedback, submit, with_token,
  handle_submit_task,
}
use distributed_messaging_sy.Gateway.Admission.{Admitted, opened}

is_empty-false : (b : Bytes) → b ≢ [] → is_empty b ≡ false
is_empty-false [] n = absurd (n refl)
is_empty-false (_ ∷ b) n = refl

module _ (env : Env) (outside : Outside) (s : Submission) (p : Process) where
  -- The reply queue that the server names
  abbrev pub reply_queue : Bytes
  reply_queue = env.server_named p.calls

  -- The process once the reply queue is consumed
  abbrev pub consuming : Process
  consuming = record p {
    calls =
        consume reply_queue [] true true false false
        ∷ queue_declare [] false true true false []
        ∷ p.calls;
  }

  abbrev pub task_id : Bytes
  task_id = random_id outside consuming.calls

  wait-keeps : (q : Process) → (wait_for_feedback (accepting env) outside s.task task_id q).1 ≡ q
  unfolding wait_for_feedback
  wait-keeps q = refl

  submit_lem :
      s.task ≢ []
      → (auto_detect_and_publish (accepting env) (request_of s reply_queue task_id) consuming).0
        ≡ returns none
      → submit (accepting env) outside s p
        ≡ wait_for_feedback
            (accepting env)
            outside
            s.task
            task_id
            (auto_detect_and_publish (accepting env) (request_of s reply_queue task_id) consuming).1
  unfolding submit
  submit_lem named done = ground (arith, done, is_empty-false s.task named)

  module _ (redis : Redis) (limiter : RateLimiter) (store : redis.Store) where
    token_lem :
        (user : Bytes)
        → (allow redis limiter user store).0 ≡ some true
        → let r =
            with_token (accepting env) outside redis limiter s (some (email user)) (p, store) in
          (r.0 ≡ (submit (accepting env) outside s p).0)
          × (r.1.0 ≡ (submit (accepting env) outside s p).1)
    unfolding with_token
    token_lem user allowed = ground (arith, allowed)

    admitted_lem :
        Admitted outside redis limiter s store
        → let r = handle_submit_task (accepting env) outside redis limiter s (p, store) in
          (r.0 ≡ (submit (accepting env) outside s p).0)
          × (r.1.0 ≡ (submit (accepting env) outside s p).1)
    admitted_lem h =
        rw (opened (accepting env) outside redis limiter s p store h.posted h.long_enough, h.known)
          (token_lem h.user h.allowed)

    published_lem :
        (e k : Bytes) (q : Process)
        → Publishes (request_of s reply_queue task_id) e k consuming q
        → Publishes (request_of s reply_queue task_id) e k p q
    unfolding sent sent_to
    published_lem e k q h = record { alone = h.alone; addressed = h.addressed; counted = h.counted }

    -- An admitted submission whose publishing succeeds leaves the process as the publishing does, and
    -- is answered by the wait.
    handle_submit_task-waits :
        s.task ≢ []
        → let published =
            auto_detect_and_publish (accepting env) (request_of s reply_queue task_id) consuming in
          published.0 ≡ returns none
          → Admitted outside redis limiter s store
          → let r = handle_submit_task (accepting env) outside redis limiter s (p, store) in
            (r.1.0 ≡ published.1)
            × (r.0 ≡ (wait_for_feedback (accepting env) outside s.task task_id r.1.0).0)
    handle_submit_task-waits named done h =
        let (answered, left) = admitted_lem h in
        let waits = submit_lem named done in
        let same = left ∙ ap (λ r. r.1) waits ∙ wait-keeps _ in
        (
          same,
          answered
              ∙ ap (λ r. r.0) waits
              ∙ ap (λ x. (wait_for_feedback (accepting env) outside s.task task_id x).0) (sym same),
        )

    -- The same with the shard picked
    pub handle_submit_task-routed :
        (shard : Bytes)
        → s.task ≢ []
        → pick_shard s.task ≡ some shard
        → let routed =
            publish_by_route (accepting env) (request_of s reply_queue task_id) shard consuming in
          routed.0 ≡ returns none
          → Admitted outside redis limiter s store
          → let r = handle_submit_task (accepting env) outside redis limiter s (p, store) in
            (r.1.0 ≡ routed.1)
            × (r.0 ≡ (wait_for_feedback (accepting env) outside s.task task_id r.1.0).0)
    handle_submit_task-routed shard named picked done h =
        let detected =
          auto_detect-shard (accepting env) (request_of s reply_queue task_id) shard consuming
            picked in
        let (same, waits) = handle_submit_task-waits named (rw detected done) h in
        (same ∙ ap (λ x. x.1) detected, waits)

    -- Under a broker that takes every call, an admitted submission with a task, whose headers text is
    -- empty or decodes to a table, is published exactly once, to the address of a route that it has
    -- with its shard, under the reply queue that the server named and the identifier drawn for it; and
    -- the client is answered by the wait for feedback under this identifier, after the publishing.
    pub handle_submit_task-Publishes :
        s.task ≢ []
        → Decodes env (request_of s reply_queue task_id)
        → Admitted outside redis limiter s store
        → let r = handle_submit_task (accepting env) outside redis limiter s (p, store) in
          (shard : Bytes) × (pick_shard s.task ≡ some shard)
          × (e : Bytes) × (k : Bytes) × Routes (request_of s reply_queue task_id) shard e k
          × Publishes (request_of s reply_queue task_id) e k p r.1.0
          × (r.0 ≡ (wait_for_feedback (accepting env) outside s.task task_id r.1.0).0)
    handle_submit_task-Publishes named decodes h =
        let (shard, picked, e, k, route, done, once) =
          auto_detect-Publishes env (request_of s reply_queue task_id) consuming decodes in
        let (same, answered) = handle_submit_task-waits named done h in
        (
          shard,
          picked,
          e,
          k,
          route,
          subst (Publishes (request_of s reply_queue task_id) e k p) (sym same)
              (published_lem e k _ once),
          answered,
        )
