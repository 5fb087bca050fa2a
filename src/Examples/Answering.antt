-- ===== src/Examples/Answering.antt =====
-- A client whose task a worker handles, and one whose task is retried until it is given up.
use distributed_messaging_sy.Base.{
  hexadecimal, ◌≤◌, contains, has_prefix, reverse, ap, sym, ◌≡◌, refl, inl, false, bytes, bytes_eq,
  decimal, Bytes, List, [], ◌∷◌, some, returns, arith, map, ◌++◌,
}
use distributed_messaging_sy.Amqp.{get, Delivery, Publishing}
use distributed_messaging_sy.Amqp.Process.{started}
use distributed_messaging_sy.Amqp.Trace.{sent, sent_to, acks, nacks}
use distributed_messaging_sy.Limiter.{allow}
use distributed_messaging_sy.Shards.{pick_shard, fnv32a, fnv_write}
use distributed_messaging_sy.Shards.Range.{pick_shard_total}
use distributed_messaging_sy.Gateway.Publish.{auto_detect_and_publish, publish_by_route, is_pattern}
use distributed_messaging_sy.DeadLetter.{first_retry}
use distributed_messaging_sy.DeadLetter.Queues.{retry_queue_of, resilient_queue_of}
use distributed_messaging_sy.DeadLetter.ResilientWorker.{force_fail, resilient_step}
use distributed_messaging_sy.Gateway.Feedback.Failed.{failing, handle_submit_task-Failed}
use distributed_messaging_sy.DeadLetter.RetryChain.{carry, accepting, reports, relay}
use distributed_messaging_sy.DeadLetter.RetryWorker.{retry_step, requeued, retry_count}
use distributed_messaging_sy.Exchanges.Consuming.{direct, step}
use distributed_messaging_sy.Exchanges.Direct.{publish_direct, direct_step}
use distributed_messaging_sy.Gateway.Submit.{
  random_id, limit, with_token, submit, publish_and_wait, wait_for_feedback, Outside, Submission,
  relay_feedback, handle_submit_task,
}
use distributed_messaging_sy.Gateway.Admission.{Admitted}
use distributed_messaging_sy.Gateway.Limited.{Reaches, published, serve, serve-bounded}
use distributed_messaging_sy.Gateway.Feedback.{reading}
use distributed_messaging_sy.Gateway.Feedback.Served.{subscribed, handle_submit_task-Served}
use distributed_messaging_sy.Gateway.Feedback.Retried.{handle_submit_task-Retried}
use distributed_messaging_sy.Examples.Broker.{lossy, lossy-IsFaithful}
use distributed_messaging_sy.Examples.Limiting.{
  memory-IsRedis, memory-answers, memory, small, client, one_done,
}
use distributed_messaging_sy.Examples.Requesting.{site, by_post, feedback}

-- The reply queue brings some statuses under the identifier 7, after a message without one.
abbrev pub arriving : List Delivery → Outside
arriving ds = record site { arrivals = λ _. feedback [] (bytes "success") ∷ ds }

abbrev pub marked : Bytes → Bytes → Submission
marked retry fail = record by_post { retry = retry; fail = fail }

marked-Admitted :
    (ds : List Delivery) (retry fail : Bytes)
    → Admitted (arriving ds) memory small (marked retry fail) one_done
unfolding bytes bytes_eq allow
marked-Admitted ds retry fail = record {
  posted = refl;
  long_enough = omega arith;
  user = client;
  known = refl;
  allowed = refl;
}

abbrev pub done : List Delivery
done = feedback (bytes "7") (bytes "success") ∷ []

abbrev retries : List Delivery
retries =
    feedback (bytes "7") (bytes "retry")
    ∷ feedback (bytes "7") (bytes "retry")
    ∷ feedback (bytes "7") (bytes "retry")
    ∷ feedback (bytes "7") (bytes "dlq")
    ∷ []

-- A task for the direct exchange
abbrev pub message : Publishing
message = record {
  headers = [];
  persistent = false;
  content_type = bytes "text/plain";
  body = bytes "resize";
  reply_to = bytes "amq.gen-1";
  correlation_id = bytes "7";
}

published_lem :
    sent
      (handle_submit_task
        (accepting lossy)
        (arriving done)
        memory
        small
        (marked [] [])
        (started, one_done)).1.0.calls
    ≡ message ∷ []
unfolding bytes bytes_eq sent handle_submit_task with_token limit submit publish_and_wait
    wait_for_feedback auto_detect_and_publish publish_by_route publish_direct is_pattern contains
    has_prefix pick_shard fnv32a fnv_write decimal allow random_id hexadecimal
published_lem = refl

retries_lem :
    reverse (
        reports lossy
          (bytes "amq.gen-1")
          (relay
            (accepting lossy)
            (bytes "task_shard_1_retry_5s")
            (bytes "worker-1")
            (1 ∷ 2 ∷ 3 ∷ 4 ∷ [])
            (first_retry (bytes "resize") (bytes "amq.gen-1") (bytes "7"))
            started).0)
      ++ []
    ≡ map (reading lossy) retries
unfolding bytes bytes_eq sent_to relay retry_step requeued first_retry retry_count get
retries_lem = refl

handle_submit_task-Served_example :
    let r =
      handle_submit_task
        (accepting lossy)
        (arriving done)
        memory
        small
        (marked [] [])
        (started, one_done) in
    (x : Delivery) × (r.0 ≡ returns (some (relay_feedback x))) × (x.body ≡ bytes "success")
unfolding bytes bytes_eq step direct_step sent sent_to fnv32a decimal random_id hexadecimal
handle_submit_task-Served_example =
    handle_submit_task-Served lossy lossy-IsFaithful (arriving done) (marked [] []) started memory
      small one_done (subscribed direct) 1 message [] started (([], bytes "success") ∷ []) []
      (λ e. cc) (λ e. cc) (inl refl) (marked-Admitted done [] []) published_lem refl refl
      (inl (λ e. cc), tt)

handle_submit_task-Retried_example :
    let r =
      handle_submit_task
        (accepting lossy)
        (arriving retries)
        memory
        small
        (marked (bytes "1") [])
        (started, one_done) in
    (sent_to (bytes "retry_exchange") (bytes "task_shard_1_retry_5s") r.1.0.calls
      ≡ first_retry (bytes "resize") (bytes "amq.gen-1") (bytes "7") ∷ [])
    × (x : Delivery) × (r.0 ≡ returns (some (relay_feedback x)))
    × (x.body ≡ bytes "dlq")
unfolding bytes bytes_eq sent_to retry_queue_of decimal fnv32a random_id hexadecimal
handle_submit_task-Retried_example =
    handle_submit_task-Retried lossy lossy-IsFaithful (arriving retries) (marked (bytes "1") [])
      started memory small one_done (bytes "task_shard_1") (bytes "worker-1") 1 2 3 4 started
      (([], bytes "success") ∷ []) [] refl (λ e. cc) (λ e. cc) (pick_shard_total (bytes "resize")).2
      (marked-Admitted retries (bytes "1") []) refl
      (ap (◌∷◌ ([], bytes "success")) (sym retries_lem)) (inl (λ e. cc), tt)

abbrev given_up : List Delivery
given_up = feedback (bytes "7") (bytes "dlq") ∷ []

handle_submit_task-Failed_example :
    let r =
      handle_submit_task
        (accepting lossy)
        (arriving given_up)
        memory
        small
        (marked [] (bytes "1"))
        (started, one_done) in
    let m = failing (bytes "resize") (bytes "amq.gen-1") (bytes "7") in
    let worked = (resilient_step (accepting lossy) (bytes "worker-1") (carry 1 m) started).1 in
    (sent_to [] (bytes "resilient_task_shard_1") r.1.0.calls ≡ m ∷ [])
    × (nacks 1 worked.calls ≡ 1)
    × (acks 1 worked.calls ≡ 0)
    × (x : Delivery) × (r.0 ≡ returns (some (relay_feedback x)))
    × (x.body ≡ bytes "dlq")
unfolding bytes bytes_eq sent_to nacks acks resilient_queue_of resilient_step force_fail get decimal
    fnv32a random_id hexadecimal
handle_submit_task-Failed_example =
    handle_submit_task-Failed lossy lossy-IsFaithful (arriving given_up) (marked [] (bytes "1"))
      started memory small one_done (bytes "task_shard_1") (bytes "worker-1") 1 started
      (([], bytes "success") ∷ []) [] (λ e. cc) refl (λ e. cc) (λ e. cc)
      (pick_shard_total (bytes "resize")).2 (marked-Admitted given_up [] (bytes "1")) refl refl
      (inl (λ e. cc), tt)

by_post-Reaches : Reaches site client by_post
unfolding bytes bytes_eq
by_post-Reaches = record { posted = refl; long_enough = omega arith; known = refl }

-- Five submissions, of which one was counted before
serve-bounded_example :
    published
      (serve lossy site memory small
        ((1000, by_post) ∷ (59000, by_post) ∷ (0, by_post) ∷ (59999, by_post) ∷ (10, by_post) ∷ [])
        started
        one_done).0
    ≤ 2
unfolding sent
serve-bounded_example =
    serve-bounded lossy site memory memory-IsRedis small client memory-answers 1000 by_post
      ((59000, by_post) ∷ (0, by_post) ∷ (59999, by_post) ∷ (10, by_post) ∷ []) started one_done
      by_post-Reaches
      (
        (omega arith, by_post-Reaches),
        (
          (omega arith, by_post-Reaches),
          ((omega arith, by_post-Reaches), ((omega arith, by_post-Reaches), tt)),
        ),
      )
