-- ===== src/Examples/Clustering.antt =====
-- A balancer with two gateways.
use distributed_messaging_sy.Base.{
  ◌<◌, contains, has_prefix, ◌≡◌, ◌≤◌, ◌+◌, ◌⊎◌, refl, inl, ltb, length, bytes, bytes_eq,
  if◌then◌else◌, Bytes, List, [], ◌∷◌, Option, none, some, returns, arith, http_error, unwritten,
  hexadecimal, decimal,
}
use distributed_messaging_sy.Amqp.{Delivery}
use distributed_messaging_sy.Amqp.Process.{started}
use distributed_messaging_sy.Amqp.Trace.{sent, sent_to}
use distributed_messaging_sy.DeadLetter.RetryChain.{accepting}
use distributed_messaging_sy.Limiter.{allow}
use distributed_messaging_sy.Gateway.Admission.{Admitted}
use distributed_messaging_sy.Gateway.Pages.{serve_path}
use distributed_messaging_sy.Gateway.Publish.{auto_detect_and_publish, publish_by_route, is_pattern}
use distributed_messaging_sy.Exchanges.Direct.{publish_direct}
use distributed_messaging_sy.Shards.{pick_shard, fnv32a, fnv_write}
use distributed_messaging_sy.Balancer.{
  Incoming, Balancer, Reply, Sent, probe, forward, get_next_backend, proxy_body, proxy_loop,
  try_target, health_check, prune_dead_gateways, prune_each, proxy_handler, relay_reply,
}
use distributed_messaging_sy.Balancer.Accounting.{one_if_some}
use distributed_messaging_sy.Exchanges.Consuming.{direct, step}
use distributed_messaging_sy.Exchanges.Direct.{direct_step}
use distributed_messaging_sy.Gateway.Register.{Fate, answered, unanswered}
use distributed_messaging_sy.Gateway.Submit.{
  slice_from, await, limit, with_token, submit, publish_and_wait, wait_for_feedback, random_id,
  relay_feedback, handle_submit_task,
}
use distributed_messaging_sy.Gateway.Feedback.Served.{subscribed}
use distributed_messaging_sy.System.{deliver, handle_at, Cluster, replay, gateways_net, reply_of}
use distributed_messaging_sy.System.Once.{broken, sent_after, proxy_handler-publishes_once}
use distributed_messaging_sy.System.Through.{Connects, process_of}
use distributed_messaging_sy.System.Limited.{Asks, InName, span, perform_all-limited}
use distributed_messaging_sy.Balancer.History.{Operation, proxy, prune, perform_all}
use distributed_messaging_sy.System.Submitted.{proxy_handler-Served}
use distributed_messaging_sy.Examples.Broker.{lossy, lossy-IsFaithful}
use distributed_messaging_sy.Examples.Limiting.{
  memory-IsRedis, memory-answers, memory, small, client, one_done,
}
use distributed_messaging_sy.Examples.Requesting.{by_post}
use distributed_messaging_sy.Examples.Answering.{arriving, done, message, marked}
use distributed_messaging_sy.Examples.Balancing
use distributed_messaging_sy.Examples.Balancing.{any, both}

abbrev located : Bytes → Option (Bytes × Bytes)
located url =
    if bytes_eq url (bytes ":1/health")
    then some (bytes ":1", bytes "/health")
    else if bytes_eq url (bytes ":2/health")
    then some (bytes ":2", bytes "/health")
    else if bytes_eq url (bytes ":1/submit-task")
    then some (bytes ":1", bytes "/submit-task")
    else if bytes_eq url (bytes ":2/submit-task")
    then some (bytes ":2", bytes "/submit-task")
    else none

-- `r.Header.Get`
abbrev header : Bytes → List (Bytes × Bytes) → Bytes
header k [] = []
header k ((j, v) ∷ hs) = if bytes_eq j k then v else header k hs

-- Two gateways, which nothing has reached yet, and a form with the field `task` alone
abbrev cluster : (List Sent → Sent → Fate) → Cluster memory
cluster fate = record {
  limiter = small;
  env = λ _. accepting lossy;
  outside = λ _. arriving done;
  collectors = λ _. unwritten;
  read_form = λ method body headers. record by_post {
    method = method;
    authorization = header (bytes "Authorization") headers;
    task = slice_from 5 body;
  };
  locate = located;
  well_formed = any;
  fate = fate;
  idle = λ h. 2;
  begun = record {
    gateways = (bytes ":1", started) ∷ (bytes ":2", started) ∷ [];
    store = one_done;
  };
}

abbrev resize : Incoming
resize = record Balancing.submit {
  headers = (bytes "Authorization", bytes "Bearer t0ken") ∷ [];
  body = some (bytes "task=resize");
}

abbrev reliable : List Sent → Sent → Fate
reliable _ _ = answered

-- The answer to the first request that is sent on is lost.
abbrev loses_one : List Sent → Sent → Fate
loses_one h (probe url) = answered
loses_one h (forward method url body headers) = if ltb (length h) 2 then unanswered else answered

proxy_handler-publishes_once_example :
    let c = cluster loses_one in
    let after = proxy_handler (gateways_net memory c) resize both in
    ((after.0 ≡ returns (http_error (bytes "No registered gateways") 503 unwritten))
      × (after.1 ≡ both))
    ⊎ ((reply : Option Reply) × (after.0 ≡ returns (relay_reply reply))
        × (sent_after memory c after.1.requests + broken memory c both.requests
            ≤ sent_after memory c both.requests
              + broken memory c after.1.requests
              + one_if_some reply))
proxy_handler-publishes_once_example =
    proxy_handler-publishes_once memory (cluster loses_one) resize (bytes "task=resize") both refl

abbrev turn : Balancer
turn = record both { current = 0 }

turn-Connects :
    Connects memory (cluster reliable) resize (bytes "task=resize") (bytes ":2") started turn
unfolding bytes bytes_eq get_next_backend process_of replay
turn-Connects = record {
  whole = refl;
  chosen = refl;
  named = λ e. cc;
  checked_at = refl;
  sent_to = refl;
  well_formed = refl;
  check_answered = refl;
  answered_at = refl;
  found = refl;
}

-- The store four milliseconds later
abbrev later : memory.Store
later = memory.elapse 2 (memory.elapse 2 one_done)

later-Admitted : Admitted (arriving done) memory small (marked [] []) later
unfolding bytes bytes_eq allow
later-Admitted = record {
  posted = refl;
  long_enough = omega arith;
  user = client;
  known = refl;
  allowed = refl;
}

sent_lem :
    sent
      (handle_submit_task
        (accepting lossy)
        (arriving done)
        memory
        small
        (marked [] [])
        (started, later)).1.0.calls
    ≡ message ∷ []
unfolding bytes bytes_eq sent handle_submit_task with_token limit submit publish_and_wait
    wait_for_feedback auto_detect_and_publish publish_by_route publish_direct is_pattern contains
    has_prefix pick_shard fnv32a fnv_write decimal allow random_id hexadecimal
sent_lem = refl

proxy_handler-Served_example :
    let c = cluster reliable in
    let after = proxy_handler (gateways_net memory c) resize turn in
    (x : Delivery) × (after.0 ≡ returns (relay_reply (some (reply_of (relay_feedback x)))))
    × (x.body ≡ bytes "success")
    × (process_of (bytes ":2") (replay memory c after.1.requests).gateways
        ≡ some
            (handle_submit_task
              (accepting lossy)
              (arriving done)
              memory
              small
              (marked [] [])
              (started, later)).1.0)
unfolding bytes bytes_eq step direct_step sent sent_to fnv32a decimal random_id hexadecimal replay
proxy_handler-Served_example =
    proxy_handler-Served memory (cluster reliable) resize (bytes "task=resize") (bytes ":2") started
      turn turn-Connects lossy lossy-IsFaithful (subscribed direct) 1 message started
      (([], bytes "success") ∷ []) [] refl refl (λ e. cc) (λ e. cc) (inl refl) later-Admitted
      sent_lem refl refl (inl (λ e. cc), tt)

resize-Asks : Asks memory (cluster loses_one) client (proxy resize)
unfolding bytes bytes_eq Asks
resize-Asks body e a = inl (record { posted = refl; long_enough = omega arith; known = refl })

abbrev busy : List Operation
busy = proxy resize ∷ prune ∷ proxy resize ∷ []

abbrev busy_requests : List Sent
busy_requests = (perform_all (gateways_net memory (cluster loses_one)) busy both).requests

busy-short : span memory (cluster loses_one) busy_requests < 60000
unfolding bytes bytes_eq replay span proxy_handler proxy_body proxy_loop try_target health_check
    get_next_backend prune_dead_gateways prune_each deliver handle_at serve_path handle_submit_task
    with_token limit submit publish_and_wait wait_for_feedback await auto_detect_and_publish
    publish_by_route publish_direct is_pattern contains has_prefix pick_shard fnv32a fnv_write
    decimal allow random_id hexadecimal
busy-short = omega arith

perform_all-limited_example :
    sent_after memory (cluster loses_one) busy_requests
    ≤ sent_after memory (cluster loses_one) [] + 2
unfolding Asks InName
perform_all-limited_example =
    perform_all-limited memory memory-IsRedis (cluster loses_one) client memory-answers busy both
      (resize-Asks, (tt, (resize-Asks, tt))) tt busy-short
