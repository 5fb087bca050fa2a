-- ===== src/Examples/Requesting.antt =====
-- Submissions over HTTP, and messages that the broker returns.
use distributed_messaging_sy.Base.{
  hexadecimal, ◌≡◌, refl, inl, false, bytes, bytes_eq, if◌then◌else◌, length, Bytes, List, [], ◌∷◌,
  some, none, returns, arith,
}
use distributed_messaging_sy.Amqp.{Delivery}
use distributed_messaging_sy.Amqp.Process.{started}
use distributed_messaging_sy.Amqp.Trace.{sent_to}
use distributed_messaging_sy.Limiter.{allow}
use distributed_messaging_sy.Shards.{pick_shard}
use distributed_messaging_sy.DeadLetter.RetryChain.{accepting}
use distributed_messaging_sy.Gateway.Routing.{Routes, Publishes}
use distributed_messaging_sy.Gateway.Returned.{Return, forwarded, return_loop}
use distributed_messaging_sy.Gateway.Unroutable.{return_loop-forwards}
use distributed_messaging_sy.Gateway.Submit.{
  random_id, email, Outside, Submission, request_of, wait_for_feedback, handle_submit_task,
}
use distributed_messaging_sy.Gateway.Admission.{Admitted, unadmitted-idle}
use distributed_messaging_sy.Gateway.Answer.{handle_submit_task-Publishes}
use distributed_messaging_sy.Examples.Broker.{lossy}
use distributed_messaging_sy.Examples.Limiting.{memory, small, client, one_done}

abbrev returned : Return
returned = record {
  content_type = bytes "text/plain";
  body = bytes "resize";
  reply_to = bytes "amq.gen-1";
  correlation_id = bytes "7";
}

return_loop-forwards_example :
    let r = return_loop lossy (returned ∷ []) started in
    (r.0 ≡ returns tt)
    × (sent_to (bytes "dlx_exchange") (bytes "dead_task") r.1.calls ≡ forwarded returned ∷ [])
    × (length (sent_to [] (bytes "amq.gen-1") r.1.calls) ≡ 1)
    × (r.1.metrics.dlx_messages ≡ 1)
unfolding bytes bytes_eq sent_to
return_loop-forwards_example =
    return_loop-forwards lossy (returned ∷ []) (bytes "amq.gen-1") started (λ e. cc)

-- Feedback under an identifier
abbrev pub feedback : Bytes → Bytes → Delivery
feedback id status = record {
  tag = 1;
  headers = [];
  content_type = bytes "application/json";
  body = status;
  reply_to = [];
  correlation_id = id;
}

abbrev replies : List Delivery
replies =
    feedback (bytes "7") (bytes "retry")
    ∷ feedback (bytes "8") (bytes "success")
    ∷ feedback (bytes "7") (bytes "dlq")
    ∷ []

-- One token is valid, and the identifier of every task is 7.
abbrev pub site : Outside
site = record {
  parse_jwt = λ t. if bytes_eq t (bytes "t0ken") then some (email client) else none;
  random = λ _. 7;
  arrivals = λ _. replies;
  closed = λ _. false;
}

abbrev pub by_post : Submission
by_post = record {
  method = bytes "POST";
  authorization = bytes "Bearer t0ken";
  task = bytes "resize";
  routing_key = bytes "images";
  headers_json = [];
  fail = [];
  retry = [];
  broadcast = [];
}

by_post-Admitted : Admitted site memory small by_post one_done
unfolding bytes bytes_eq allow
by_post-Admitted = record {
  posted = refl;
  long_enough = omega arith;
  user = client;
  known = refl;
  allowed = refl;
}

unadmitted-idle_example :
    (handle_submit_task lossy site memory small
      (record by_post { method = bytes "GET" })
      (started, one_done)).1.0
    ≡ started
unfolding bytes
unadmitted-idle_example =
    unadmitted-idle lossy site memory small (record by_post { method = bytes "GET" }) started
      one_done (λ h. ground (arith, h.posted))

handle_submit_task-Publishes_example :
    let r = handle_submit_task (accepting lossy) site memory small by_post (started, one_done) in
    let request = request_of by_post (bytes "amq.gen-1") (bytes "7") in
    (shard : Bytes) × (pick_shard (bytes "resize") ≡ some shard)
    × (e : Bytes) × (k : Bytes) × Routes request shard e k
    × Publishes request e k started r.1.0
    × (r.0 ≡ (wait_for_feedback (accepting lossy) site (bytes "resize") (bytes "7") r.1.0).0)
unfolding bytes random_id hexadecimal
handle_submit_task-Publishes_example =
    handle_submit_task-Publishes lossy site by_post started memory small one_done (λ e. cc)
      (inl refl) by_post-Admitted
