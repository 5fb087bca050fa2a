-- ===== src/System/Submitted.antt =====
-- load_balancer.go, gateway/server.go and the workers: a task that is submitted through the balancer.
use distributed_messaging_sy.Base.{
  refl, ℕ, ◌≡◌, ◌≢◌, ◌∙◌, ap, map, All, bytes_eq_refl, Bytes, bytes, List, [], ◌∷◌, ◌++◌, Option,
  some, Outcome, Response, returns,
}
use distributed_messaging_sy.Amqp.{Env, Delivery, Publishing, IsFaithful}
use distributed_messaging_sy.Amqp.Process.{Process}
use distributed_messaging_sy.Amqp.Trace.{sent, sent_to}
use distributed_messaging_sy.Limiter.{Redis, RateLimiter}
use distributed_messaging_sy.DeadLetter.RetryChain.{accepting, carry}
use distributed_messaging_sy.Balancer.{Balancer, Incoming, proxy_handler, relay_reply}
use distributed_messaging_sy.Gateway.Routing.{Decodes}
use distributed_messaging_sy.Gateway.Submit.{
  Submission, Outside, request_of, relay_feedback, handle_submit_task,
}
use distributed_messaging_sy.Gateway.Admission.{Admitted}
use distributed_messaging_sy.Gateway.Answer.{reply_queue, task_id}
use distributed_messaging_sy.Gateway.Feedback.{Reading, reading, told, Passed}
use distributed_messaging_sy.Gateway.Feedback.Served.{Worker, work, handle_submit_task-Served}
use distributed_messaging_sy.Gateway.Pages.{serve_path}
use distributed_messaging_sy.System.{Cluster, replay, gateways_net, reply_of}
use distributed_messaging_sy.System.Through.{
  Connects, process_of, served, met, proxy_handler-delegates,
}

serve_path-submit :
    (env : Env) (outside : Outside) (redis : Redis) (limiter : RateLimiter)
    (collectors : Process → Response) (path : Bytes) (s : Submission) (p : Process)
    (store : redis.Store)
    → path ≡ bytes "/submit-task"
    → serve_path env outside redis limiter collectors path s (p, store)
      ≡ handle_submit_task env outside redis limiter s (p, store)
unfolding serve_path
serve_path-submit env outside redis limiter collectors path s p store e =
    rw (e, bytes_eq_refl (bytes "/submit-task")) refl

module _ (redis : Redis) (c : Cluster redis) (r : Incoming) (body y : Bytes) (p : Process)
    (b : Balancer) (h : Connects redis c r body y p b) (env : Env) (faithful : IsFaithful env) where
  -- The submission that the gateway reads
  abbrev submitted : Submission
  submitted = c.read_form r.method body r.headers

  -- The store that it meets
  abbrev store : redis.Store
  store = met redis c r body y p b h

  -- The queue for the feedback, and the identifier of the task
  abbrev queue : Bytes
  queue = reply_queue env (c.outside y) submitted p

  abbrev id : Bytes
  id = task_id env (c.outside y) submitted p

  -- What the gateway does
  abbrev handled : Outcome (Option Response) × (Process × redis.Store)
  handled = handle_submit_task (accepting env) (c.outside y) redis c.limiter submitted (p, store)

  -- Where the request of a client meets a gateway whose turn it is, reads there as an admitted
  -- submission with a task, whose headers text is empty or decodes to a table, and asks for
  -- "/submit-task"; where the gateway's broker takes every call and names the reply queue, and a
  -- marshalled feedback is read back with its status: if the message of the submission, whatever the
  -- route, is handed to a task worker or to a worker of an exchange that has sent nothing to the reply
  -- queue before, and the reply queue brings what the worker reports, after messages that end no wait,
  -- then the balancer answers the client with the feedback that the gateway relays, of status
  -- "success", and the gateway is left as its handler leaves it.
  pub proxy_handler-Served :
      (w : Worker) (t : ℕ) (m : Publishing) (wp : Process) (seen later : List Reading)
      → r.path ≡ bytes "/submit-task"
      → c.env y ≡ accepting env
      → submitted.task ≢ []
      → queue ≢ []
      → Decodes env (request_of submitted queue id)
      → Admitted (c.outside y) redis c.limiter submitted store
      → sent handled.1.0.calls ≡ m ∷ sent p.calls
      → sent_to [] queue wp.calls ≡ []
      → map (reading env) ((c.outside y).arrivals handled.1.0.calls)
        ≡ seen ++ (told env queue (work (accepting env) w (carry t m) wp).1 ++ later)
      → All (Passed id) seen
      → let after = proxy_handler (gateways_net redis c) r b in
        (x : Delivery) × (after.0 ≡ returns (relay_reply (some (reply_of (relay_feedback x)))))
        × (env.status_of x.body ≡ bytes "success")
        × (process_of y (replay redis c after.1.requests).gateways ≡ some handled.1.0)
  proxy_handler-Served w t m wp seen later path broker named has_queue decodes admitted e unused
        brings passed =
      let (x, answer, status) =
        handle_submit_task-Served env faithful (c.outside y) submitted p redis c.limiter store w t m
          (sent p.calls) wp seen later named has_queue decodes admitted e unused brings passed in
      let at =
        serve_path-submit (c.env y) (c.outside y) redis c.limiter c.collectors r.path submitted p
          store path in
      let same : served redis c y r.path submitted p store ≡ handled = rw (at, broker) refl in
      let (replied, left, _) =
        proxy_handler-delegates redis c r body y p b h (relay_feedback x)
          (ap (λ a. a.0) same ∙ answer) in
      (x, replied, status, left ∙ ap (λ a. some a.1.0) same)
