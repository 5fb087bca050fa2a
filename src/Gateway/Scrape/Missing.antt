-- ===== src/Gateway/Scrape/Missing.antt =====
-- gateway/server.go, `metricsHandler`: the queue task_queue, which the gateway never declares.
use distributed_messaging_sy.Base.{
  ℕ, ◌≡◌, refl, false, Bytes, bytes, List, ◌++◌, some, returns, ◌>>◌, http_error, unwritten, arith,
  has_prefix,
}
use distributed_messaging_sy.Amqp.{Env, Call, Error, queue_inspect}
use distributed_messaging_sy.Amqp.Process.{Process, started}
use distributed_messaging_sy.WorkQueue.{auto_scaler}
use distributed_messaging_sy.Gateway.Start.{Machine, start_gateway}
use distributed_messaging_sy.Gateway.Start.Sequence.{then_lem}
use distributed_messaging_sy.Gateway.Scrape.{metrics_handler}
use distributed_messaging_sy.Gateway.Scrape.Lacking.{is_declared, Lacks, scaler-Lacks, start-Lacks}

-- The broker documents of the passive declaration that `QueueInspect` makes: it is an error for a
-- queue that does not exist. There are only the queues that this process declares, and those that the
-- broker names itself, with "amq." in front.
pub record IsPassive (env : Env) : Type 0 where
  pub refuses :
      (q : Bytes) (cs : List Call)
      → has_prefix q (bytes "amq.") ≡ false
      → is_declared q cs ≡ false
      → (e : Error) × (env.fails cs (queue_inspect q) ≡ some e)

module _ (env : Env) where
  page_lem :
      (p : Process) (e : Error)
      → env.fails p.calls (queue_inspect (bytes "task_queue")) ≡ some e
      → (metrics_handler env p).0
        ≡ returns (http_error (bytes "QueueInspect error: " ++ e) 500 unwritten)
  unfolding metrics_handler
  page_lem p e h = ground (arith, h)

-- With a broker that refuses to inspect a queue that neither it nor the process has made: after the
-- start of the gateway, on any machine, and any number of rounds of its auto-scaler, the metrics page answers with
-- status 500 and the broker's error.
pub metrics_handler-fails :
    (env : Env) (m : Machine) (n : ℕ)
    → IsPassive env
    → let p = ((start_gateway env m >> auto_scaler env 1000 5 2 n) started).1 in
      (e : Error) × ((metrics_handler env p).0
        ≡ returns (http_error (bytes "QueueInspect error: " ++ e) 500 unwritten))
unfolding is_declared bytes has_prefix
metrics_handler-fails env m n passive =
    let p₁ = (start_gateway env m started).1 in
    let p = ((start_gateway env m >> auto_scaler env 1000 5 2 n) started).1 in
    let lacks =
      then_lem Lacks (start_gateway env m) (auto_scaler env 1000 5 2 n) started
        (start-Lacks env m started refl)
        (λ r. scaler-Lacks env 1000 5 2 n p₁ (start-Lacks env m started refl)) in
    let (e, refused) = passive.refuses (bytes "task_queue") p.calls refl lacks in
    (e, page_lem env p e refused)
