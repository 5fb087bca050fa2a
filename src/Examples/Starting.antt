-- ===== src/Examples/Starting.antt =====
-- A gateway that starts.
use distributed_messaging_sy.Base.{
  ◌≡◌, bytes, if◌then◌else◌, ◌++◌, Option, none, some, returns, ◌>>◌, http_error, unwritten, List,
  [], true, refl,
}
use distributed_messaging_sy.Amqp.{Env, Call, Error, queue_inspect}
use distributed_messaging_sy.Amqp.Process.{started}
use distributed_messaging_sy.DeadLetter.RetryChain.{accepting}
use distributed_messaging_sy.WorkQueue.{auto_scaler}
use distributed_messaging_sy.Gateway.Start.{Machine, start_gateway}
use distributed_messaging_sy.Gateway.Start.Order.{IsOrdered}
use distributed_messaging_sy.Amqp.Connect.{IsConnected}
use distributed_messaging_sy.Gateway.Start.Main.{
  gateway_main, gateway_main-IsOrdered, gateway_main-Served,
}
use distributed_messaging_sy.Gateway.Start.Serving.{served_queues, Served}
use distributed_messaging_sy.Gateway.Scrape.{metrics_handler}
use distributed_messaging_sy.Gateway.Scrape.Lacking.{is_declared}
use distributed_messaging_sy.Gateway.Scrape.Missing.{IsPassive, metrics_handler-fails}
use distributed_messaging_sy.Examples.Broker.{lossy}

-- The log opens, and each pause has a round of the auto-scaler.
abbrev scaling : Machine
scaling = record { opens_log = true; scaler_rounds = λ _. 1 }

gateway_main-IsOrdered_example :
    let calls = (gateway_main lossy scaling none started).1.calls in
    IsConnected lossy calls × IsOrdered lossy calls
unfolding IsConnected IsOrdered
gateway_main-IsOrdered_example = gateway_main-IsOrdered lossy scaling none started tt tt

gateway_main-Served_example :
    let r = gateway_main (accepting lossy) scaling (some 40001) started in
    (r.0 ≡ returns 40001) × Served served_queues [] r.1.calls
gateway_main-Served_example = gateway_main-Served lossy scaling 40001 started refl

-- The broker takes every call but the inspection of a queue that was not declared.
abbrev inspected : List Call → Call → Option Error
inspected cs (queue_inspect q) = if is_declared q cs then none else some (bytes "404 NOT_FOUND")
inspected cs _ = none

abbrev passive : Env
passive = record lossy { fails = inspected }

passive-IsPassive : IsPassive passive
passive-IsPassive = record { refuses = λ q cs n h. (bytes "404 NOT_FOUND", rw h) }

metrics_handler-fails_example :
    let p = ((start_gateway passive scaling >> auto_scaler passive 1000 5 2 3) started).1 in
    (e : Error) × ((metrics_handler passive p).0
      ≡ returns (http_error (bytes "QueueInspect error: " ++ e) 500 unwritten))
metrics_handler-fails_example = metrics_handler-fails passive scaling 3 passive-IsPassive
