-- ===== src/Balancer/Pages.antt =====
-- load_balancer.go, the handlers that `main` registers with net/http.
use distributed_messaging_sy.Base.{◌≡◌, bytes_eq, if◌then◌else◌, Bytes, bytes, Response, arith}
use distributed_messaging_sy.Balancer.{
  Balancer, Net, Act, Incoming, register_handler, metrics_handler, proxy_handler,
}
use distributed_messaging_sy.Balancer.History.{Operation, register, proxy, metrics, perform}

module _ (net : Net) where
  -- The handler of a request, with the value of its form field `address`
  unfoldable pub serve : Bytes → Incoming → Act Response
  serve address r =
      if bytes_eq r.path (bytes "/register")
      then register_handler address
      else if bytes_eq r.path (bytes "/metrics")
      then metrics_handler net
      else proxy_handler net r

  unfoldable operation_of : Bytes → Incoming → Operation
  operation_of address r =
      if bytes_eq r.path (bytes "/register")
      then register address
      else if bytes_eq r.path (bytes "/metrics")
      then metrics
      else proxy r

  -- What a request does to the balancer is one of the operations of its history.
  serve-perform :
      (address : Bytes) (r : Incoming) (s : Balancer)
      → (serve address r s).1 ≡ perform net (operation_of address r) s
  unfolding serve operation_of
  serve-perform address r s = ground arith
