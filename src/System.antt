-- ===== src/System.antt =====
-- load_balancer.go and gateway/server.go together: the balancer's network is the gateways, which share
-- the store of the rate limiter. The requests that the balancer has sent say what every gateway has
-- done.
pub mod Once
pub mod Through
pub mod Submitted
pub mod Counted
pub mod Limited
use distributed_messaging_sy.Base.{
  ℕ, ◌+◌, Bool, bytes_eq, if◌then◌else◌, length, Bytes, bytes, List, [], ◌∷◌, Option, none, some,
  Outcome, returns, exits, panics, Response,
}
use distributed_messaging_sy.Amqp.{Env}
use distributed_messaging_sy.Amqp.Process.{Process}
use distributed_messaging_sy.Limiter.{Redis, RateLimiter}
use distributed_messaging_sy.Balancer.{Sent, Reply, Net, probe, forward}
use distributed_messaging_sy.Gateway.Register.{Fate, lost, unanswered, answered}
use distributed_messaging_sy.Gateway.Submit.{Outside, Submission}
use distributed_messaging_sy.Gateway.Limited.{published}
use distributed_messaging_sy.Gateway.Pages.{serve_path}

-- The gateways by their addresses, and the store
pub record World (redis : Redis) : Type 0 where
  pub gateways : List (Bytes × Process)
  pub store : redis.Store

-- What the gateways run on, and what package net/http and the network do with a request
pub record Cluster (redis : Redis) : Type 0 where
  pub limiter : RateLimiter
  pub env : Bytes → Env  -- of the gateway at an address
  pub outside : Bytes → Outside
  pub collectors : Process → Response  -- the page of Prometheus
  pub read_form : Bytes → Bytes → List (Bytes × Bytes) → Submission  -- by method, body and headers
  pub locate : Bytes → Option (Bytes × Bytes)  -- the address and the path of a URL
  pub well_formed : Bytes → Bytes → Bool
  pub fate : List Sent → Sent → Fate
  pub idle : List Sent → ℕ  -- the milliseconds before the next request
  pub begun : World redis

-- The form of a health check
abbrev pub no_form : Submission
no_form = record {
  method = bytes "GET";
  authorization = [];
  task = [];
  routing_key = [];
  headers_json = [];
  fail = [];
  retry = [];
  broadcast = [];
}

-- The response, if the handler writes one: it may wait on, or end the connection by a panic.
abbrev pub written : Outcome (Option Response) → Option Response
written (returns x) = x
written exits = none
written panics = none

-- `WriteHeader` sends status 200 where the handler sets none.
abbrev status_or_ok : Option ℕ → ℕ
status_or_ok none = 200
status_or_ok (some code) = code

-- What the balancer reads of a response
abbrev pub reply_of : Response → Reply
reply_of x = record {
  status = status_or_ok x.status;
  headers = (bytes "Content-Type", x.content_type) ∷ x.headers;
  body = x.body;
}

module _ (redis : Redis) (c : Cluster redis) where
  -- The gateway at an address handles a request.
  unfoldable pub handle_at :
      (address path : Bytes)
      → Submission
      → List (Bytes × Process)
      → redis.Store
      → Option Response × World redis
  handle_at address path s [] store = (none, record { gateways = []; store = store })
  handle_at address path s ((a, p) ∷ gs) store =
      let rest = handle_at address path s gs store in
      if bytes_eq a address
      then (let (r, (p', store')) =
            serve_path (c.env a) (c.outside a) redis c.limiter c.collectors path s (p, store) in
          (written r, record { gateways = (a, p') ∷ gs; store = store' }))
      else (rest.0, record (rest.1) { gateways = (a, p) ∷ rest.1.gateways })

  -- The request that the balancer sends, read by the gateway
  abbrev pub form : Sent → Submission
  form (probe url) = no_form
  form (forward method url body headers) = c.read_form method body headers

  abbrev pub url_of : Sent → Bytes
  url_of (probe url) = url
  url_of (forward method url body headers) = url

  abbrev pub deliver_to :
      Option (Bytes × Bytes) → Submission → World redis → Option Response × World redis
  deliver_to none s w = (none, w)
  deliver_to (some (address, path)) s w = handle_at address path s w.gateways w.store

  -- A request that arrives
  unfoldable pub deliver : Sent → World redis → Option Response × World redis
  unfolding handle_at
  deliver o w = deliver_to (c.locate (url_of o)) (form o) w

  abbrev arrive : Fate → Sent → World redis → World redis
  arrive lost o w = w
  arrive unanswered o w = (deliver o w).1
  arrive answered o w = (deliver o w).1

  abbrev pub wait : ℕ → World redis → World redis
  wait ms w = record w { store = redis.elapse ms w.store }

  -- The world after the requests so far, newest first
  unfoldable pub replay : List Sent → World redis
  unfolding deliver
  replay [] = c.begun
  replay (o ∷ h) = arrive (c.fate h o) o (wait (c.idle h) (replay h))

  abbrev pub reply_to : Option Response → Option Reply
  reply_to none = none
  reply_to (some x) = some (reply_of x)

  abbrev pub answer_by : Fate → Sent → World redis → Option Reply
  answer_by lost o w = none
  answer_by unanswered o w = none
  answer_by answered o w = reply_to (deliver o w).0

  -- The network of the balancer
  abbrev pub gateways_net : Net
  gateways_net = record {
    answer = λ h o. answer_by (c.fate h o) o (wait (c.idle h) (replay h));
    well_formed = c.well_formed;
  }

-- The messages that all gateways have put on the broker
abbrev pub total : List (Bytes × Process) → ℕ
total [] = 0
total ((a, p) ∷ gs) = published p + total gs
