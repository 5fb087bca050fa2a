-- ===== src/System/Once.antt =====
-- load_balancer.go and gateway/server.go together: how often a submission is published.
use distributed_messaging_sy.Base.{
  ℕ, ◌+◌, ◌≤◌, ◌≡◌, ◌≢◌, ◌⊎◌, refl, Bytes, bytes, List, [], ◌∷◌, Option, none, some, arith, returns,
  http_error, unwritten,
}
use distributed_messaging_sy.Amqp.Process.{Process}
use distributed_messaging_sy.Limiter.{Redis}
use distributed_messaging_sy.Balancer.{
  Balancer, Incoming, Reply, Sent, probe, forward, proxy_handler, relay_reply,
}
use distributed_messaging_sy.Balancer.Accounting.{one_if_some, proxy_handler-account}
use distributed_messaging_sy.Gateway.Register.{Fate, lost}
use distributed_messaging_sy.Gateway.Submit.{Submission}
use distributed_messaging_sy.Gateway.Pages.{serve_path-sends_one, serve_path-unsent}
use distributed_messaging_sy.System.{
  deliver_to, url_of, form, World, Cluster, handle_at, deliver, wait, replay, gateways_net, total,
  no_form,
}

module _ (redis : Redis) (c : Cluster redis) where
  handle_at-sends_one :
      (address path : Bytes) (s : Submission) (gs : List (Bytes × Process)) (store : redis.Store)
      → total (handle_at redis c address path s gs store).1.gateways ≤ total gs + 1
  unfolding handle_at
  handle_at-sends_one address path s [] store = omega arith
  handle_at-sends_one address path s ((a, p) ∷ gs) store = ground (
    arith,
    serve_path-sends_one (c.env a) (c.outside a) redis c.limiter c.collectors path s p store,
    handle_at-sends_one address path s gs store,
  )

  handle_at-unsent :
      (address path : Bytes) (s : Submission) (gs : List (Bytes × Process)) (store : redis.Store)
      → s.method ≢ bytes "POST"
      → total (handle_at redis c address path s gs store).1.gateways ≡ total gs
  unfolding handle_at
  handle_at-unsent address path s [] store get = omega arith
  handle_at-unsent address path s ((a, p) ∷ gs) store get = ground (
    arith,
    serve_path-unsent (c.env a) (c.outside a) redis c.limiter c.collectors path s p store get,
    handle_at-unsent address path s gs store get,
  )

  deliver_to-sends_one :
      (place : Option (Bytes × Bytes)) (s : Submission) (w : World redis)
      → total (deliver_to redis c place s w).1.gateways ≤ total w.gateways + 1
  deliver_to-sends_one none s w = omega arith
  deliver_to-sends_one (some (address, path)) s w =
      handle_at-sends_one address path s w.gateways w.store

  deliver_to-unsent :
      (place : Option (Bytes × Bytes)) (s : Submission) (w : World redis)
      → s.method ≢ bytes "POST"
      → total (deliver_to redis c place s w).1.gateways ≡ total w.gateways
  deliver_to-unsent none s w get = refl
  deliver_to-unsent (some (address, path)) s w get =
      handle_at-unsent address path s w.gateways w.store get

  deliver-sends_one :
      (o : Sent) (w : World redis) → total (deliver redis c o w).1.gateways ≤ total w.gateways + 1
  unfolding deliver
  deliver-sends_one o w = deliver_to-sends_one (c.locate (url_of redis c o)) (form redis c o) w

  probe-unsent :
      (url : Bytes) (w : World redis)
      → total (deliver redis c (probe url) w).1.gateways ≡ total w.gateways
  unfolding deliver bytes
  probe-unsent url w = deliver_to-unsent (c.locate url) no_form w (λ get. cc)

  -- 1 for a request that arrives and brings no reply
  abbrev unreplied : Fate → Option Reply → ℕ
  unreplied lost reply = 0
  unreplied _ (some _) = 0
  unreplied _ none = 1

  -- How many requests that were sent on arrived, and brought no reply: the answer is lost, or the
  -- handler writes none.
  unfoldable pub broken : List Sent → ℕ
  broken [] = 0
  broken (probe url ∷ h) = broken h
  broken (forward method url body headers ∷ h) =
      let o = forward method url body headers in
      unreplied (c.fate h o) ((gateways_net redis c).answer h o) + broken h

  -- The messages on the broker after the requests so far
  abbrev pub sent_after : List Sent → ℕ
  sent_after h = total (replay redis c h).gateways

  probed_lem :
      (h : List Sent) (url : Bytes)
      → (sent_after (probe url ∷ h) ≤ sent_after h) × (broken (probe url ∷ h) ≡ broken h)
  unfolding replay broken
  probed_lem h url = ground (arith, probe-unsent url (wait redis c (c.idle h) (replay redis c h)))

  forwarded_lem :
      (h : List Sent) (method url body : Bytes) (headers : List (Bytes × Bytes))
      → let o = forward method url body headers in
        sent_after (o ∷ h) + broken h
        ≤ sent_after h + broken (o ∷ h) + one_if_some ((gateways_net redis c).answer h o)
  unfolding replay broken
  forwarded_lem h method url body headers = ground (
    arith,
    deliver-sends_one (forward method url body headers)
        (wait redis c (c.idle h) (replay redis c h)),
  )

  -- Whatever the broker, the rate limiter, the network and the gateways do: a client's request with a
  -- readable body, handed to the balancer, finds no gateway registered, and nothing is done; or the
  -- messages on the broker grow by at most the number of requests that were sent on, arrived and
  -- brought no reply, and by one more only if the client gets the reply of a gateway.
  pub proxy_handler-publishes_once :
      (r : Incoming) (body : Bytes) (s : Balancer)
      → r.body ≡ some body
      → let after = proxy_handler (gateways_net redis c) r s in
        ((after.0 ≡ returns (http_error (bytes "No registered gateways") 503 unwritten))
          × (after.1 ≡ s))
        ⊎ ((reply : Option Reply) × (after.0 ≡ returns (relay_reply reply))
            × (sent_after after.1.requests + broken s.requests
                ≤ sent_after s.requests + broken after.1.requests + one_if_some reply))
  proxy_handler-publishes_once r body s whole =
      proxy_handler-account (gateways_net redis c) sent_after broken
        (record { probed = probed_lem; passed = forwarded_lem }) r body s whole
