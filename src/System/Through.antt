-- ===== src/System/Through.antt =====
-- load_balancer.go and gateway/server.go together: a request that reaches a gateway through the
-- balancer is answered as the gateway answers it.
use distributed_messaging_sy.Base.{
  inl, inr, Outcome, unwritten, write_header, ◌≡◌, ◌≢◌, ◌∙◌, ap, refl, true, bytes_eq, bytes_eq_iff,
  if◌then◌else◌, Bytes, bytes, List, [], ◌∷◌, ◌++◌, Option, none, some, arith, returns, Response,
}
use distributed_messaging_sy.Amqp.Process.{Process}
use distributed_messaging_sy.Limiter.{Redis}
use distributed_messaging_sy.Balancer.{
  Balancer, Incoming, Sent, probe, forward, get_next_backend, health_check, try_target, proxy_loop,
  proxy_handler, relay_reply,
}
use distributed_messaging_sy.Balancer.Registry.{get_next_backend_total, Empty-cases}
use distributed_messaging_sy.Gateway.Register.{answered}
use distributed_messaging_sy.Gateway.Submit.{Submission}
use distributed_messaging_sy.Gateway.Pages.{serve_path}
use distributed_messaging_sy.System.{
  World, Cluster, no_form, handle_at, deliver, wait, replay, gateways_net, reply_of, written,
  url_of, form, reply_to,
}

-- The process of the gateway at an address
unfoldable pub process_of : Bytes → List (Bytes × Process) → Option Process
process_of address [] = none
process_of address ((a, p) ∷ gs) =
    let rest = process_of address gs in if bytes_eq a address then some p else rest

module _ (redis : Redis) (c : Cluster redis) (y : Bytes) where
  -- What the gateway does with a request, from a state of its own
  abbrev pub served :
      Bytes
      → Submission
      → Process
      → redis.Store
      → Outcome (Option Response) × (Process × redis.Store)
  served path s p store =
      serve_path (c.env y) (c.outside y) redis c.limiter c.collectors path s (p, store)

  handle_at-served :
      (path : Bytes) (s : Submission) (gs : List (Bytes × Process)) (store : redis.Store)
      (p : Process)
      → process_of y gs ≡ some p
      → let after = handle_at redis c y path s gs store in
        (after.0 ≡ written (served path s p store).0)
        × (process_of y after.1.gateways ≡ some (served path s p store).1.0)
        × (after.1.store ≡ (served path s p store).1.1)
  unfolding handle_at process_of
  handle_at-served path s [] store p e = absurd (cc)
  handle_at-served path s ((a, q) ∷ gs) store p e =
      ground (arith, bytes_eq_iff a y, handle_at-served path s gs store p)

  handle_at-health :
      (s : Submission) (gs : List (Bytes × Process)) (store : redis.Store) (p : Process)
      → process_of y gs ≡ some p
      → let after = handle_at redis c y (bytes "/health") s gs store in
        (after.0 ≡ some (write_header 200 unwritten))
        × (after.1.gateways ≡ gs)
        × (after.1.store ≡ store)
  unfolding handle_at process_of serve_path bytes bytes_eq
  handle_at-health s [] store p e = absurd (cc)
  handle_at-health s ((a, q) ∷ gs) store p e = ground (arith, handle_at-health s gs store p)

module _ (redis : Redis) (c : Cluster redis) (o : Sent) where
  deliver-at :
      (y path : Bytes) (w : World redis)
      → c.locate (url_of redis c o) ≡ some (y, path)
      → deliver redis c o w ≡ handle_at redis c y path (form redis c o) w.gateways w.store
  unfolding deliver
  deliver-at y path w e = rw e refl

  answered_lem :
      (t : List Sent)
      → c.fate t o ≡ answered
      → let w = wait redis c (c.idle t) (replay redis c t) in
        ((gateways_net redis c).answer t o ≡ reply_to redis c (deliver redis c o w).0)
        × (replay redis c (o ∷ t) ≡ (deliver redis c o w).1)
  unfolding replay
  answered_lem t e = rw e (refl, refl)

-- A client's request with a readable body meets, where the balancer stands, a gateway whose turn it
-- is: its address makes URLs, and the answers to the health check and to the request that is sent on
-- both arrive.
pub record Connects (redis : Redis) (c : Cluster redis) (r : Incoming) (body y : Bytes)
    (p : Process) (s : Balancer) : Type 0 where
  pub whole : r.body ≡ some body
  pub chosen : (get_next_backend s).0 ≡ returns y
  pub named : y ≢ []
  pub checked_at : c.locate (y ++ bytes "/health") ≡ some (y, bytes "/health")
  pub sent_to : c.locate (y ++ r.path) ≡ some (y, r.path)
  pub well_formed : c.well_formed r.method (y ++ r.path) ≡ true
  pub check_answered : c.fate s.requests (probe (y ++ bytes "/health")) ≡ answered
  pub answered_at :
      c.fate
        (probe (y ++ bytes "/health") ∷ s.requests)
        (forward r.method (y ++ r.path) body r.headers)
      ≡ answered
  pub found : process_of y (replay redis c s.requests).gateways ≡ some p

module _ (redis : Redis) (c : Cluster redis) (r : Incoming) (body y : Bytes) (p : Process)
    (s : Balancer) (h : Connects redis c r body y p s) where
  abbrev before : World redis
  before = replay redis c s.requests

  abbrev first : World redis
  first = wait redis c (c.idle s.requests) before

  abbrev check : Sent
  check = probe (y ++ bytes "/health")

  abbrev passed_on : Sent
  passed_on = forward r.method (y ++ r.path) body r.headers

  check_lem :
      ((gateways_net redis c).answer s.requests check
        ≡ some (reply_of (write_header 200 unwritten)))
      × ((replay redis c (check ∷ s.requests)).gateways ≡ before.gateways)
      × ((replay redis c (check ∷ s.requests)).store ≡ first.store)
  check_lem =
      let (replied, kept, same) =
        handle_at-health redis c y no_form first.gateways first.store p h.found in
      let at = deliver-at redis c check y (bytes "/health") first h.checked_at in
      let (answer, went) = answered_lem redis c check s.requests h.check_answered in
      (answer ∙ ap (reply_to redis c) (ap (λ x. x.0) at ∙ replied), cc, cc)

  -- The store when the request that is sent on arrives
  abbrev pub met : redis.Store
  met = redis.elapse (c.idle (check ∷ s.requests)) first.store

  abbrev went : Outcome (Option Response) × (Process × redis.Store)
  went = served redis c y r.path (c.read_form r.method body r.headers) p met

  passed_on_lem :
      let t = check ∷ s.requests in
      ((gateways_net redis c).answer t passed_on ≡ reply_to redis c (written went.0))
      × (process_of y (replay redis c (passed_on ∷ t)).gateways ≡ some went.1.0)
      × ((replay redis c (passed_on ∷ t)).store ≡ went.1.1)
  passed_on_lem =
      let t = check ∷ s.requests in
      let (_, kept, same) = check_lem in
      let (replied, worked, stored) =
        handle_at-served redis c y r.path (c.read_form r.method body r.headers)
          (wait redis c (c.idle t) (replay redis c t)).gateways
          (wait redis c (c.idle t) (replay redis c t)).store p (ap (process_of y) kept ∙ h.found) in
      let at =
        deliver-at redis c passed_on y r.path (wait redis c (c.idle t) (replay redis c t))
          h.sent_to in
      let (answer, moved) = answered_lem redis c passed_on t h.answered_at in
      rw (answer, moved, at, replied, worked, stored, same) (refl, refl, refl)

  try_target-delegates :
      (x : Response) (s₁ : Balancer)
      → s₁.requests ≡ s.requests
      → went.0 ≡ returns (some x)
      → let after = try_target (gateways_net redis c) r body y s₁ in
        (after.0 ≡ returns (some (reply_of x)))
        × (after.1.requests ≡ passed_on ∷ check ∷ s.requests)
  unfolding try_target health_check
  try_target-delegates x s₁ same done =
      ground (arith, same, done, h.named, h.well_formed, check_lem, passed_on_lem)

  -- The client is then answered with what the gateway answers to the request, if it writes an answer;
  -- and this gateway, with the store of the rate limiter, is left as it leaves itself.
  pub proxy_handler-delegates :
      (x : Response)
      → went.0 ≡ returns (some x)
      → let after = proxy_handler (gateways_net redis c) r s in
        let left = replay redis c after.1.requests in
        (after.0 ≡ returns (relay_reply (some (reply_of x))))
        × (process_of y left.gateways ≡ some went.1.0)
        × (left.store ≡ went.1.1)
  unfolding proxy_handler proxy_loop
  proxy_handler-delegates x done =
      let (z, e, place, _, q) = get_next_backend_total s in
      let (replied, sent) = try_target-delegates x (get_next_backend s).1 q done in
      let (_, worked, stored) = passed_on_lem in
      elim (Empty-cases s.backends) [
        | inl none_left ↦ absurd (ground (arith, none_left, place, e, h.chosen, h.named))
        | inr (f, bs, some_left) ↦
            ground (arith, some_left, h.whole, h.chosen, replied, sent, worked, stored)
      ]
