-- ===== src/System/Limited.antt =====
-- load_balancer.go, gateway/server.go and limiter/rate_limit.go together: what one user's submissions
-- put on the broker, over all gateways.
use distributed_messaging_sy.Base.{
  ℕ, ◌+◌, ◌-◌, ◌≤◌, ◌<◌, ◌≡◌, ◌⊎◌, inl, inr, refl, bytes_eq, Bytes, bytes, List, [], ◌∷◌, Option,
  none, some, arith, All, Bool-cases,
}
use distributed_messaging_sy.Amqp.Process.{Process}
use distributed_messaging_sy.Limiter.{Redis, IsRedis, key_of}
use distributed_messaging_sy.Balancer.{Balancer, Sent, probe, forward}
use distributed_messaging_sy.Balancer.History.{Operation, proxy, perform_all}
use distributed_messaging_sy.Balancer.Sending.{Keeps, perform_all-keeps}
use distributed_messaging_sy.Gateway.Register.{Fate, lost, unanswered, answered}
use distributed_messaging_sy.Gateway.Submit.{Submission}
use distributed_messaging_sy.Gateway.Limited.{published}
use distributed_messaging_sy.System.{
  World, Cluster, handle_at, deliver_to, deliver, form, url_of, wait, replay, arrive, gateways_net,
  total,
}
use distributed_messaging_sy.System.Once.{sent_after}
use distributed_messaging_sy.System.Counted.{Named, Step, serve_path-Step, more-Step, after-Step}

-- The milliseconds of a history
unfoldable pub span : (redis : Redis) → Cluster redis → List Sent → ℕ
span redis c [] = 0
span redis c (o ∷ h) = c.idle h + span redis c h

-- The requests that were sent on read, at every gateway, as forms in a user's name, or as no POST.
unfoldable pub InName : (redis : Redis) → Cluster redis → Bytes → List Sent → Type 0
InName redis c user [] = Unit
InName redis c user (probe url ∷ h) = InName redis c user h
InName redis c user (forward method url body headers ∷ h) =
    ((a : Bytes) → Named (c.outside a) user (c.read_form method body headers))
    × InName redis c user h

probe-InName :
    (redis : Redis) (c : Cluster redis) (user : Bytes) (h : List Sent) (url : Bytes)
    → InName redis c user h
    → InName redis c user (probe url ∷ h)
unfolding InName
probe-InName redis c user h url n = n

-- What an operation asks reads so.
unfoldable pub Asks : (redis : Redis) → Cluster redis → Bytes → Operation → Type 0
Asks redis c user (proxy r) =
    (body : Bytes)
    → r.body ≡ some body
    → (a : Bytes) → Named (c.outside a) user (c.read_form r.method body r.headers)
Asks redis c user _ = Unit

module _ (redis : Redis) (laws : IsRedis redis) (c : Cluster redis) (user : Bytes)
    (up : (k : Bytes) (w : ℕ) (s : redis.Store)
      → (n : ℕ) × ((redis.incr_expire k w s).0 ≡ some n)) where
  open redis use {Store, elapse, count, ttl}

  abbrev Moves : World redis → World redis → Type 0
  Moves w w' =
      Step redis laws c.limiter user up (total w.gateways, w.store) (total w'.gateways, w'.store)

  handle_at-Step :
      (address path : Bytes) (f : Submission) (gs : List (Bytes × Process)) (s : Store)
      → ((a : Bytes) → Named (c.outside a) user f)
      → Moves (record { gateways = gs; store = s }) (handle_at redis c address path f gs s).1
  unfolding handle_at
  handle_at-Step address path f [] s h = inl (refl, refl)
  handle_at-Step address path f ((a, p) ∷ gs) s h = elim (Bool-cases (bytes_eq a address)) [
    | inl e ↦ rw e (
        more-Step redis laws c.limiter user up (total gs) _ _ s _ (
          serve_path-Step redis laws c.limiter user up (c.env a) (c.outside a) c.collectors path f p
            s (h a)))
    | inr e ↦ rw e (
        after-Step redis laws c.limiter user up (published p) _ _ s _
          (handle_at-Step address path f gs s h))
  ]

  form-Named :
      (o : Sent) (h : List Sent)
      → InName redis c user (o ∷ h)
      → ((a : Bytes) → Named (c.outside a) user (form redis c o)) × InName redis c user h
  unfolding InName bytes
  form-Named (probe url) h n = (λ a. inr (λ get. cc), n)
  form-Named (forward method url body headers) h n = n

  deliver_to-Step :
      (place : Option (Bytes × Bytes)) (o : Sent) (w : World redis)
      → ((a : Bytes) → Named (c.outside a) user (form redis c o))
      → Moves w (deliver_to redis c place (form redis c o) w).1
  deliver_to-Step none o w n = inl (refl, refl)
  deliver_to-Step (some (address, path)) o w n =
      handle_at-Step address path (form redis c o) w.gateways w.store n

  arrive-Step :
      (fate : Fate) (o : Sent) (w : World redis)
      → ((a : Bytes) → Named (c.outside a) user (form redis c o))
      → Moves w (arrive redis c fate o w)
  unfolding deliver
  arrive-Step lost o w n = inl (refl, refl)
  arrive-Step unanswered o w n = deliver_to-Step (c.locate (url_of redis c o)) o w n
  arrive-Step answered o w n = deliver_to-Step (c.locate (url_of redis c o)) o w n

  -- Nothing is sent; or the count says what may yet be sent, and its time is longer than the rest of a
  -- window.
  abbrev InLimit : ℕ → World redis → Type 0
  InLimit time w =
      (total w.gateways ≡ total c.begun.gateways)
      ⊎ ((total w.gateways + (c.limiter.max_requests - count (key_of user) w.store)
            ≤ total c.begun.gateways + c.limiter.max_requests)
          × (c.limiter.window ≤ ttl (key_of user) w.store + time))

  wait-InLimit :
      (time ms : ℕ) (w : World redis)
      → ms + time < c.limiter.window
      → InLimit time w
      → InLimit (ms + time) (wait redis c ms w)
  wait-InLimit time ms w short h = ground (arith, laws.ends (key_of user) ms w.store, h)

  step-InLimit : (time : ℕ) (w w' : World redis) → Moves w w' → InLimit time w → InLimit time w'
  step-InLimit time w w' moves h = ground (arith, moves, h)

  replay-InLimit :
      (h : List Sent)
      → InName redis c user h
      → span redis c h < c.limiter.window
      → InLimit (span redis c h) (replay redis c h)
  unfolding replay span
  replay-InLimit [] n short = inl refl
  replay-InLimit (o ∷ h) n short =
      let w = wait redis c (c.idle h) (replay redis c h) in
      let (own, rest) = form-Named o h n in
      step-InLimit (c.idle h + span redis c h) w (arrive redis c (c.fate h o) o w)
        (arrive-Step (c.fate h o) o w own)
        (wait-InLimit (span redis c h) (c.idle h) (replay redis c h) short
          (replay-InLimit h rest (omega arith)))

  Asks-Keeps :
      (o : Operation)
      → Asks redis c user o
      → Keeps (gateways_net redis c) (InName redis c user) (probe-InName redis c user) o
  unfolding Asks Keeps InName
  Asks-Keeps (proxy r) asks = λ body e h url n. (asks body e, n)
  Asks-Keeps _ asks = tt

  All-Keeps :
      (os : List Operation)
      → All (Asks redis c user) os
      → All (Keeps (gateways_net redis c) (InName redis c user) (probe-InName redis c user)) os
  unfolding InName
  All-Keeps [] all = tt
  All-Keeps (o ∷ os) (asks, all) = (Asks-Keeps o asks, All-Keeps os all)

  -- While the store of the rate limiter answers and follows Redis, and whatever the broker, the network
  -- and the gateways do: if the requests that clients send to the balancer, and those that it has sent
  -- on before, read at the gateways as submissions in one user's name, or as no POST, then whatever
  -- comes to the balancer, in a time shorter than the window the requests that it has sent, health
  -- checks and those it repeats included, put no more messages on the broker, over all gateways, than
  -- the limit, whatever was counted before.
  pub perform_all-limited :
      (os : List Operation) (s : Balancer)
      → All (Asks redis c user) os
      → InName redis c user s.requests
      → let h = (perform_all (gateways_net redis c) os s).requests in
        span redis c h < c.limiter.window
        → sent_after redis c h ≤ sent_after redis c [] + c.limiter.max_requests
  unfolding replay InName
  perform_all-limited os s asks named short =
      let h = (perform_all (gateways_net redis c) os s).requests in
      let n =
        perform_all-keeps (gateways_net redis c) (InName redis c user) (probe-InName redis c user)
          os s (All-Keeps os asks) named in
      ground (arith, replay-InLimit h n short)
