-- ===== src/Balancer.antt =====
-- load_balancer.go: the registry of gateways, the round robin over it, and the handlers. The network
-- is a parameter: `Net` answers each request as any function of the requests made before. A handler
-- runs while it holds the lock, so its state is read and written in one piece.
pub mod Registry
pub mod History
pub mod Rotation
pub mod RoundRobin
pub mod Pages
pub mod Resent
pub mod Accounting
pub mod Sending
pub mod Members
pub mod Refinement
pub mod Locking
use distributed_messaging_sy.Base.{
  ℕ, zero, suc, ◌+◌, ◌%◌, ◌^◌, Bool, true, false, ◌==◌, is_empty, bytes_eq, if◌then◌else◌, length,
  get_elem?, Bytes, bytes, List, [], ◌∷◌, ◌++◌, Option, none, some, Go, panic, gets, modify, pure,
  Outcome, ◌>>=◌, ◌>>◌, Response, unwritten, http_error, write, write_header, add_headers,
}

-- A request that the balancer sends
pub data Sent : Type 0 where
  probe : (url : Bytes) → Sent  -- `client.Get`
  forward : (method url body : Bytes) (headers : List (Bytes × Bytes)) → Sent  -- `client.Do`

pub record Reply : Type 0 where
  pub status : ℕ
  pub headers : List (Bytes × Bytes)
  pub body : Bytes

pub record Net : Type 0 where
  pub answer : List Sent → Sent → Option Reply  -- `none` is an error
  pub well_formed : Bytes → Bytes → Bool  -- whether `http.NewRequest` takes a method and a URL

pub record Balancer : Type 0 where
  pub backends : List Bytes
  pub current : ℕ  -- uint64
  pub requests : List Sent  -- newest first

abbrev pub Act {ℓ} : Type ℓ → Type ℓ
Act A = Go Balancer A

abbrev pub init : Balancer
init = record { backends = []; current = 0; requests = [] }

-- The parts of a client's request that the handlers read; a body that cannot be read is `none`.
pub record Incoming : Type 0 where
  pub method : Bytes
  pub path : Bytes  -- `r.URL.Path`, without the query
  pub headers : List (Bytes × Bytes)
  pub body : Option Bytes

-- `getNextBackend`
next_of : List Bytes → Act Bytes
next_of [] s = (Outcome.returns [], s)
next_of (b ∷ bs) s =
    let c = (s.current + 1) % 2 ^ 64 in
    let s' = record s { current = c } in
    elim (get_elem? (b ∷ bs) (c % length (b ∷ bs))) [
      | none ↦ (Outcome.panics, s')
      | some x ↦ (Outcome.returns x, s')
    ]

unfoldable pub get_next_backend : Act Bytes
unfolding next_of
get_next_backend s = next_of s.backends s

-- `for _, b := range backends { if b == address { … return } }`
unfoldable pub is_registered : Bytes → List Bytes → Bool
is_registered address [] = false
is_registered address (b ∷ bs) = if bytes_eq b address then true else is_registered address bs

-- `registerHandler`
unfoldable pub register_handler : Bytes → Act Response
unfolding is_registered
register_handler address s =
    if is_empty address
    then (Outcome.returns (http_error (bytes "Missing address") 400 unwritten), s)
    else if is_registered address s.backends
    then (Outcome.returns (write (bytes "Already registered" ++ b'\n' ∷ []) unwritten), s)
    else (
      Outcome.returns (write (bytes "Registered" ++ b'\n' ∷ []) unwritten),
      record s { backends = s.backends ++ address ∷ [] },
    )

-- `err == nil && resp.StatusCode == 200`
abbrev pub is_ok : Option Reply → Bool
is_ok none = false
is_ok (some r) = r.status == 200

abbrev pub relay_reply : Option Reply → Response
relay_reply (some x) = write x.body (write_header x.status (add_headers x.headers unwritten))
relay_reply none = http_error (bytes "All backends unhealthy") 503 unwritten

module _ (net : Net) where
  abbrev pub request : Sent → Act (Option Reply)
  request r s = (Outcome.returns (net.answer s.requests r), record s { requests = r ∷ s.requests })

  -- `healthCheck`
  unfoldable pub health_check : Bytes → Act Bool
  health_check target = do r ← request (probe (target ++ bytes "/health")); pure (is_ok r)

  -- The loop of `startPruneDeadGateways` over the registry, with the list built so far
  unfoldable pub prune_each : List Bytes → List Bytes → Act (List Bytes)
  prune_each [] kept = pure kept
  prune_each (b ∷ bs) kept = do
    healthy ← health_check b
    prune_each bs (if healthy then kept ++ b ∷ [] else kept)

  -- One round of `startPruneDeadGateways`, while the lock is held
  unfoldable pub prune_dead_gateways : Act (Unit {0})
  prune_dead_gateways = do
    old ← gets (λ s. s.backends)
    new ← prune_each old []
    modify (λ s. record s { backends = new })

  -- One try of `proxyHandler`: the reply of the target, or `none` for `continue`
  unfoldable pub try_target : Incoming → Bytes → Bytes → Act (Option Reply)
  try_target r body target = do
    healthy ← (if is_empty target then pure false else health_check target)
    if healthy
        then (if net.well_formed r.method (target ++ r.path)
            then request (forward r.method (target ++ r.path) body r.headers)
            else pure none)
        else pure none

  -- The loop of `proxyHandler`, with the tries left
  unfoldable pub proxy_loop : ℕ → Incoming → Bytes → Act (Option Reply)
  proxy_loop zero r body = pure none
  proxy_loop (suc n) r body =
      let rest = proxy_loop n r body in
      do
        target ← get_next_backend
        reply ← try_target r body target
        elim reply [ some x ↦ pure (some x) | none ↦ rest ]

  -- `proxyHandler`, once the registry is known not to be empty
  unfoldable pub proxy_body : Incoming → Option Bytes → Act Response
  proxy_body r none = pure (http_error (bytes "Failed to read body") 500 unwritten)
  proxy_body r (some body) = do
    tries ← gets (λ s. length s.backends)
    reply ← proxy_loop tries r body
    pure (relay_reply reply)

  -- `proxyHandler`; the messages are without their emoji.
  unfoldable pub proxy_handler : Incoming → Act Response
  unfolding proxy_body
  proxy_handler r = do
    registered ← gets (λ s. s.backends)
    elim registered [
      | [] ↦ pure (http_error (bytes "No registered gateways") 503 unwritten)
      | b ∷ bs ↦ proxy_body r r.body
    ]

  -- The loop of the `/metrics` handler
  unfoldable pub metrics_each : List Bytes → Act Response
  metrics_each [] = pure (http_error (bytes "No healthy gateway found") 502 unwritten)
  metrics_each (b ∷ bs) =
      let rest = metrics_each bs in
      do
        healthy ← health_check b
        if healthy
            then (do
              reply ← request (probe (b ++ bytes "/metrics"))
              elim reply [ some x ↦ pure (relay_reply (some x)) | none ↦ rest ])
            else rest

  unfoldable pub metrics_handler : Act Response
  metrics_handler = do targets ← gets (λ s. s.backends); metrics_each targets
