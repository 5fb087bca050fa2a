-- ===== src/Balancer/Accounting.antt =====
-- load_balancer.go, `proxyHandler`: an account of what its requests do elsewhere.
use distributed_messaging_sy.Base.{
  IsReturn, IsReturn-value, http_error, unwritten, ℕ, zero, suc, ◌+◌, ◌≤◌, ◌≡◌, ◌⊎◌, inl, inr,
  length, Bytes, bytes, List, ◌∷◌, ◌++◌, Option, none, some, Outcome, arith, returns,
}
use distributed_messaging_sy.Balancer.{
  Balancer, Net, Sent, Incoming, Reply, probe, forward, get_next_backend, health_check, try_target,
  proxy_loop, proxy_handler, relay_reply,
}
use distributed_messaging_sy.Balancer.Registry.{get_next_backend_total, Empty-cases}

abbrev pub one_if_some {ℓ} : {A : Type ℓ} → Option A → ℕ
one_if_some none = 0
one_if_some (some _) = 1

abbrev replied : Outcome (Option Reply) → Option Reply
replied (returns o) = o
replied _ = none

-- Two numbers are kept of the requests so far: a gain, and the losses that excuse it. A health check
-- adds to neither, and a request that is sent on gains at most what it loses, and one more if it is
-- answered.
pub record IsAccount (net : Net) (gain loss : List Sent → ℕ) : Type 0 where
  pub probed :
      (h : List Sent) (url : Bytes)
      → (gain (probe url ∷ h) ≤ gain h) × (loss (probe url ∷ h) ≡ loss h)
  pub passed :
      (h : List Sent) (method url body : Bytes) (headers : List (Bytes × Bytes))
      → let o = forward method url body headers in
        gain (o ∷ h) + loss h ≤ gain h + loss (o ∷ h) + one_if_some (net.answer h o)

module _ (net : Net) (gain loss : List Sent → ℕ) (account : IsAccount net gain loss) (r : Incoming)
    (body : Bytes) where
  abbrev Kept : Outcome (Option Reply) × Balancer → Balancer → Type 0
  Kept (o, t) s =
      IsReturn o
      × (gain t.requests + loss s.requests
          ≤ gain s.requests + loss t.requests + one_if_some (replied o))

  try_target-Kept : (y : Bytes) (s : Balancer) → Kept (try_target net r body y s) s
  unfolding try_target health_check
  try_target-Kept y s =
      let url = y ++ bytes "/health" in
      ground (
        arith,
        account.probed s.requests url,
        account.passed (probe url ∷ s.requests) r.method (y ++ r.path) body r.headers,
      )

  proxy_loop-Kept : (n : ℕ) (s : Balancer) → Kept (proxy_loop net n r body s) s
  unfolding proxy_loop
  proxy_loop-Kept zero s = ground arith
  proxy_loop-Kept (suc n) s =
      let (y, e, _, _, q) = get_next_backend_total s in
      let s₁ = (get_next_backend s).1 in
      let s₂ = (try_target net r body y s₁).1 in
      ground (arith, e, q, try_target-Kept y s₁, proxy_loop-Kept n s₂)

  -- Through a proxied request, what is gained is lost again, but for one if the client gets the reply
  -- of a gateway.
  pub proxy_handler-account :
      (s : Balancer)
      → r.body ≡ some body
      → let after = proxy_handler net r s in
        ((after.0 ≡ returns (http_error (bytes "No registered gateways") 503 unwritten))
          × (after.1 ≡ s))
        ⊎ ((reply : Option Reply) × (after.0 ≡ returns (relay_reply reply))
            × (gain after.1.requests + loss s.requests
                ≤ gain s.requests + loss after.1.requests + one_if_some reply))
  unfolding proxy_handler
  proxy_handler-account s whole = elim (Empty-cases s.backends) [
    | inl e ↦ inl (ground (arith, e))
    | inr (b, bs, e) ↦
        let (back, kept) = proxy_loop-Kept (length s.backends) s in
        let (reply, found) = IsReturn-value _ back in
        inr (reply, ground (arith, e, whole, found), ground (arith, e, whole, found, kept))
  ]
