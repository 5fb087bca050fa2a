-- ===== src/Balancer/Sending.antt =====
-- load_balancer.go: a property that each request of the balancer keeps is kept by its operations.
use distributed_messaging_sy.Base.{
  ℕ, zero, suc, ◌≡◌, IsReturn, Bytes, bytes, List, [], ◌∷◌, ◌++◌, some, Option-cases, length, All,
  arith, inl, inr,
}
use distributed_messaging_sy.Balancer.{
  Balancer, Net, Sent, Incoming, probe, forward, get_next_backend, health_check, prune_each,
  prune_dead_gateways, register_handler, try_target, proxy_loop, proxy_handler, metrics_each,
  metrics_handler,
}
use distributed_messaging_sy.Balancer.Registry.{get_next_backend_total}
use distributed_messaging_sy.Balancer.History.{
  Operation, register, proxy, metrics, prune, perform, perform_all,
}

module _ (net : Net) (P : List Sent → Type 0)
    (probed : (h : List Sent) (url : Bytes) → P h → P (probe url ∷ h)) where
  prune_each-keeps :
      (bs kept : List Bytes) (s : Balancer) → P s.requests → P (prune_each net bs kept s).1.requests
  unfolding prune_each health_check
  prune_each-keeps [] kept s h = h
  prune_each-keeps (b ∷ bs) kept s h =
      let url = b ++ bytes "/health" in
      prune_each-keeps bs _ (record s { requests = probe url ∷ s.requests })
        (probed s.requests url h)

  metrics_each-keeps :
      (bs : List Bytes) (s : Balancer) → P s.requests → P (metrics_each net bs s).1.requests
  unfolding metrics_each health_check
  metrics_each-keeps [] s h = h
  metrics_each-keeps (b ∷ bs) s h =
      let s₁ = record s { requests = probe (b ++ bytes "/health") ∷ s.requests } in
      let s₂ = record s₁ { requests = probe (b ++ bytes "/metrics") ∷ s₁.requests } in
      let h₁ = probed s.requests (b ++ bytes "/health") h in
      let h₂ = probed s₁.requests (b ++ bytes "/metrics") h₁ in
      ground (arith, h₁, h₂, metrics_each-keeps bs s₁ h₁, metrics_each-keeps bs s₂ h₂)

  module _ (r : Incoming) (body : Bytes)
      (sent : (h : List Sent) (url : Bytes)
        → P h
        → P (forward r.method url body r.headers ∷ h)) where
    try_target-keeps :
        (y : Bytes) (s : Balancer)
        → P s.requests
        → IsReturn (try_target net r body y s).0 × P (try_target net r body y s).1.requests
    unfolding try_target health_check
    try_target-keeps y s h =
        let url = y ++ bytes "/health" in
        let h₁ = probed s.requests url h in
        ground (arith, h, h₁, sent (probe url ∷ s.requests) (y ++ r.path) h₁)

    proxy_loop-keeps :
        (n : ℕ) (s : Balancer) → P s.requests → P (proxy_loop net n r body s).1.requests
    unfolding proxy_loop
    proxy_loop-keeps zero s h = h
    proxy_loop-keeps (suc n) s h =
        let (y, e, _, _, q) = get_next_backend_total s in
        let s₁ = (get_next_backend s).1 in
        let h₁ : P s₁.requests = rw q h in
        let (back, h₂) = try_target-keeps y s₁ h₁ in
        ground (arith, e, back, h₂, proxy_loop-keeps n (try_target net r body y s₁).1 h₂)

  -- What an operation sends on keeps the property.
  unfoldable pub Keeps : Operation → Type 0
  Keeps (proxy r) =
      (body : Bytes)
      → r.body ≡ some body
      → (h : List Sent) (url : Bytes) → P h
      → P (forward r.method url body r.headers ∷ h)
  Keeps _ = Unit

  register-keeps :
      (address : Bytes) (s : Balancer) → P s.requests → P (register_handler address s).1.requests
  unfolding register_handler
  register-keeps address s h = ground (arith, h)

  proxy-keeps :
      (r : Incoming) (s : Balancer)
      → Keeps (proxy r)
      → P s.requests
      → P (proxy_handler net r s).1.requests
  unfolding proxy_handler Keeps
  proxy-keeps r s keeps h = elim (Option-cases r.body) [
    | inl e ↦ ground (arith, e, h)
    | inr (body, e) ↦
        ground (arith, e, h, proxy_loop-keeps r body (keeps body e) (length s.backends) s h)
  ]

  perform-keeps :
      (o : Operation) (s : Balancer) → Keeps o → P s.requests → P (perform net o s).requests
  unfolding metrics_handler prune_dead_gateways
  perform-keeps (register address) s keeps h = register-keeps address s h
  perform-keeps (proxy r) s keeps h = proxy-keeps r s keeps h
  perform-keeps metrics s keeps h = metrics_each-keeps s.backends s h
  perform-keeps prune s keeps h = ground (arith, h, prune_each-keeps s.backends [] s h)

  pub perform_all-keeps :
      (os : List Operation) (s : Balancer)
      → All Keeps os
      → P s.requests
      → P (perform_all net os s).requests
  perform_all-keeps [] s all h = h
  perform_all-keeps (o ∷ os) s (keeps, all) h =
      perform_all-keeps os (perform net o s) all (perform-keeps o s keeps h)
