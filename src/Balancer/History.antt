-- ===== src/Balancer/History.antt =====
-- load_balancer.go: the registry after any sequence of requests and prunings.
use distributed_messaging_sy.Base.{
  ◌≡◌, refl, length, Bytes, bytes, List, [], ◌∷◌, ◌++◌, none, some, arith,
}
use distributed_messaging_sy.Balancer.{
  Balancer, Net, Incoming, probe, register_handler, prune_dead_gateways, proxy_handler,
  metrics_handler, metrics_each, health_check,
}
use distributed_messaging_sy.Balancer.Registry.{
  IsRegistry, register-IsRegistry, prune-IsRegistry, proxy_loop-backends,
}

-- What can happen to the balancer, one after the other
pub data Operation : Type 0 where
  register : (address : Bytes) → Operation
  proxy : Incoming → Operation
  metrics : Operation
  prune : Operation

abbrev body_of : Incoming → Bytes
body_of r = elim r.body [ none ↦ [] | some b ↦ b ]

module _ (net : Net) where
  abbrev pub perform : Operation → Balancer → Balancer
  perform (register address) s = (register_handler address s).1
  perform (proxy r) s = (proxy_handler net r s).1
  perform metrics s = (metrics_handler net s).1
  perform prune s = (prune_dead_gateways net s).1

  abbrev pub perform_all : List Operation → Balancer → Balancer
  perform_all [] s = s
  perform_all (o ∷ os) s = perform_all os (perform o s)

  pub proxy_handler-backends :
      (r : Incoming) (s : Balancer) → (proxy_handler net r s).1.backends ≡ s.backends
  unfolding proxy_handler
  proxy_handler-backends r s =
      ground (arith, proxy_loop-backends net (length s.backends) r (body_of r) s)

  metrics_each-backends :
      (bs : List Bytes) (s : Balancer) → (metrics_each net bs s).1.backends ≡ s.backends
  unfolding metrics_each health_check
  metrics_each-backends [] s = refl
  metrics_each-backends (b ∷ bs) s =
      let s₁ = record s { requests = probe (b ++ bytes "/health") ∷ s.requests } in
      ground (
        arith,
        metrics_each-backends bs s₁,
        metrics_each-backends bs
            (record s { requests = probe (b ++ bytes "/metrics") ∷ s₁.requests }),
      )

  pub metrics_lem : (s : Balancer) → (metrics_handler net s).1.backends ≡ s.backends
  unfolding metrics_handler
  metrics_lem s = metrics_each-backends s.backends s

  perform-IsRegistry : (o : Operation) (s : Balancer) → IsRegistry s → IsRegistry (perform o s)
  perform-IsRegistry (register address) s h = register-IsRegistry address s h
  perform-IsRegistry (proxy r) s h = record {
    distinct = rw (proxy_handler-backends r s) h.distinct;
    named = rw (proxy_handler-backends r s) h.named;
  }
  perform-IsRegistry metrics s h = record {
    distinct = rw (metrics_lem s) h.distinct;
    named = rw (metrics_lem s) h.named;
  }
  perform-IsRegistry prune s h = prune-IsRegistry net s h

  -- However the network answers, any sequence of registrations, proxied requests, metrics requests
  -- and prunings keeps the registry free of double entries and of the empty address.
  pub perform_all-IsRegistry :
      (os : List Operation) (s : Balancer) → IsRegistry s → IsRegistry (perform_all os s)
  perform_all-IsRegistry [] s h = h
  perform_all-IsRegistry (o ∷ os) s h =
      perform_all-IsRegistry os (perform o s) (perform-IsRegistry o s h)
