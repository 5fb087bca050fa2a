-- ===== src/Balancer/Refinement.antt =====
-- load_balancer.go: the registry refines a set of addresses.
use distributed_messaging_sy.Base.{
  ◌≡◌, refl, sym, ◌∙◌, ap, Bool, is_empty, if◌then◌else◌, Bytes, bytes, List, [], ◌∷◌, ◌++◌, Option,
  arith, returns, Bool-cases, inl, inr,
}
use distributed_messaging_sy.Balancer.{
  Balancer, Net, Sent, Reply, probe, is_ok, is_registered, register_handler, prune_each,
  prune_dead_gateways, health_check,
}
use mathlib.Core.List.{append_assoc, append-nil}
use distributed_messaging_sy.Balancer.History.{
  Operation, register, proxy, metrics, prune, perform, perform_all, proxy_handler-backends,
  metrics_lem,
}
use distributed_messaging_sy.Balancer.RoundRobin.{unchanging}
use distributed_messaging_sy.Balancer.Members.{
  Members, of_list, join, retain, keep, of_list-append, join_member,
}

-- What an operation does to the set, where the gateways that pass a test are healthy
unfoldable pub effect : (Bytes → Bool) → Operation → Members → Members
effect healthy (register address) m = if is_empty address then m else join address m
effect healthy prune m = retain healthy m
effect healthy (proxy r) m = m
effect healthy metrics m = m

unfoldable pub effects : (Bytes → Bool) → List Operation → Members → Members
effects healthy [] m = m
effects healthy (o ∷ os) m = effects healthy os (effect healthy o m)

register-effect :
    (address : Bytes) (s : Balancer)
    → of_list (register_handler address s).1.backends
      ≡ (if is_empty address then of_list s.backends else join address (of_list s.backends))
unfolding register_handler
register-effect [] s = refl
register-effect (c ∷ cs) s = elim (Bool-cases (is_registered (c ∷ cs) s.backends)) [
  | inl old ↦ rw old (sym (join_member (c ∷ cs) s.backends old))
  | inr new ↦ rw new (of_list-append (c ∷ cs) s.backends)
]

module _ (answer : Sent → Option Reply) (wf : Bytes → Bytes → Bool) where
  abbrev pub healthy : Bytes → Bool
  healthy b = is_ok (answer (probe (b ++ bytes "/health")))

  abbrev net : Net
  net = unchanging answer wf

  prune_each-keep :
      (bs kept : List Bytes) (s : Balancer)
      → (prune_each net bs kept s).0 ≡ returns (kept ++ keep healthy bs)
  unfolding prune_each health_check
  prune_each-keep [] kept s = ap returns (sym (append-nil kept))
  prune_each-keep (b ∷ bs) kept s =
      let s' = record s { requests = probe (b ++ bytes "/health") ∷ s.requests } in
      elim (Bool-cases (healthy b)) [
        | inl up ↦ rw up (
            prune_each-keep bs (kept ++ b ∷ []) s'
            ∙ ap returns (append_assoc kept (b ∷ []) (keep healthy bs)))
        | inr down ↦ rw down (prune_each-keep bs kept s')
      ]

  prune-keep : (s : Balancer) → (prune_dead_gateways net s).1.backends ≡ keep healthy s.backends
  unfolding prune_dead_gateways
  prune-keep s = ground (arith, prune_each-keep s.backends [] s)

  perform-effect :
      (o : Operation) (s : Balancer)
      → of_list (perform net o s).backends ≡ effect healthy o (of_list s.backends)
  unfolding effect retain
  perform-effect (register address) s = register-effect address s
  perform-effect (proxy r) s = ap of_list (proxy_handler-backends net r s)
  perform-effect metrics s = ap of_list (metrics_lem net s)
  perform-effect prune s = ap of_list (prune-keep s)

  -- With a network that answers alike each time, the registry implements a set of addresses: through
  -- any sequence of registrations, proxied requests, metrics requests and prunings, the addresses of
  -- the list are, in whatever order, those of the set from which a registration of a non-empty address
  -- adds this address, a pruning removes the gateways that are not healthy, and the other two do
  -- nothing.
  pub perform_all-effects :
      (os : List Operation) (s : Balancer)
      → of_list (perform_all net os s).backends ≡ effects healthy os (of_list s.backends)
  unfolding effects
  perform_all-effects [] s = refl
  perform_all-effects (o ∷ os) s =
      perform_all-effects os (perform net o s) ∙ ap (effects healthy os) (perform-effect o s)
