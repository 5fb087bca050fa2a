-- ===== src/Balancer/Resent.antt =====
-- load_balancer.go, `proxyHandler`: how often a request is sent on.
use mathlib.Core.Path.{subst}
use distributed_messaging_sy.Base.{
  ℕ, zero, suc, ◌+◌, ◌≡◌, ◌≢◌, inl, inr, refl, ◌∙◌, sym, true, length, Bytes, bytes, List, [], ◌∷◌,
  ◌++◌, none, some, arith, returns, http_error, unwritten,
}
use distributed_messaging_sy.Balancer.{
  Balancer, Net, Sent, Incoming, probe, forward, is_ok, get_next_backend, health_check, try_target,
  proxy_loop, proxy_handler,
}
use distributed_messaging_sy.Balancer.Registry.{In, Empty-cases, get_next_backend_total}

-- The requests of clients that were sent on
unfoldable pub forwards : List Sent → ℕ
forwards [] = 0
forwards (forward _ _ _ _ ∷ rs) = suc (forwards rs)
forwards (_ ∷ rs) = forwards rs

-- Every gateway is healthy, and every answer to a request that is sent on is lost.
pub record Loses (net : Net) : Type 0 where
  pub healthy : (h : List Sent) (url : Bytes) → is_ok (net.answer h (probe url)) ≡ true
  pub lost :
      (h : List Sent) (method url body : Bytes) (headers : List (Bytes × Bytes))
      → net.answer h (forward method url body headers) ≡ none
  pub well_formed : (method url : Bytes) → net.well_formed method url ≡ true

module _ (net : Net) (loses : Loses net) (r : Incoming) (body : Bytes) where
  try_target-loses :
      (y : Bytes) (s : Balancer)
      → y ≢ []
      → let after = try_target net r body y s in
        (after.0 ≡ returns none)
        × (forwards after.1.requests ≡ forwards s.requests + 1)
        × (after.1.backends ≡ s.backends)
  unfolding try_target health_check forwards
  try_target-loses [] s n = absurd (n refl)
  try_target-loses (c ∷ y) s n =
      let url = (c ∷ y) ++ bytes "/health" in
      let h = probe url ∷ s.requests in
      ground (
        arith,
        loses.healthy s.requests url,
        loses.well_formed r.method ((c ∷ y) ++ r.path),
        loses.lost h r.method ((c ∷ y) ++ r.path) body r.headers,
      )

  loop-loses :
      (n : ℕ) (s : Balancer)
      → s.backends ≢ []
      → ¬ In [] s.backends
      → let after = proxy_loop net n r body s in
        (after.0 ≡ returns none) × (forwards after.1.requests ≡ forwards s.requests + n)
  unfolding proxy_loop
  loop-loses zero s ne named = ground arith
  loop-loses (suc n) s ne named =
      let (y, e, chosen, b, q) = get_next_backend_total s in
      let s₁ = (get_next_backend s).1 in
      let named_y : y ≢ [] = λ empty. elim chosen [
        | inl (none_left, _) ↦ ne none_left
        | inr m ↦ named (subst (λ x. In x s.backends) empty m)
      ] in
      let (back, one_more, b₁) = try_target-loses y s₁ named_y in
      let s₂ = (try_target net r body y s₁).1 in
      let same = b₁ ∙ b in
      ground (
        arith,
        e,
        q,
        back,
        one_more,
        loop-loses n s₂ (λ em. ne (sym same ∙ em)) (subst (λ bs. ¬ In [] bs) (sym same) named),
      )

  -- If every gateway is healthy, every address makes a URL, and every answer to a request that is sent
  -- on is lost: with a registry that is not empty and holds no empty address, a client's request with
  -- a readable body, a POST included, is sent on as often as gateways are registered, and the client
  -- is then told with status 503 that no gateway is healthy.
  pub proxy_handler-resends :
      (s : Balancer)
      → r.body ≡ some body
      → s.backends ≢ []
      → ¬ In [] s.backends
      → let after = proxy_handler net r s in
        (forwards after.1.requests ≡ forwards s.requests + length s.backends)
        × (after.0 ≡ returns (http_error (bytes "All backends unhealthy") 503 unwritten))
  unfolding proxy_handler
  proxy_handler-resends s whole ne named = elim (Empty-cases s.backends) [
    | inl e ↦ absurd (ne e)
    | inr (b, bs, some_backend) ↦
        ground (arith, some_backend, loop-loses (length s.backends) s ne named)
  ]
