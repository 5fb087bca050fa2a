-- ===== src/Balancer/RoundRobin.antt =====
-- load_balancer.go, `proxyHandler`: which gateway serves a request. The network of this module
-- answers the same way each time it is asked.
use mathlib.Core.Path.{subst}
use distributed_messaging_sy.Base.{
  ℕ, zero, suc, ◌+◌, ◌%◌, ◌^◌, ◌<◌, ◌≡◌, ◌≢◌, inl, inr, refl, ◌∙◌, sym, ap, Bool, Option-cases,
  if◌then◌else◌, is_empty, length, get_elem?, Bytes, bytes, List, [], ◌∷◌, ◌++◌, Option, none, some,
  arith, returns, http_error, unwritten,
}
use distributed_messaging_sy.Balancer.{
  Balancer, Net, Sent, Incoming, Reply, probe, forward, is_ok, get_next_backend, health_check,
  try_target, proxy_loop, proxy_handler, relay_reply,
}
use distributed_messaging_sy.Balancer.Rotation.{reaches}
use distributed_messaging_sy.Balancer.Registry.{In, Empty-cases, get_elem?-lt}

abbrev pub unchanging : (Sent → Option Reply) → (Bytes → Bytes → Bool) → Net
unchanging answer wf = record { answer = λ _ r. answer r; well_formed = wf }

In-get_elem? :
    (x : Bytes) (bs : List Bytes) → In x bs → (j : ℕ) × (j < length bs) × (get_elem? bs j ≡ some x)
In-get_elem? x [] h = absurd h
In-get_elem? x (b ∷ bs) (inl e) = (0, omega arith, ap some e)
In-get_elem? x (b ∷ bs) (inr h) = let (j, lt, e) = In-get_elem? x bs h in (suc j, omega arith, e)

-- Without a wrap, the next gateway is the entry at the next index.
next_lem :
    (s : Balancer)
    → s.current + 1 < 2 ^ 64
    → s.backends ≢ []
    → (y : Bytes) × (get_elem? s.backends ((s.current + 1) % length s.backends) ≡ some y)
      × In y s.backends
      × ((get_next_backend s).0 ≡ returns y)
      × ((get_next_backend s).1.current ≡ s.current + 1)
      × ((get_next_backend s).1.backends ≡ s.backends)
unfolding get_next_backend
next_lem s small some_backend = elim (Empty-cases s.backends) [
  | inl e ↦ absurd (some_backend e)
  | inr (b, bs, e) ↦
      let (y, at, m) = get_elem?-lt (b ∷ bs) ((s.current + 1) % length (b ∷ bs)) (omega arith) in
      let same : (s.current + 1) % 2 ^ 64 ≡ s.current + 1 = omega arith in
      (y, rw e at, rw e m, ground arith, ground arith, ground arith)
]

at_index :
    (bs : List Bytes) (a b len : ℕ) {x : Bytes}
    → a ≡ b
    → get_elem? bs (b % len) ≡ some x
    → get_elem? bs (a % len) ≡ some x
at_index bs a b len e h = rw e h

module _ (answer : Sent → Option Reply) (wf : Bytes → Bytes → Bool) (r : Incoming)
    (body : Bytes) where
  -- The reply of a gateway, if it is healthy and reachable
  abbrev pub served_by : Bytes → Option Reply
  served_by target =
      if is_empty target
      then none
      else if is_ok (answer (probe (target ++ bytes "/health")))
      then (if wf r.method (target ++ r.path)
          then answer (forward r.method (target ++ r.path) body r.headers)
          else none)
      else none

  try_target_lem :
      (target : Bytes) (s : Balancer)
      → ((try_target (unchanging answer wf) r body target s).0 ≡ returns (served_by target))
        × ((try_target (unchanging answer wf) r body target s).1.current ≡ s.current)
        × ((try_target (unchanging answer wf) r body target s).1.backends ≡ s.backends)
  unfolding try_target health_check
  try_target_lem target s = ground arith

  abbrev net : Net
  net = unchanging answer wf

  -- The state after a try of `y`
  abbrev tried : Bytes → Balancer → Balancer
  tried y s = (try_target net r body y (get_next_backend s).1).1

  round_hit :
      (n : ℕ) (s : Balancer) (y : Bytes) (rep : Reply)
      → (get_next_backend s).0 ≡ returns y
      → served_by y ≡ some rep
      → (proxy_loop net (suc n) r body s).0 ≡ returns (some rep)
  unfolding proxy_loop
  round_hit n s y rep e good = ground (arith, try_target_lem y (get_next_backend s).1)

  round_miss :
      (n : ℕ) (s : Balancer) (y : Bytes)
      → (get_next_backend s).0 ≡ returns y
      → served_by y ≡ none
      → (proxy_loop net (suc n) r body s).0 ≡ (proxy_loop net n r body (tried y s)).0
  unfolding proxy_loop
  round_miss n s y e bad = ground (arith, try_target_lem y (get_next_backend s).1)

  abbrev Found : ℕ → Balancer → Type 0
  Found n s =
      (y : Bytes) × (rep : Reply) × In y s.backends
      × (served_by y ≡ some rep)
      × ((proxy_loop net n r body s).0 ≡ returns (some rep))

  tried_lem :
      (s : Balancer)
      → s.current + 1 < 2 ^ 64
      → s.backends ≢ []
      → (y : Bytes) × (get_elem? s.backends ((s.current + 1) % length s.backends) ≡ some y)
        × In y s.backends
        × ((get_next_backend s).0 ≡ returns y)
        × ((tried y s).current ≡ s.current + 1)
        × ((tried y s).backends ≡ s.backends)
  tried_lem s small ne =
      let (y, next, m, e, c, b) = next_lem s small ne in
      let (_, c', b') = try_target_lem y (get_next_backend s).1 in (y, next, m, e, c' ∙ c, b' ∙ b)

  Found-later :
      (n : ℕ) (s : Balancer) (y : Bytes)
      → (get_next_backend s).0 ≡ returns y
      → served_by y ≡ none
      → (tried y s).backends ≡ s.backends
      → Found n (tried y s)
      → Found (suc n) s
  Found-later n s y e miss b (z, rep, m, good, done) =
      (z, rep, subst (In z) b m, good, round_miss n s y e miss ∙ done)

  loop_finds :
      (n i : ℕ) (s : Balancer) (x : Bytes) (rep : Reply)
      → i < n
      → s.current + n < 2 ^ 64
      → s.backends ≢ []
      → get_elem? s.backends ((s.current + 1 + i) % length s.backends) ≡ some x
      → served_by x ≡ some rep
      → Found n s
  loop_finds zero i s x rep lt small ne at good = absurd (omega arith)
  loop_finds (suc n) i s x rep lt small ne at good =
      let (y, next, m, e, c, b) = tried_lem s (omega arith) ne in
      elim (Option-cases (served_by y)) [
        | inr (rep', hit) ↦ (y, rep', m, hit, round_hit n s y rep' e hit)
        | inl miss ↦ go y i next e c b miss lt at (loop_finds n)
      ]
    where
      go :
          (y : Bytes) (i : ℕ)
          → get_elem? s.backends ((s.current + 1) % length s.backends) ≡ some y
          → (get_next_backend s).0 ≡ returns y
          → (tried y s).current ≡ s.current + 1
          → (tried y s).backends ≡ s.backends
          → served_by y ≡ none
          → i < suc n
          → get_elem? s.backends ((s.current + 1 + i) % length s.backends) ≡ some x
          → ((i : ℕ) (s : Balancer) (x : Bytes) (rep : Reply)
              → i < n
              → s.current + n < 2 ^ 64
              → s.backends ≢ []
              → get_elem? s.backends ((s.current + 1 + i) % length s.backends) ≡ some x
              → served_by x ≡ some rep
              → Found n s)
          → Found (suc n) s
      go y zero next e c b miss lt at rec = cc (
        next,
        at_index s.backends (s.current + 1) (s.current + 1 + 0) _ (omega arith) at,
        miss,
        good,
      )
      go y (suc i) next e c b miss lt at rec = Found-later n s y e miss b (
          rec i (tried y s) x rep (omega arith) (omega arith) (λ em. ne (sym b ∙ em))
            (rw (b, c)
              (at_index s.backends (s.current + 1 + 1 + i) (s.current + 1 + suc i) _ (omega arith)
                at))
            good)

  loop_fails :
      (n : ℕ) (s : Balancer)
      → s.current + n < 2 ^ 64
      → s.backends ≢ []
      → ((y : Bytes) → In y s.backends → served_by y ≡ none)
      → (proxy_loop net n r body s).0 ≡ returns none
  unfolding proxy_loop
  loop_fails zero s small ne bad = refl
  loop_fails (suc n) s small ne bad =
      let (y, next, m, e, c, b) = tried_lem s (omega arith) ne in
      round_miss n s y e (bad y m)
      ∙ loop_fails n (tried y s) (omega arith) (λ em. ne (sym b ∙ em))
          (λ z i. bad z (subst (In z) b i))

  proxy_handler-reply :
      (s : Balancer) (reply : Option Reply)
      → s.backends ≢ []
      → r.body ≡ some body
      → (proxy_loop net (length s.backends) r body s).0 ≡ returns reply
      → (proxy_handler net r s).0 ≡ returns (relay_reply reply)
  unfolding proxy_handler
  proxy_handler-reply s reply ne whole e = elim (Empty-cases s.backends) [
    | inl empty ↦ absurd (ne empty)
    | inr (b, bs, some_backend) ↦ ground (arith, e)
  ]

  -- With a network that answers alike each time, a readable body, a registry that is not empty and
  -- a counter that does not wrap within the round: if some registered gateway is healthy and
  -- replies, the client gets the reply of a registered gateway that is healthy and replies.
  pub proxy_handler-serves :
      (s : Balancer) (x : Bytes) (rep : Reply)
      → s.current + length s.backends < 2 ^ 64
      → r.body ≡ some body
      → In x s.backends
      → served_by x ≡ some rep
      → (y : Bytes) × (rep' : Reply) × In y s.backends
        × (served_by y ≡ some rep')
        × ((proxy_handler net r s).0 ≡ returns (relay_reply (some rep')))
  proxy_handler-serves s x rep small whole here good =
      let ne : s.backends ≢ [] = λ empty. subst (In x) empty here in
      let (j, lt, at) = In-get_elem? x s.backends here in
      let (i, lt', e) = reaches s.current (length s.backends) j lt in
      let (y, rep', m, g, done) =
        loop_finds (length s.backends) i s x rep lt' small ne (rw e at) good in
      (y, rep', m, g, proxy_handler-reply s (some rep') ne whole done)

  -- With a network that answers alike each time, a readable body, a registry that is not empty and
  -- a counter that does not wrap within the round: if no registered gateway is healthy and replies,
  -- the client gets the status 503.
  proxy_handler-fails :
      (s : Balancer)
      → s.current + length s.backends < 2 ^ 64
      → r.body ≡ some body
      → s.backends ≢ []
      → ((y : Bytes) → In y s.backends → served_by y ≡ none)
      → (proxy_handler net r s).0
        ≡ returns (http_error (bytes "All backends unhealthy") 503 unwritten)
  proxy_handler-fails s small whole ne bad =
      proxy_handler-reply s none ne whole (loop_fails (length s.backends) s small ne bad)
