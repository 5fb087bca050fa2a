-- ===== src/Balancer/Registry.antt =====
-- load_balancer.go: what the registry holds after registrations, prunings and proxied requests.
use mathlib.Core.List.{append_assoc, append-nil}
use distributed_messaging_sy.Base.{
  ℕ, zero, suc, ◌+◌, ◌%◌, ◌^◌, ◌<◌, ◌≡◌, ◌⊎◌, inl, inr, refl, sym, true, bytes_eq_iff, Bytes, bytes,
  List, [], ◌∷◌, ◌++◌, some, arith, returns, Bool-cases, length, get_elem?,
}
use distributed_messaging_sy.Balancer.{
  Balancer, Net, Incoming, probe, is_ok, register_handler, is_registered, prune_each,
  prune_dead_gateways, health_check, proxy_loop, try_target, get_next_backend,
}

-- A text stands in a list.
abbrev pub In : Bytes → List Bytes → Type 0
In a [] = ⊥
In a (b ∷ bs) = (b ≡ a) ⊎ In a bs

-- No text stands twice in a list.
abbrev pub Distinct : List Bytes → Type 0
Distinct [] = Unit {0}
Distinct (b ∷ bs) = (¬ In b bs) × Distinct bs

is_registered-In : (a : Bytes) (bs : List Bytes) → is_registered a bs ≡ true → In a bs
unfolding is_registered
is_registered-In a [] h = cc
is_registered-In a (b ∷ bs) h = ground (arith, bytes_eq_iff b a, is_registered-In a bs)

In-is_registered : (a : Bytes) (bs : List Bytes) → In a bs → is_registered a bs ≡ true
unfolding is_registered
In-is_registered a [] h = absurd h
In-is_registered a (b ∷ bs) h = ground (arith, bytes_eq_iff b a, In-is_registered a bs)

In-append_one : (a c : Bytes) (bs : List Bytes) → In a (bs ++ c ∷ []) → In a bs ⊎ (c ≡ a)
In-append_one a c [] h = ground arith
In-append_one a c (b ∷ bs) h = ground (arith, In-append_one a c bs)

In-last : (c : Bytes) (bs : List Bytes) → In c (bs ++ c ∷ [])
In-last c [] = inl refl
In-last c (b ∷ bs) = inr (In-last c bs)

Distinct-append_one :
    (c : Bytes) (bs : List Bytes) → ¬ In c bs → Distinct bs → Distinct (bs ++ c ∷ [])
Distinct-append_one c [] h d = (λ x. x, tt)
Distinct-append_one c (b ∷ bs) h d = (
  λ i. elim (In-append_one b c bs i) [ inl x ↦ d.0 x | inr e ↦ h (inl (sym e)) ],
  Distinct-append_one c bs (λ i. h (inr i)) d.1,
)

-- Without the entry after `kept`, the rest stays in, and stays distinct.
In-skip : (a b : Bytes) (kept bs : List Bytes) → In a (kept ++ bs) → In a (kept ++ b ∷ bs)
In-skip a b [] bs h = inr h
In-skip a b (k ∷ kept) bs (inl e) = inl e
In-skip a b (k ∷ kept) bs (inr h) = inr (In-skip a b kept bs h)

Distinct-skip :
    (b : Bytes) (kept bs : List Bytes) → Distinct (kept ++ b ∷ bs) → Distinct (kept ++ bs)
Distinct-skip b [] bs d = d.1
Distinct-skip b (k ∷ kept) bs d = (λ i. d.0 (In-skip k b kept bs i), Distinct-skip b kept bs d.1)

-- Every entry is a registered address, and none is there twice.
pub record IsRegistry (s : Balancer) : Type 0 where
  pub distinct : Distinct s.backends
  pub named : ¬ In [] s.backends

-- What a pruning may leave of a list
record Pruned (old new : List Bytes) : Type 0 where
  distinct : Distinct new
  from : (a : Bytes) → In a new → In a old

pub Empty-cases : (bs : List Bytes) → (bs ≡ []) ⊎ ((x : Bytes) × (xs : List Bytes) × (bs ≡ x ∷ xs))
Empty-cases [] = inl refl
Empty-cases (x ∷ xs) = inr (x, xs, refl)

pub get_elem?-lt :
    (bs : List Bytes) (i : ℕ) → i < length bs → (x : Bytes) × (get_elem? bs i ≡ some x) × In x bs
get_elem?-lt [] i h = absurd (omega arith)
get_elem?-lt (b ∷ bs) zero h = (b, refl, inl refl)
get_elem?-lt (b ∷ bs) (suc i) h = let (x, e, m) = get_elem?-lt bs i (omega arith) in (x, e, inr m)

-- The index of the round robin is in range: the call returns, the empty text for an empty registry
-- and an entry otherwise, and touches neither the registry nor the network.
pub get_next_backend_total :
    (s : Balancer)
    → (x : Bytes) × ((get_next_backend s).0 ≡ returns x)
      × ((s.backends ≡ []) × (x ≡ []) ⊎ In x s.backends)
      × ((get_next_backend s).1.backends ≡ s.backends)
      × ((get_next_backend s).1.requests ≡ s.requests)
unfolding get_next_backend
get_next_backend_total s = elim (Empty-cases s.backends) [
  | inl e ↦ ([], ground arith, inl (e, refl), ground arith, ground arith)
  | inr (b, bs, e) ↦
      let (x, at, m) =
        get_elem?-lt (b ∷ bs) ((s.current + 1) % 2 ^ 64 % length (b ∷ bs)) (omega arith) in
      (x, ground arith, inr (rw e m), ground arith, ground arith)
]

module _ (net : Net) where
  prune_each-Pruned :
      (bs kept : List Bytes) (s : Balancer)
      → Distinct (kept ++ bs)
      → (new : List Bytes) × ((prune_each net bs kept s).0 ≡ returns new)
        × Pruned (kept ++ bs) new
        × ((prune_each net bs kept s).1.backends ≡ s.backends)
  unfolding prune_each health_check
  prune_each-Pruned [] kept s d =
      (kept, refl, record { distinct = rw append-nil at d; from = λ a h. rw append-nil h }, refl)
  prune_each-Pruned (b ∷ bs) kept s d =
      elim (Bool-cases (is_ok (net.answer s.requests (probe (b ++ bytes "/health"))))) [
        | inl up ↦
            let (new, e, p, k) = prune_each-Pruned bs (kept ++ b ∷ []) s' (rw append_assoc d) in
            (new, rw up e, rw append_assoc at p, rw up k)
        | inr down ↦
            let (new, e, p, k) = prune_each-Pruned bs kept s' (Distinct-skip b kept bs d) in
            (
              new,
              rw down e,
              record { distinct = p.distinct; from = λ a h. In-skip a b kept bs (p.from a h) },
              rw down k,
            )
      ]
    where
      s' : Balancer
      s' = record s { requests = probe (b ++ bytes "/health") ∷ s.requests }

  pub prune-IsRegistry : (s : Balancer) → IsRegistry s → IsRegistry (prune_dead_gateways net s).1
  unfolding prune_dead_gateways
  prune-IsRegistry s h =
      let (new, e, p, k) = prune_each-Pruned s.backends [] s h.distinct in
      rw (e, prune_dead_gateways)
        (record { distinct = p.distinct; named = λ i. h.named (p.from [] i) })

  try_target-backends :
      (r : Incoming) (body target : Bytes) (s : Balancer)
      → (try_target net r body target s).1.backends ≡ s.backends
  unfolding try_target health_check
  try_target-backends r body target s = ground arith

  pub proxy_loop-backends :
      (n : ℕ) (r : Incoming) (body : Bytes) (s : Balancer)
      → (proxy_loop net n r body s).1.backends ≡ s.backends
  unfolding proxy_loop
  proxy_loop-backends zero r body s = refl
  proxy_loop-backends (suc n) r body s =
      let (x, e, m, k, q) = get_next_backend_total s in
      let s₁ = (get_next_backend s).1 in
      ground (
        arith,
        e,
        k,
        try_target-backends r body x s₁,
        proxy_loop-backends n r body (try_target net r body x s₁).1,
      )

pub register-IsRegistry :
    (a : Bytes) (s : Balancer) → IsRegistry s → IsRegistry (register_handler a s).1
unfolding register_handler
register-IsRegistry [] s h = h
register-IsRegistry (c ∷ a) s h = elim (Bool-cases (is_registered (c ∷ a) s.backends)) [
  | inl old ↦ rw old h
  | inr new ↦ rw new (record {
    distinct =
        Distinct-append_one (c ∷ a) s.backends
          (λ i. cc (new, In-is_registered (c ∷ a) s.backends i)) h.distinct;
    named = λ i. elim (In-append_one [] (c ∷ a) s.backends i) [ inl x ↦ h.named x | inr e ↦ cc ];
  })
]
