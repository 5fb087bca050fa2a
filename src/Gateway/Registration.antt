-- ===== src/Gateway/Registration.antt =====
-- gateway/server.go and load_balancer.go: the gateway gets into the registry.
use distributed_messaging_sy.Base.{
  ℕ, zero, suc, ◌+◌, ◌*◌, ◌≡◌, refl, Bool, true, false, is_empty, bytes_eq_refl, if◌then◌else◌,
  Bytes, bytes, List, [], ◌∷◌, some, arith,
}
use distributed_messaging_sy.Balancer.{Balancer, register_handler, is_registered}
use distributed_messaging_sy.Balancer.Members.{is_registered-append}
use distributed_messaging_sy.Gateway.Register.{
  Fate, lost, unanswered, answered, World, post_form, register_tries, register_with_load_balancer,
  self_address, status_of,
}

-- One of the first posts reaches the balancer.
abbrev pub reached : ℕ → List Fate → Bool
reached zero fs = false
reached (suc n) [] = false
reached (suc n) (lost ∷ fs) = reached n fs
reached (suc n) (_ ∷ fs) = true

-- The number of posts before the first that is answered, if one of the first is, or of them all
abbrev pub failures : ℕ → List Fate → ℕ
failures zero fs = 0
failures (suc n) [] = failures n [] + 1
failures (suc n) (answered ∷ fs) = 0
failures (suc n) (_ ∷ fs) = failures n fs + 1

-- One of the first posts is answered.
abbrev pub confirmed : ℕ → List Fate → Bool
confirmed zero fs = false
confirmed (suc n) [] = false
confirmed (suc n) (answered ∷ fs) = true
confirmed (suc n) (_ ∷ fs) = confirmed n fs

register_answers :
    (a : Bytes) (b : Balancer) → is_empty a ≡ false → status_of (register_handler a b).0 ≡ some 200
unfolding register_handler
register_answers a b n = ground (arith, n)

registered-is_registered :
    (a : Bytes) (b : Balancer)
    → is_empty a ≡ false
    → is_registered a (register_handler a b).1.backends ≡ true
unfolding register_handler is_registered
registered-is_registered a b n =
    ground (arith, n, is_registered-append a b.backends (a ∷ []), bytes_eq_refl a)

register_known :
    (a : Bytes) (b : Balancer)
    → is_empty a ≡ false
    → is_registered a b.backends ≡ true
    → (register_handler a b).1 ≡ b
unfolding register_handler
register_known a b n known = ground (arith, n, known)

-- A second registration of an address changes nothing.
register_again :
    (a : Bytes) (b : Balancer)
    → is_empty a ≡ false
    → (register_handler a (register_handler a b).1).1 ≡ (register_handler a b).1
register_again a b n = register_known a (register_handler a b).1 n (registered-is_registered a b n)

nil_lem : (n : ℕ) → (reached n [] ≡ false) × (confirmed n [] ≡ false)
nil_lem zero = (refl, refl)
nil_lem (suc n) = (refl, refl)

module _ (a : Bytes) (named : is_empty a ≡ false) where
  abbrev world : Balancer → List Fate → ℕ → World
  world b fs ms = record { balancer = b; fates = fs; pauses_ms = ms }

  tries_lem :
      (n : ℕ) (b : Balancer) (fs : List Fate) (ms : ℕ)
      → let r = register_tries n a (world b fs ms) in
        (r.0 ≡ confirmed n fs)
        × (r.1.balancer ≡ (if reached n fs then (register_handler a b).1 else b))
        × (r.1.pauses_ms ≡ ms + 1000 * failures n fs)
  unfolding register_tries post_form
  tries_lem zero b fs ms = ground arith
  tries_lem (suc n) b [] ms = ground (arith, tries_lem n b [] (ms + 1000), nil_lem n)
  tries_lem (suc n) b (lost ∷ fs) ms = ground (arith, tries_lem n b fs (ms + 1000))
  tries_lem (suc n) b (answered ∷ fs) ms = ground (arith, register_answers a b named)
  tries_lem (suc n) b (unanswered ∷ fs) ms =
      ground (arith, register_again a b named, tries_lem n (register_handler a b).1 fs (ms + 1000))

-- Whatever the network does with the posts: the gateway learns that it is registered exactly if one of
-- its first five posts is answered; the balancer is as after one registration of the gateway's address
-- if one of the posts up to there reaches it, however many do, and unchanged otherwise; and the gateway
-- sleeps one second after each post that is not answered.
pub register_with_load_balancer_lem :
    (port : ℕ) (w : World)
    → let r = register_with_load_balancer port w in
      (r.0 ≡ confirmed 5 w.fates)
      × (r.1.balancer ≡ (
          if reached 5 w.fates
          then (register_handler (self_address port) w.balancer).1
          else w.balancer))
      × (r.1.pauses_ms ≡ w.pauses_ms + 1000 * failures 5 w.fates)
unfolding register_with_load_balancer bytes
register_with_load_balancer_lem port w =
    tries_lem (self_address port) refl 5 w.balancer w.fates w.pauses_ms
