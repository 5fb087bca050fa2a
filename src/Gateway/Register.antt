-- ===== src/Gateway/Register.antt =====
-- gateway/server.go, `registerWithLoadBalancer`, over a network that loses posts and answers. The name
-- of the host, which the balancer does not read, is left out.
use distributed_messaging_sy.Base.{
  ℕ, zero, suc, ◌+◌, Bool, true, false, ◌==◌, decimal, Bytes, bytes, List, [], ◌∷◌, ◌++◌, Option,
  none, some, Outcome, Response,
}
use distributed_messaging_sy.Balancer.{Balancer, register_handler}

-- What becomes of a post: it is lost, or the balancer handles it and the answer is lost, or neither
pub data Fate : Type 0 where
  lost : Fate
  unanswered : Fate
  answered : Fate

pub record World : Type 0 where
  pub balancer : Balancer
  pub fates : List Fate  -- of the posts to come; then all are lost
  pub pauses_ms : ℕ  -- how long the gateway has slept

abbrev pub status_of : Outcome Response → Option ℕ
status_of (Outcome.returns r) = r.status
status_of _ = none

abbrev handled : Bytes → List Fate → World → World
handled address fs w = record w { balancer = (register_handler address w.balancer).1; fates = fs }

abbrev meet : List Fate → Bytes → World → Option ℕ × World
meet [] address w = (none, w)
meet (lost ∷ fs) address w = (none, record w { fates = fs })
meet (unanswered ∷ fs) address w = (none, handled address fs w)
meet (answered ∷ fs) address w =
    (status_of (register_handler address w.balancer).0, handled address fs w)

-- `http.PostForm(lbURL, …)`: the status, or an error
unfoldable pub post_form : Bytes → World → Option ℕ × World
post_form address w = meet w.fates address w

abbrev pub is_ok : Option ℕ → Bool
is_ok none = false
is_ok (some code) = code == 200

abbrev slept : World → World
slept w = record w { pauses_ms = w.pauses_ms + 1000 }

-- The loop, with the tries left: whether a try succeeded
unfoldable pub register_tries : ℕ → Bytes → World → Bool × World
register_tries zero self w = (false, w)
register_tries (suc n) self w =
    let (code, w') = post_form self w in
    elim (is_ok code) [ true ↦ (true, w') | false ↦ register_tries n self (slept w') ]

-- `fmt.Sprintf("http://localhost:%d", port)`
abbrev pub self_address : ℕ → Bytes
self_address port = bytes "http://localhost:" ++ decimal port

unfoldable pub register_with_load_balancer : ℕ → World → Bool × World
unfolding register_tries
register_with_load_balancer port = register_tries 5 (self_address port)
