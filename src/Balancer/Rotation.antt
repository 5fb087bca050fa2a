-- ===== src/Balancer/Rotation.antt =====
-- load_balancer.go, `getNextBackend`: the arithmetic of the index.
use native.Mathlib.Nat.{mod-add-mod, mod-eq_of_lt}
use native.Mathlib.Decide.{dec_le}
use distributed_messaging_sy.Base.{ℕ, ◌+◌, ◌-◌, ◌%◌, ◌<◌, ◌≡◌, ◌∙◌, sym, ap, arith}

wrap : (k len : ℕ) → k < len → (k + len) % len ≡ k
wrap k len h = grind arith

ahead : (a len k j : ℕ) → a % len + k ≡ j → j < len → (a + k) % len ≡ j
ahead a len k j e h = sym (mod-add-mod a len k) ∙ ap (λ (t : ℕ). t % len) e ∙ mod-eq_of_lt h

round : (a len k j : ℕ) → a % len + k ≡ j + len → j < len → (a + k) % len ≡ j
round a len k j e h = sym (mod-add-mod a len k) ∙ ap (λ (t : ℕ). t % len) e ∙ wrap j len h

-- From any `c`, every index comes up within one round.
pub reaches : (c len j : ℕ) → j < len → (i : ℕ) × (i < len) × ((c + 1 + i) % len ≡ j)
reaches c len j h = elim (dec_le ((c + 1) % len) j) [
  | yes p ↦ (j - (c + 1) % len, omega arith, ahead (c + 1) len _ j (omega arith) h)
  | no n ↦ (j + len - (c + 1) % len, omega arith, round (c + 1) len _ j (omega arith) h)
]
