-- ===== src/Base/Monad.antt =====
-- Go functions that read and write a state `S`. A call returns, ends the process (`log.Fatalf`), or
-- panics; what was written before stays written.
use mathlib.Core.Path.{◌≡◌, refl}
use mathlib.Core.Option.{Option, none, some}

pub data Outcome {ℓ} (A : Type ℓ) : Type ℓ where
  returns : A → Outcome A
  exits : Outcome A
  panics : Outcome A

abbrev pub Go {ℓ κ} : Type ℓ → Type κ → Type (ℓ ⊔ κ)
Go S A = S → Outcome A × S

module _ {ℓ κ} {S : Type ℓ} {A : Type κ} where
  abbrev pub pure : A → Go S A
  pure a s = (returns a, s)

  abbrev pub fatal : Go S A
  fatal s = (exits, s)

  abbrev pub panic : Go S A
  panic s = (panics, s)

abbrev pub gets {ℓ κ} : {S : Type ℓ} {A : Type κ} → (S → A) → Go S A
gets f s = (returns (f s), s)

abbrev pub modify {ℓ} : {S : Type ℓ} → (S → S) → Go S (Unit {0})
modify f s = (returns tt, f s)

abbrev continue {ℓ κ μ} : {S : Type ℓ} {A : Type κ} {B : Type μ} → Outcome A → (A → Go S B) → Go S B
continue (returns a) f s = f a s
continue exits f s = (exits, s)
continue panics f s = (panics, s)

infixl 5 ◌>>=◌ ◌>>◌
abbrev pub ◌>>=◌ {ℓ κ μ} : {S : Type ℓ} {A : Type κ} {B : Type μ} → Go S A → (A → Go S B) → Go S B
◌>>=◌ m f s = let (r, t) = m s in continue r f t

abbrev pub ◌>>◌ {ℓ κ} : {S : Type ℓ} {B : Type κ} → Go S (Unit {0}) → Go S B → Go S B
m >> k = m >>= λ _. k

-- `if err != nil { log.Fatalf(…) }`
abbrev pub must {ℓ κ} : {S : Type ℓ} {E : Type κ} → Option E → Go S (Unit {0})
must none s = (returns tt, s)
must (some _) s = (exits, s)

-- The call came back.
abbrev pub IsReturn {ℓ} : {A : Type ℓ} → Outcome A → Type 0
IsReturn (returns _) = Unit
IsReturn exits = ⊥
IsReturn panics = ⊥

pub IsReturn-value {ℓ} : {A : Type ℓ} (o : Outcome A) → IsReturn o → (a : A) × (o ≡ returns a)
IsReturn-value (returns a) h = (a, refl)
IsReturn-value exits h = absurd h
IsReturn-value panics h = absurd h
