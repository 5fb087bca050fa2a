-- ===== src/Base/Hex.antt =====
-- The hexadecimal text of a number, and the number that such a text stands for.
use Prim.Native.Nat.{ℕ, zero, suc, ◌+◌, ◌-◌, ◌*◌, ◌/◌, ◌%◌, ◌<◌}
use mathlib.Core.Path.{◌≡◌, refl, sym, ap, ◌∙◌}
use mathlib.Core.List.{[], ◌∷◌, ◌++◌}
use native.Mathlib.Omega.{arith}
use native.Mathlib.Decide.{dec_lt}
use distributed_messaging_sy.Base.Tests.{ltb, if◌then◌else◌}
use distributed_messaging_sy.Base.Text.{Bytes, bytes}

-- `%x` of a number that is not negative, with fuel for its digits
abbrev hex_digit : ℕ → ℕ
hex_digit n = if ltb n 10 then b'0' + n else b'a' + (n - 10)

hex_digits : ℕ → ℕ → Bytes
hex_digits zero n = []
hex_digits (suc f) n =
    let rest = hex_digits f (n / 16) in
    if ltb n 16 then hex_digit n ∷ [] else rest ++ hex_digit (n % 16) ∷ []

unfoldable pub hexadecimal : ℕ → Bytes
unfolding hex_digits
hexadecimal n = hex_digits (n + 1) n

hexadecimal_runs : hexadecimal 48879 ≡ bytes "beef"
unfolding hexadecimal bytes
hexadecimal_runs = refl

-- The number that a hexadecimal text stands for
abbrev hex_value : ℕ → ℕ
hex_value c = if ltb c 58 then c - 48 else c - 87

hex_read : ℕ → Bytes → ℕ
hex_read acc [] = acc
hex_read acc (c ∷ s) = hex_read (acc * 16 + hex_value c) s

hex_read-append :
    (acc c : ℕ) (s : Bytes) → hex_read acc (s ++ c ∷ []) ≡ hex_read acc s * 16 + hex_value c
unfolding hex_read
hex_read-append acc c [] = refl
hex_read-append acc c (d ∷ s) = hex_read-append (acc * 16 + hex_value d) c s

hex_value-digit : (n : ℕ) → n < 16 → hex_value (hex_digit n) ≡ n
hex_value-digit n h = ground arith

hex_read-digits : (f n : ℕ) → n < f → hex_read 0 (hex_digits f n) ≡ n
unfolding hex_digits hex_read
hex_read-digits zero n h = absurd (omega arith)
hex_read-digits (suc f) n h = elim (dec_lt n 16) [
  | yes small ↦ ground (arith, hex_value-digit n small)
  | no big ↦
      let rest = hex_read-digits f (n / 16) (omega arith) in
      ground (
        arith,
        rest,
        hex_value-digit (n % 16) (omega arith),
        hex_read-append 0 (hex_digit (n % 16)) (hex_digits f (n / 16)),
      )
]

-- Two numbers with the same hexadecimal text are the same.
pub hexadecimal-injective : (m n : ℕ) → hexadecimal m ≡ hexadecimal n → m ≡ n
unfolding hexadecimal
hexadecimal-injective m n e =
    sym (hex_read-digits (m + 1) m (omega arith))
    ∙ ap (hex_read 0) e
    ∙ hex_read-digits (n + 1) n (omega arith)
