-- ===== src/Prelude/Decimal.antt =====
-- The digits of %d: the fuel is enough, since reading them back gives the number.
use Prim.Native.Nat.{ℕ, zero, suc, ◌+◌, ◌*◌, ◌/◌, ◌%◌, ◌^◌, ◌<◌, ◌≤◌}
use mathlib.Core.Path.{◌≡◌, refl, sym, ap, ◌∙◌}
use mathlib.Core.Logic.{inl, inr}
use mathlib.Core.List.{[], ◌∷◌}
use mathlib.Core.Option.{some}
use native.Mathlib.Omega.{arith}
use remote_console.Prelude.Tests.{ltb, Bool-cases}
use remote_console.Prelude.Text.{Str}
use remote_console.Prelude.Strings.{digits_value, decimal, magnitude, atoi, itoa}
use remote_console.Prelude.Int.{pos}

digits_value-digit :
    (a d : ℕ) (s : Str) → d < 10 → digits_value a ((d + 48) ∷ s) ≡ digits_value (a * 10 + d) s
unfolding digits_value
digits_value-digit a d s h = ground arith

same : (j k : ℕ) (s : Str) → j ≡ k → digits_value j s ≡ digits_value k s
same j k s h = ap (λ i. digits_value i s) h

-- The digits of a number, with fuel above it, read as the number.
digits_value-decimal :
    (f n : ℕ) (s : Str) → n < f → digits_value 0 (decimal f n s) ≡ digits_value n s
unfolding decimal
digits_value-decimal zero n s h = absurd (omega (arith, h))
digits_value-decimal (suc f) n s h = elim (Bool-cases (ltb n 10)) [
  | inl small ↦
      rw small
        (digits_value-digit 0 (n % 10) s (omega arith) ∙ same (0 * 10 + n % 10) n s (ground arith))
  | inr large ↦ rw large (
      digits_value-decimal f (n / 10) ((n % 10 + 48) ∷ s) (ground arith)
      ∙ digits_value-digit (n / 10) (n % 10) s (omega arith)
      ∙ same (n / 10 * 10 + n % 10) n s (omega arith))
]

-- The digits begin with one.
decimal-digit :
    (f n : ℕ) (s : Str) → n < f → (c : ℕ) × (rest : Str) × (decimal f n s ≡ c ∷ rest) × (b'0' ≤ c)
unfolding decimal
decimal-digit zero n s h = absurd (omega (arith, h))
decimal-digit (suc f) n s h = elim (Bool-cases (ltb n 10)) [
  | inl small ↦ (n % 10 + 48, s, rw small refl, omega arith)
  | inr large ↦ rw large (decimal-digit f (n / 10) ((n % 10 + 48) ∷ s) (ground arith))
]

-- An int that is not negative is read back from its digits.
pub atoi-itoa : (n : ℕ) → n < 2 ^ 63 → atoi (itoa (pos n)) ≡ some (pos n)
unfolding atoi itoa magnitude
atoi-itoa n h =
    let (c, rest, begins, digit) = decimal-digit (suc n) n [] (omega arith) in
    let read : digits_value 0 (c ∷ rest) ≡ some n =
      ap (digits_value 0) (sym begins)
      ∙ digits_value-decimal (suc n) n [] (omega arith)
      ∙ unfold digits_value in refl in
    rw begins (ground (arith, read, digit, h))
