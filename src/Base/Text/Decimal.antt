-- ===== src/Base/Text/Decimal.antt =====
-- The fuel of `decimal`: a printed number is read back.
use Prim.Native.Nat.{ℕ, zero, suc, ◌+◌, ◌*◌, ◌-◌, ◌/◌, ◌%◌, ◌<◌, ◌≤◌}
use mathlib.Core.Path.{◌≡◌, ap, ◌∙◌}
use mathlib.Core.Logic.{inl, inr}
use mathlib.Core.Bool.{false}
use mathlib.Core.List.{[], ◌∷◌}
use native.Mathlib.Omega.{arith}
use sso_operator.Base.Tests.{ltb, Bool-cases}
use sso_operator.Base.Text.{Str, decimal_digits, decimal}

-- The number that digits stand for, behind those already read.
abbrev read : ℕ → Str → ℕ
read a [] = a
read a (c ∷ cs) = read (10 * a + (c - b'0')) cs

printed : (n : ℕ) → 10 * 0 + ((48 + n) - 48) ≡ n
printed n = omega arith

divided : (n : ℕ) → 10 * (n / 10) + ((48 + n % 10) - 48) ≡ n
divided n = omega arith

at_least : (n : ℕ) → ltb n 10 ≡ false → 10 ≤ n
at_least n e = ground arith

smaller : (n f : ℕ) → n < suc f → 10 ≤ n → n / 10 < f
smaller n f h k = omega arith

read-decimal_digits : (f n : ℕ) (out : Str) → n < f → read 0 (decimal_digits f n out) ≡ read n out
unfolding decimal_digits
read-decimal_digits zero n out h = absurd (omega arith)
read-decimal_digits (suc f) n out h = elim (Bool-cases (ltb n 10)) [
  | inl e ↦ rw e (ap (λ z. read z out) (printed n))
  | inr e ↦ rw e (
      read-decimal_digits f (n / 10) ((48 + n % 10) ∷ out) (smaller n f h (at_least n e))
      ∙ ap (λ z. read z out) (divided n))
]

read-decimal : (n : ℕ) → read 0 (decimal n) ≡ n
unfolding decimal
read-decimal n = read-decimal_digits (suc n) n [] (omega arith)
