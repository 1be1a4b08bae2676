-- ===== src/Prelude/Decimal.antt =====
-- `%d`: the decimal digits of a number. The fuel is one more than the number, which falls with
-- every digit.
use Prim.Native.Nat.{ℕ, zero, suc, ◌+◌, ◌*◌, ◌/◌, ◌%◌, ◌-◌, ◌<◌}
use mathlib.Core.Path.{◌≡◌}
use mathlib.Core.Logic.{inl, inr}
use mathlib.Core.List.{[], ◌∷◌}
use native.Mathlib.Omega.{arith}
use exchange_rate_quote_serv.Prelude.Tests.{ltb, if◌then◌else◌, Bool-cases}
use exchange_rate_quote_serv.Prelude.Texts.{Text}

digits_from : ℕ → ℕ → Text → Text
digits_from zero n acc = acc
digits_from (suc fuel) n acc =
    let rest = digits_from fuel (n / 10) ((b'0' + n % 10) ∷ acc) in
    if ltb n 10 then (b'0' + n) ∷ acc else rest

unfoldable pub decimal : ℕ → Text
unfolding digits_from
decimal n = digits_from (suc n) n []

-- The number that a text of digits stands for, after the value `acc`.
unfoldable pub value_from : ℕ → Text → ℕ
value_from acc [] = acc
value_from acc (c ∷ s) = value_from (acc * 10 + (c - b'0')) s

-- Printing has enough fuel, and loses nothing.
digits_from-value :
    (fuel n : ℕ) (acc : Text) → n < fuel → value_from 0 (digits_from fuel n acc) ≡ value_from n acc
unfolding digits_from value_from
digits_from-value zero n acc h = absurd (omega arith)
digits_from-value (suc fuel) n acc h = elim (Bool-cases (ltb n 10)) [
  | inl small ↦ rw small (ground arith)
  | inr large ↦ rw large (ground (arith, digits_from-value fuel (n / 10) ((b'0' + n % 10) ∷ acc)))
]

pub value-decimal : (n : ℕ) → value_from 0 (decimal n) ≡ n
unfolding decimal value_from
value-decimal n = digits_from-value (suc n) n [] (omega arith)
