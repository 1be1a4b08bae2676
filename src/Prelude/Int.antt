-- ===== src/Prelude/Int.antt =====
-- Go's `int` where the program compares it with 0, prints it, and makes a duration of it.
use Prim.Native.Nat.{ℕ, zero, suc, ◌*◌, ◌-◌, ◌%◌}
use mathlib.Core.Bool.{Bool, true, false}
use mathlib.Core.List.{◌∷◌}
use exchange_rate_quote_serv.Prelude.Texts.{Text}
use exchange_rate_quote_serv.Prelude.Decimal.{decimal}

-- `negsuc n` is -(n + 1).
pub data ℤ : Type 0 where
  pos negsuc : ℕ → ℤ

-- `n > 0` and `n < 0`
abbrev pub is_positive : ℤ → Bool
is_positive (pos zero) = false
is_positive (pos (suc _)) = true
is_positive (negsuc _) = false

abbrev pub is_negative : ℤ → Bool
is_negative (pos _) = false
is_negative (negsuc _) = true

-- `%d`
unfoldable pub signed_decimal : ℤ → Text
signed_decimal (pos n) = decimal n
signed_decimal (negsuc n) = b'-' ∷ decimal (suc n)

-- `time.Duration(n) * time.Second`: nanoseconds in 64 bits, negative ones in two's complement.
abbrev word_size : ℕ
word_size = 18446744073709551616

unfoldable pub seconds : ℤ → ℕ
seconds (pos n) = (n * 1000000000) % word_size
seconds (negsuc n) = (word_size - (suc n * 1000000000) % word_size) % word_size
