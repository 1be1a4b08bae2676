-- ===== src/Prelude/Unicode.antt =====
-- What the service uses of Go's `strings`, `unicode` and `unicode/utf8`, over code points.
pub mod Splits
use exchange_rate_quote_serv.Prelude.Tests.{ltb, leb, ◌==◌, if◌then◌else◌}
use exchange_rate_quote_serv.Prelude.Texts.{Text}
use Prim.Native.Nat.{ℕ, ◌+◌, ◌-◌, ◌≤◌}
use mathlib.Core.Path.{◌≡◌}
use mathlib.Core.Logic.{◌⊎◌}
use mathlib.Core.Bool.{Bool, ◌&&◌, ◌||◌}
use mathlib.Core.List.{List, [], ◌∷◌, map, reverse}

-- The bytes that a code point takes in UTF-8.
unfoldable pub rune_len : ℕ → ℕ
rune_len c = if ltb c 0x80 then 1 else if ltb c 0x800 then 2 else if ltb c 0x10000 then 3 else 4

-- `len(s)`, in bytes.
unfoldable pub len : Text → ℕ
len [] = 0
len (c ∷ s) = rune_len c + len s

-- `unicode.ToUpper` below 0x80.
unfoldable pub ascii_upper : ℕ → ℕ
ascii_upper c = if leb b'a' c && leb c b'z' then c - 32 else c

-- `strings.ToUpper`, over the case table of the Unicode character database, which is data of
-- Go's standard library and enters as a parameter.
unfoldable pub to_upper : (ℕ → ℕ) → Text → Text
unfolding ascii_upper
to_upper upper = map (λ c. if ltb c 0x80 then ascii_upper c else upper c)

-- What the database says of the code points from 0x80: two of them, dotless i and long s, have a
-- capital below 0x80, I and S.
pub record IsCaseTable (upper : ℕ → ℕ) : Type 0 where
  pub dotless_i : upper 0x131 ≡ b'I'
  pub long_s : upper 0x17f ≡ b'S'
  pub others : (c : ℕ) → 0x80 ≤ c → (0x80 ≤ upper c) ⊎ (c ≡ 0x131) ⊎ (c ≡ 0x17f)

-- `unicode.IsSpace`.
unfoldable pub is_space : ℕ → Bool
is_space c =
    leb 9 c && leb c 13
    || c == 32
    || c == 0x85
    || c == 0xa0
    || c == 0x1680
    || leb 0x2000 c && leb c 0x200a
    || c == 0x2028
    || c == 0x2029
    || c == 0x202f
    || c == 0x205f
    || c == 0x3000

trim_left : (ℕ → Bool) → Text → Text
trim_left p [] = []
trim_left p (c ∷ s) = let rest = trim_left p s in if p c then rest else c ∷ s

-- Cut what satisfies `p` off the right end.
unfoldable pub trim_right : (ℕ → Bool) → Text → Text
unfolding trim_left
trim_right p s = reverse (trim_left p (reverse s))

-- `strings.TrimSpace`.
unfoldable pub trim_space : Text → Text
unfolding trim_left trim_right is_space
trim_space s = trim_right is_space (trim_left is_space s)

cut_at : ℕ → Text → Text → List Text
cut_at sep cur [] = reverse cur ∷ []
cut_at sep cur (c ∷ s) =
    let closed = reverse cur ∷ cut_at sep [] s in
    let longer = cut_at sep (c ∷ cur) s in if c == sep then closed else longer

-- `strings.Split(s, sep)` for a separator of one code point; the part read so far is reversed.
unfoldable pub split : ℕ → Text → List Text
unfolding cut_at
split sep s = cut_at sep [] s
