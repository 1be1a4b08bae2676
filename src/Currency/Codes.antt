-- ===== src/Currency/Codes.antt =====
-- Which texts `IsValidCurrencyCode` accepts, and what `strings.ToUpper` makes of them.
use exchange_rate_quote_serv.Prelude.{
  ℕ, ◌≤◌, Text, Bool, true, false, ◌&&◌, ◌||◌, [], ◌∷◌, ◌==◌, leb, ltb, length, ◌≡◌, refl, ◌∙◌,
  arith, if◌then◌else◌,
}
use exchange_rate_quote_serv.Prelude.Unicode.{rune_len, len, ascii_upper, to_upper, IsCaseTable}
use exchange_rate_quote_serv.Currency.{is_capital, is_valid_currency_code}

abbrev pub is_letter : ℕ → Bool
is_letter c = leb b'A' c && leb c b'Z' || leb b'a' c && leb c b'z'

-- Dotless i and long s.
abbrev pub is_odd : ℕ → Bool
is_odd c = c == 0x131 || c == 0x17f

-- Three letters of the Latin alphabet.
abbrev pub is_three_letters : Text → Bool
is_three_letters (a ∷ b ∷ c ∷ []) = is_letter a && is_letter b && is_letter c
is_three_letters _ = false

-- A letter and one of the odd code points, which take three bytes together.
abbrev pub is_two_with_odd : Text → Bool
is_two_with_odd (a ∷ b ∷ []) = is_letter a && is_odd b || is_odd a && is_letter b
is_two_with_odd _ = false

pub rune_len-pos : (c : ℕ) → 1 ≤ rune_len c
unfolding rune_len
rune_len-pos c = ground arith

pub length-le-len : (s : Text) → length s ≤ len s
unfolding len
length-le-len [] = omega arith
length-le-len (c ∷ s) = omega (arith, length-le-len s, rune_len-pos c)

len_three : (a b c : ℕ) → (len (a ∷ b ∷ c ∷ []) == 3) ≡ (ltb a 0x80 && ltb b 0x80 && ltb c 0x80)
unfolding len rune_len
len_three a b c = ground arith

regroup :
    (a b c p q r : Bool)
    → ((a && b && c) && (p && (q && (r && true)))) ≡ ((a && p) && (b && q) && (c && r))
regroup a b c p q r = ground arith

and₃ : {a b c p q r : Bool} → a ≡ p → b ≡ q → c ≡ r → (a && b && c) ≡ (p && q && r)
and₃ h k l = cc

module _ (upper : ℕ → ℕ) where
  abbrev up : ℕ → ℕ
  up c = if ltb c 0x80 then ascii_upper c else upper c

  module _ (table : IsCaseTable upper) where
    -- One code point becomes a capital exactly if it is a letter or odd.
    capital_up : (c : ℕ) → is_capital (up c) ≡ (is_letter c || is_odd c)
    unfolding ascii_upper
    capital_up c = ground (arith, table.others c, table.dotless_i, table.long_s)

    valid_one : (a : ℕ) → is_valid_currency_code upper (a ∷ []) ≡ false
    unfolding is_valid_currency_code to_upper len rune_len
    valid_one a = ground (arith, capital_up a)

    valid_two : (a b : ℕ) → is_valid_currency_code upper (a ∷ b ∷ []) ≡ is_two_with_odd (a ∷ b ∷ [])
    unfolding is_valid_currency_code to_upper len rune_len
    valid_two a b = ground (arith, capital_up a, capital_up b)

    ascii_capital : (c : ℕ) → (ltb c 0x80 && is_capital (up c)) ≡ is_letter c
    unfolding ascii_upper
    ascii_capital c = ground arith

    valid_three :
        (a b c : ℕ)
        → is_valid_currency_code upper (a ∷ b ∷ c ∷ []) ≡ is_three_letters (a ∷ b ∷ c ∷ [])
    unfolding is_valid_currency_code to_upper
    valid_three a b c =
        let regrouped =
          regroup (ltb a 0x80) (ltb b 0x80) (ltb c 0x80) (is_capital (up a)) (is_capital (up b))
            (is_capital (up c)) in
        rw (len_three a b c)
          (regrouped ∙ and₃ (ascii_capital a) (ascii_capital b) (ascii_capital c))

    valid_long : (a b c d : ℕ) (s : Text) → is_valid_currency_code upper (a ∷ b ∷ c ∷ d ∷ s) ≡ false
    unfolding is_valid_currency_code
    valid_long a b c d s = ground (arith, length-le-len (a ∷ b ∷ c ∷ d ∷ s))

    -- With Unicode's case table, the codes that `IsValidCurrencyCode` accepts are those of three
    -- ASCII letters, and those of two characters in three bytes of which one is a dotless i or a
    -- long s and the other an ASCII letter.
    pub is_valid_currency_code-eq :
        (code : Text)
        → is_valid_currency_code upper code ≡ (is_three_letters code || is_two_with_odd code)
    unfolding is_valid_currency_code len
    is_valid_currency_code-eq [] = refl
    is_valid_currency_code-eq (a ∷ []) = valid_one a
    is_valid_currency_code-eq (a ∷ b ∷ []) = valid_two a b
    is_valid_currency_code-eq (a ∷ b ∷ c ∷ []) = ground (arith, valid_three a b c)
    is_valid_currency_code-eq (a ∷ b ∷ c ∷ d ∷ s) = valid_long a b c d s
