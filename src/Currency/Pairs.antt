-- ===== src/Currency/Pairs.antt =====
-- `ParsePair` and `normalizePair`: what they accept and what they return.
use exchange_rate_quote_serv.Prelude.{
  ℕ, Text, true, List, [], ◌∷◌, ◌++◌, ◌≡◌, ◌↔◌, inl, inr, refl, arith, Bool-cases,
}
use exchange_rate_quote_serv.Prelude.Unicode.{IsCaseTable, split, to_upper}
use exchange_rate_quote_serv.Prelude.Unicode.Splits.{Lacks, split_two, split_inverse}
use exchange_rate_quote_serv.Errors.{ok}
use exchange_rate_quote_serv.Currency.{is_valid_currency_code, parse_parts, parse_pair}
use exchange_rate_quote_serv.Currency.Codes.{
  is_three_letters, is_two_with_odd, is_valid_currency_code-eq,
}

-- The letters and the odd code points are no slash.
three-Lacks : (s : Text) → is_three_letters s ≡ true → Lacks b'/' s
three-Lacks (a ∷ b ∷ c ∷ []) h = ground arith
three-Lacks _ h = cc

two-Lacks : (s : Text) → is_two_with_odd s ≡ true → Lacks b'/' s
two-Lacks (a ∷ b ∷ []) h = ground arith
two-Lacks _ h = cc

-- A cut_at pair is two valid codes round a slash, put in capitals.
pub record IsWritten (upper : ℕ → ℕ) (pair : Text) (b q : Text) : Type 0 where
  pub base : Text
  pub quote : Text
  pub joined : pair ≡ base ++ b'/' ∷ quote
  pub base_valid : is_valid_currency_code upper base ≡ true
  pub quote_valid : is_valid_currency_code upper quote ≡ true
  pub base_capitals : b ≡ to_upper upper base
  pub quote_capitals : q ≡ to_upper upper quote

module _ (upper : ℕ → ℕ) (table : IsCaseTable upper) where
  valid-Lacks : (s : Text) → is_valid_currency_code upper s ≡ true → Lacks b'/' s
  valid-Lacks s h = elim (Bool-cases (is_three_letters s)) [
    | inl three ↦ three-Lacks s three
    | inr other ↦ two-Lacks s (ground (arith, is_valid_currency_code-eq upper table s))
  ]

  parse_parts-eq-ok :
      (parts : List Text) (b q : Text)
      → parse_parts upper parts ≡ ok (b, q)
      → (base : Text) × (quote : Text) × (parts ≡ base ∷ quote ∷ [])
        × (is_valid_currency_code upper base ≡ true)
        × (is_valid_currency_code upper quote ≡ true)
        × (b ≡ to_upper upper base)
        × (q ≡ to_upper upper quote)
  unfolding parse_parts
  parse_parts-eq-ok (base ∷ quote ∷ []) b q h =
      (base, quote, refl, ground arith, ground arith, ground arith, ground arith)
  parse_parts-eq-ok _ b q h = cc

  parse_pair_sound :
      (pair b q : Text) → parse_pair upper pair ≡ ok (b, q) → IsWritten upper pair b q
  unfolding parse_pair
  parse_pair_sound pair b q h =
      let (base, quote, parts, vb, vq, eb, eq) = parse_parts-eq-ok (split b'/' pair) b q h in
      record {
        base = base;
        quote = quote;
        joined = split_inverse b'/' pair base quote parts;
        base_valid = vb;
        quote_valid = vq;
        base_capitals = eb;
        quote_capitals = eq;
      }

  parse_pair_complete :
      (pair b q : Text) → IsWritten upper pair b q → parse_pair upper pair ≡ ok (b, q)
  unfolding parse_pair parse_parts
  parse_pair_complete pair b q w =
      let parts =
        split_two b'/' w.base w.quote (valid-Lacks w.base w.base_valid)
          (valid-Lacks w.quote w.quote_valid) in
      rw (w.joined, parts, w.base_valid, w.quote_valid, w.base_capitals, w.quote_capitals)

  -- With Unicode's case table, `ParsePair` returns the codes b and q exactly if the text is two
  -- valid codes with one slash between them, and b and q are those codes in capitals.
  pub parse_pair_iff :
      (pair b q : Text) → (parse_pair upper pair ≡ ok (b, q)) ↔ IsWritten upper pair b q
  parse_pair_iff pair b q = (parse_pair_sound pair b q, parse_pair_complete pair b q)
