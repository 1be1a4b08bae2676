-- ===== src/Currency/Accepted.antt =====
-- The pairs that pass `ParsePair` and `validatePair`, and the checks of the worker.
use exchange_rate_quote_serv.Prelude.{
  ℕ, Text, text_eq, text_eq_iff, Bool, true, ◌&&◌, List, [], ◌∷◌, ◌==◌, all, any, All, length, ◌≡◌,
  inl, inr, refl, arith, Bool-cases,
}
use exchange_rate_quote_serv.Prelude.Unicode.{IsCaseTable, ascii_upper, rune_len, to_upper, len}
use exchange_rate_quote_serv.Errors.{ok}
use exchange_rate_quote_serv.Currency.{
  is_capital, supported_currencies, is_valid_currency_code, parse_pair, normalize_pair, validate,
  validate_pair,
}
use exchange_rate_quote_serv.Currency.Pairs.{parse_pair_iff}

-- A key of the map of supported currencies.
abbrev pub IsListed : Text → Type 0
IsListed code = any (text_eq code) supported_currencies ≡ true

-- A property of every entry holds of what equals an entry.
pub any-text_eq :
    (P : Text → Type 0) (s : Text) (ts : List Text) → any (text_eq s) ts ≡ true → All P ts → P s
any-text_eq P s [] h hp = cc
any-text_eq P s (t ∷ ts) h (p, hp) = elim (Bool-cases (text_eq s t)) [
  | inl same ↦ rw ((text_eq_iff s t).0 same) p
  | inr other ↦ any-text_eq P s ts (rw other at h) hp
]

pub all-All : (p : Text → Bool) (ts : List Text) → all p ts ≡ true → All (λ t. p t ≡ true) ts
all-All p [] h = tt
all-All p (t ∷ ts) h = (ground arith, all-All p ts (ground arith))

module _ (upper : ℕ → ℕ) where
  pub to_upper_capitals : (s : Text) → all is_capital s ≡ true → to_upper upper s ≡ s
  unfolding to_upper ascii_upper
  to_upper_capitals [] h = refl
  to_upper_capitals (c ∷ s) h = ground (arith, to_upper_capitals s)

  -- What is true of each supported currency.
  pub record IsCode (s : Text) : Type 0 where
    pub valid : is_valid_currency_code upper s ≡ true
    pub capitals : all is_capital s ≡ true
    pub three : length s ≡ 3

  abbrev is_code : Text → Bool
  is_code s = is_valid_currency_code upper s && all is_capital s && length s == 3

  listed_codes : all is_code supported_currencies ≡ true
  unfolding is_valid_currency_code to_upper ascii_upper len rune_len
  listed_codes = refl

  is_code-IsCode : (s : Text) → is_code s ≡ true → IsCode s
  is_code-IsCode s h = ground arith

  pub listed-IsCode : (s : Text) → IsListed s → IsCode s
  listed-IsCode s h = is_code-IsCode s (
      any-text_eq (λ t. is_code t ≡ true) s supported_currencies h
        (all-All is_code supported_currencies listed_codes))

  supported-IsListed : (s : Text) → all is_capital s ≡ true → validate upper s ≡ ok tt → IsListed s
  unfolding validate
  supported-IsListed s cap h = ground (arith, to_upper_capitals s cap)

  listed_validates : (s : Text) → IsListed s → validate upper s ≡ ok tt
  unfolding validate
  listed_validates s h = rw (to_upper_capitals s (listed-IsCode s h).capitals, h)

  valid_capitals :
      (s : Text) → is_valid_currency_code upper s ≡ true → all is_capital (to_upper upper s) ≡ true
  unfolding is_valid_currency_code
  valid_capitals s h = ground arith

  -- What `RequestQuoteUpdate` has established before it writes a row, and what the worker does
  -- with the pair it is handed.
  pub record IsAccepted (b q : Text) : Type 0 where
    pub base_listed : IsListed b
    pub quote_listed : IsListed q
    pub normalized : normalize_pair upper b q ≡ ok (b, q)
    pub validated : validate_pair upper b q ≡ ok tt

  pub listed-IsAccepted : (b q : Text) → IsListed b → IsListed q → IsAccepted b q
  unfolding normalize_pair validate_pair
  listed-IsAccepted b q hb hq =
      let kb = listed-IsCode b hb in
      let kq = listed-IsCode q hq in
      record {
        base_listed = hb;
        quote_listed = hq;
        normalized =
            rw (
              kb.valid,
              kq.valid,
              to_upper_capitals b kb.capitals,
              to_upper_capitals q kq.capitals,
            );
        validated = rw (listed_validates b hb, listed_validates q hq);
      }

  validate_pair-IsListed :
      (b q : Text)
      → all is_capital b ≡ true
      → all is_capital q ≡ true
      → validate_pair upper b q ≡ ok tt
      → IsListed b × IsListed q
  unfolding validate_pair
  validate_pair-IsListed b q cb cq h =
      (supported-IsListed b cb (ground arith), supported-IsListed q cq (ground arith))

  module _ (table : IsCaseTable upper) where
    -- With Unicode's case table, the codes of a pair that is parsed and validated are listed as
    -- supported, are normalised to themselves, and are validated again.
    pub parse_pair-IsAccepted :
        (pair b q : Text)
        → parse_pair upper pair ≡ ok (b, q)
        → validate_pair upper b q ≡ ok tt
        → IsAccepted b q
    parse_pair-IsAccepted pair b q parsed validated =
        let w = (parse_pair_iff upper table pair b q).0 parsed in
        let cb = valid_capitals w.base w.base_valid in
        let cq = valid_capitals w.quote w.quote_valid in
        let (lb, lq) =
          validate_pair-IsListed b q (rw w.base_capitals cb) (rw w.quote_capitals cq) validated in
        listed-IsAccepted b q lb lq
