-- ===== src/Currency.antt =====
-- Currency codes and pairs: internal/service/quote_service_utils.go and validator.go. `upper` is
-- the case table of Go's `unicode` package.
pub mod Codes
pub mod Pairs
pub mod Accepted
use exchange_rate_quote_serv.Prelude.{
  ℕ, Text, codes, text_eq, Bool, true, false, not, ◌&&◌, ◌||◌, List, [], ◌∷◌, ◌==◌, leb, all, any,
  if◌then◌else◌,
}
use exchange_rate_quote_serv.Prelude.Unicode.{len, to_upper, split}
use exchange_rate_quote_serv.Errors.{Error, Result, ok, err, ◌>>◌}

abbrev pub Pair : Type 0
Pair = Text × Text

abbrev pub is_capital : ℕ → Bool
is_capital c = leb b'A' c && leb c b'Z'

-- The keys of the map `supportedCurrencies`.
abbrev pub supported_currencies : List Text
supported_currencies =
    codes "USD"
    ∷ codes "EUR"
    ∷ codes "GBP"
    ∷ codes "JPY"
    ∷ codes "CHF"
    ∷ codes "CAD"
    ∷ codes "AUD"
    ∷ codes "NZD"
    ∷ codes "CNY"
    ∷ codes "HKD"
    ∷ codes "SGD"
    ∷ codes "SEK"
    ∷ codes "NOK"
    ∷ codes "INR"
    ∷ codes "MXN"
    ∷ []

module _ (upper : ℕ → ℕ) where
  -- The length is tested before the code is put in capitals.
  unfoldable pub is_valid_currency_code : Text → Bool
  is_valid_currency_code code = len code == 3 && all is_capital (to_upper upper code)

  -- The `if` on the number of parts and on both parts.
  unfoldable pub parse_parts : List Text → Result Pair
  parse_parts (base ∷ quote ∷ []) =
      if not (is_valid_currency_code base) || not (is_valid_currency_code quote)
      then err Error.invalid_pair_format
      else ok (to_upper upper base, to_upper upper quote)
  parse_parts _ = err Error.invalid_pair_format

  unfoldable pub parse_pair : Text → Result Pair
  unfolding parse_parts
  parse_pair pair = parse_parts (split b'/' pair)

  unfoldable pub normalize_pair : Text → Text → Result Pair
  normalize_pair base quote =
      if not (is_valid_currency_code base) || not (is_valid_currency_code quote)
      then err Error.invalid_pair_format
      else ok (to_upper upper base, to_upper upper quote)

  unfoldable pub is_supported : Text → Bool
  is_supported code = any (text_eq (to_upper upper code)) supported_currencies

  unfoldable pub validate : Text → Result (Unit {0})
  unfolding is_supported
  validate code = if is_supported code then ok tt else err Error.unsupported_currency

  -- `QuoteService.validatePair` of internal/service/quote_service.go.
  unfoldable pub validate_pair : Text → Text → Result (Unit {0})
  unfolding validate
  validate_pair base quote = validate base >> validate quote
