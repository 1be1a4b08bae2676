-- ===== src/Tests/Currencies.antt =====
-- Codes and pairs.
use exchange_rate_quote_serv.Prelude.{codes, text_eq, ◌||◌, ◌∷◌, [], ◌≡◌, ◌↔◌, refl}
use exchange_rate_quote_serv.Errors.{Error, ok, err}
use exchange_rate_quote_serv.Currency.{
  is_valid_currency_code, parse_pair, validate_pair, normalize_pair,
}
use exchange_rate_quote_serv.Currency.Codes.{
  is_three_letters, is_two_with_odd, is_valid_currency_code-eq,
}
use exchange_rate_quote_serv.Currency.Pairs.{IsWritten, parse_pair_iff}
use exchange_rate_quote_serv.Prelude.Unicode.{len, rune_len, to_upper, split}
use exchange_rate_quote_serv.Tests.Fixtures.{upper, upper-IsCaseTable}

calls : Unit {0}
unfolding is_valid_currency_code parse_pair validate_pair normalize_pair len rune_len to_upper split
    text_eq
calls = tt

parse_lower : parse_pair upper (codes "eur/mxn") ≡ ok (codes "EUR", codes "MXN")
unfolding calls
parse_lower = refl

parse_three : parse_pair upper (codes "EUR/MXN/USD") ≡ err Error.invalid_pair_format
unfolding calls
parse_three = refl

-- Dotless i and u: two letters in three bytes, of which ToUpper makes "IU".
two_letters : normalize_pair upper (0x131 ∷ b'u' ∷ []) (codes "usd") ≡ ok (codes "IU", codes "USD")
unfolding calls
two_letters = refl

is_valid_currency_code-eq_example :
    is_valid_currency_code upper (codes "uſ")
    ≡ (is_three_letters (codes "uſ") || is_two_with_odd (codes "uſ"))
is_valid_currency_code-eq_example = is_valid_currency_code-eq upper upper-IsCaseTable (codes "uſ")

parse_pair_iff_example :
    (parse_pair upper (codes "eur/mxn") ≡ ok (codes "EUR", codes "MXN"))
    ↔ IsWritten upper (codes "eur/mxn") (codes "EUR") (codes "MXN")
parse_pair_iff_example =
    parse_pair_iff upper upper-IsCaseTable (codes "eur/mxn") (codes "EUR") (codes "MXN")
