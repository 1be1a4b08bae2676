-- ===== src/Provider/Http.antt =====
-- exchangerate_host.go and frankfurter.go. The URL goes to the HTTP client as a text; the body
-- of a refusal goes into the error.
use exchange_rate_quote_serv.Prelude.{
  ℕ, Text, codes, Bool, true, false, [], ◌∷◌, ◌++◌, Option, none, some, ◌==◌, if◌then◌else◌,
}
use exchange_rate_quote_serv.Prelude.Decimal.{decimal}
use exchange_rate_quote_serv.Prelude.Int.{ℤ, seconds}
use exchange_rate_quote_serv.Errors.{Error, error_text, Result, ok, err}
use exchange_rate_quote_serv.Repository.Table.{Time}
use exchange_rate_quote_serv.World.{
  Env, Action, pure, lift, ask, ◌>>=◌, ◌>>◌, Reply, bad_request, unreachable, answered,
}

-- The rate as text, and when it is from.
abbrev pub Rate : Type 0
Rate = Text × Time

-- The interface `RatesProvider`.
abbrev pub RatesProvider : Type 0 → Type 0
RatesProvider S = (base quote : Text) → Action S Rate

-- The timeout is that of the provider's client.
pub record ExchangeRateHostProvider : Type 0 where
  pub base_url : Text
  pub api_key : Text
  pub timeout : ℕ

pub record FrankfurterProvider : Type 0 where
  pub base_url : Text
  pub timeout : ℕ

abbrev pub or_default : Text → Text → Text
or_default d [] = d
or_default d (c ∷ s) = c ∷ s

unfoldable pub new_exchange_rate_host : Text → Text → ℤ → ExchangeRateHostProvider
new_exchange_rate_host base_url api_key timeout_sec = record {
  base_url = or_default (codes "https://api.exchangerate.host") base_url;
  api_key = api_key;
  timeout = seconds timeout_sec;
}

unfoldable pub new_frankfurter : Text → ℤ → FrankfurterProvider
new_frankfurter base_url timeout_sec = record {
  base_url = or_default (codes "https://api.frankfurter.dev/v1") base_url;
  timeout = seconds timeout_sec;
}

-- `fmt.Errorf("<what>: %w", err)`
unfoldable pub wrap : Text → Error → Error
wrap what e = Error.failure (what ++ (codes ": " ++ error_text e))

unfoldable pub latest_url : ExchangeRateHostProvider → Text → Text → Text
latest_url p base quote =
    p.base_url
    ++ (codes "/live?access_key="
        ++ (p.api_key ++ (codes "&source=" ++ (base ++ (codes "&currencies=" ++ quote)))))

unfoldable pub frankfurter_url : FrankfurterProvider → Text → Text → Text
frankfurter_url p base quote =
    p.base_url ++ (codes "/latest?base=" ++ (base ++ (codes "&symbols=" ++ quote)))

-- The body of a 200 answer, or the error of the exchange; the texts are those of the provider.
unfoldable pub body_of : Text → Reply → Result Text
body_of api (bad_request e) = err (wrap (api ++ codes " API request creation failed") e)
body_of api (unreachable e) = err (wrap (api ++ codes " API request failed") e)
body_of api (answered status body) =
    if status == 200
    then ok body
    else err (
        Error.failure
          (api ++ (codes " API returned status " ++ (decimal status ++ (codes ": " ++ body)))))

-- A missing key of the map of rates.
abbrev pub or_missing {ℓ} : {A : Type ℓ} → Option A → Error → Result A
or_missing none e = err e
or_missing (some a) e = ok a

abbrev pub or_decode_error : {A : Type 0} → Text → Result A → Result A
or_decode_error api (ok a) = ok a
or_decode_error api (err e) =
    err (wrap (codes "failed to decode " ++ (api ++ codes " API response")) e)

abbrev pub require : Bool → Error → Result (Unit {0})
require true e = ok tt
require false e = err e

unfoldable pub not_success_error : Text → Text → Error
not_success_error base quote =
    Error.failure (codes "external API returned success=false for " ++ (base ++ b'/' ∷ quote))

unfoldable pub no_rate_error : Text → Text → Error
no_rate_error key whence = Error.failure (codes "no rate for " ++ (key ++ whence))

module _ {S F : Type 0} (env : Env S F) where
  -- `ExchangeRateHostProvider.GetRate`
  unfoldable pub er_host_get_rate : ExchangeRateHostProvider → RatesProvider S
  er_host_get_rate p base quote = do
    reply ← ask (λ k. env.http_get k (latest_url p base quote))
    body ← lift (body_of (codes "external") reply)
    result ← lift (or_decode_error (codes "external") (env.decode_er_host body))
    lift (require result.success (not_success_error base quote))
    let key = base ++ quote
    rate ← lift (or_missing (result.quotes key) (no_rate_error key (codes " in response")))
    at ← ask env.now
    pure (env.format_float rate, at)

  -- The date of the answer, or the current time where it has none that can be read.
  unfoldable pub date_or_now : Option Time → Action S Time
  date_or_now (some d) = pure d
  date_or_now none = ask env.now

  -- `FrankfurterProvider.GetRate`
  unfoldable pub frankfurter_get_rate : FrankfurterProvider → RatesProvider S
  unfolding date_or_now
  frankfurter_get_rate p base quote = do
    reply ← ask (λ k. env.http_get k (frankfurter_url p base quote))
    body ← lift (body_of (codes "frankfurter") reply)
    result ← lift (or_decode_error (codes "frankfurter") (env.decode_frankfurter body))
    rate ←
        lift
          (or_missing (result.rates quote) (no_rate_error quote (codes " in frankfurter response")))
    at ← date_or_now (env.parse_date result.date)
    pure (env.format_float rate, at)
