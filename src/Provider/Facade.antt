-- ===== src/Provider/Facade.antt =====
-- facade.go: the providers one after the other, until one succeeds.
use exchange_rate_quote_serv.Prelude.{Text, codes, List, [], ◌∷◌, ◌++◌}
use exchange_rate_quote_serv.Errors.{Error, error_text, join_lines, ok, err}
use exchange_rate_quote_serv.Provider.Http.{RatesProvider}

-- `fmt.Errorf("all providers failed: %w", errors.Join(errs...))`
-- `errors.Join` of no errors is `nil`, which the verb prints as below.
unfoldable pub all_failed : List Text → Error
all_failed [] = Error.failure (codes "all providers failed: %!w(<nil>)")
all_failed errs = Error.failure (codes "all providers failed: " ++ join_lines errs)

module _ {S : Type 0} where
  -- The loop, with the texts of the errors so far.
  unfoldable pub facade_from : List Text → List (RatesProvider S) → RatesProvider S
  facade_from errs [] base quote w = (err (all_failed errs), w)
  facade_from errs (p ∷ ps) base quote w =
      let (r, w') = p base quote w in
      elim r [
        | ok rate ↦ (ok rate, w')
        | err e ↦ facade_from (errs ++ error_text e ∷ []) ps base quote w'
      ]

  -- `ExchangeProviderFacade.GetRate`
  unfoldable pub facade_get_rate : List (RatesProvider S) → RatesProvider S
  unfolding facade_from
  facade_get_rate ps = facade_from [] ps
