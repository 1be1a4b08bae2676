-- ===== src/Service/QuoteResult.antt =====
-- quote_result.go: what a client is told of a row.
use exchange_rate_quote_serv.Prelude.{Text, codes, Option, none, some, ◌≡◌, ◌≢◌, arith}
use exchange_rate_quote_serv.Repository.Table.{Time, Status, Quote}
use exchange_rate_quote_serv.Repository.Invariant.{IsFit}

pub record QuoteResult : Type 0 where
  pub id : Text
  pub base : Text
  pub quote : Text
  pub price : Option Text
  pub status : Text
  pub error_msg : Option Text
  pub updated_at : Option Text

-- The constants of type `Status`.
unfoldable pub status_text : Status → Text
status_text Status.pending = codes "PENDING"
status_text Status.running = codes "RUNNING"
status_text Status.success = codes "SUCCESS"
status_text Status.failed = codes "FAILED"

module _ (format : Time → Text) where
  abbrev pub format_opt : Option Time → Option Text
  format_opt none = none
  format_opt (some t) = some (format t)

  abbrev bare : Quote → QuoteResult
  bare q = record {
    id = q.id;
    base = q.base;
    quote = q.quote;
    price = none;
    status = status_text q.status;
    error_msg = none;
    updated_at = none;
  }

  -- The `switch` on the status.
  abbrev fill : Status → Quote → QuoteResult
  fill Status.success q = record (bare q) { price = q.price; updated_at = format_opt q.updated_at }
  fill Status.failed q = record (bare q) { error_msg = q.error_msg }
  fill _ q = bare q

  unfoldable pub quote_result_from_repo : Quote → QuoteResult
  quote_result_from_repo q = fill q.status q

  -- The comment on the type `QuoteResult`.
  abbrev pub Documented : Status → QuoteResult → Type 0
  Documented Status.success r = (r.price ≢ none) × (r.updated_at ≢ none) × (r.error_msg ≡ none)
  Documented Status.failed r = (r.error_msg ≢ none) × (r.price ≡ none)
  Documented _ r = (r.price ≡ none) × (r.error_msg ≡ none) × (r.updated_at ≡ none)

  -- The result of a row that satisfies the table's constraints is as the comment on `QuoteResult`
  -- says: a SUCCESS has a price and a time and no error, a FAILED has an error and no price, and
  -- any other has none of the three.
  pub quote_result_from_repo-Documented :
      (q : Quote) → IsFit q → Documented q.status (quote_result_from_repo q)
  unfolding quote_result_from_repo
  quote_result_from_repo-Documented q fit = ground arith
