-- ===== src/Repository/Methods.antt =====
-- The methods of `PostgresQuoteRepository`: one statement each, and the error that Go makes of
-- its outcome. Each call also has a `Link` to the database: the call may fail before the
-- statement runs, or after it has run and been committed.
use exchange_rate_quote_serv.Prelude.{ℕ, zero, suc, Text, codes, ◌++◌, Option}
use exchange_rate_quote_serv.Errors.{Error, error_text, Result, ok, err}
use exchange_rate_quote_serv.Repository.Table.{
  Time, Quote, Table, Postgres, Statement, insert_update, update_running, update_success,
  update_failed, select_by_id, select_latest,
}

-- `unacknowledged` is also an error from `RowsAffected`, and a context that ends while the reply
-- is on its way.
pub data Link : Type 0 where
  up : Link
  lost unacknowledged : Text → Link

abbrev pub run_statement {ℓ} : {A : Type ℓ} → Link → Result A × Table → Table → Result A × Table
run_statement up done t = done
run_statement (lost why) done t = (err (Error.failure why), t)
run_statement (unacknowledged why) done t = (err (Error.failure why), done.1)

abbrev pub run_query {ℓ} : {A : Type ℓ} → Link → Result A → Result A
run_query up r = r
run_query (lost why) r = err (Error.failure why)
run_query (unacknowledged why) r = err (Error.failure why)

-- `fmt.Errorf("failed to create update: %w", err)`
abbrev pub created : Result Text → Result Text
created (ok id) = ok id
created (err e) = err (Error.failure (codes "failed to create update: " ++ error_text e))

unfoldable pub not_found_error : Text → Error
not_found_error id = Error.failure (codes "quote " ++ (id ++ codes " not found"))

unfoldable pub not_startable_error : Text → Error
not_startable_error id =
    Error.failure (codes "quote " ++ (id ++ codes " not found or not in PENDING/FAILED status"))

-- `rows == 0` after an UPDATE.
abbrev pub some_row : Error → Result ℕ → Result (Unit {0})
some_row e (ok zero) = err e
some_row e (ok (suc n)) = ok tt
some_row e (err e') = err e'

-- `checkRowsAffected`
abbrev pub check_rows_affected : Text → Result ℕ → Result (Unit {0})
check_rows_affected id r = some_row (not_found_error id) r

-- `scanQuote`: the columns of a row, or `(nil, nil)` where the query returned no row. The result
-- `some q` is a copy: later statements do not change it.
abbrev pub scan_quote : Result (Option Quote) → Result (Option Quote)
scan_quote r = r

module _ (pg : Postgres) (link : Link) where
  unfoldable pub create_update : Time → Text → Text → Text → Statement Text
  create_update now base quote id t =
      let (r, t') = run_statement link (insert_update pg now base quote id t) t in (created r, t')

  unfoldable pub mark_running : Time → Text → Statement (Unit {0})
  mark_running now id t =
      let (r, t') = run_statement link (update_running pg now id t) t in
      (some_row (not_startable_error id) r, t')

  unfoldable pub mark_success : Time → Text → Text → Statement (Unit {0})
  mark_success now id price t =
      let (r, t') = run_statement link (update_success pg now id price t) t in
      (check_rows_affected id r, t')

  unfoldable pub mark_failed : Time → Text → Text → Statement (Unit {0})
  mark_failed now id msg t =
      let (r, t') = run_statement link (update_failed pg now id msg t) t in
      (check_rows_affected id r, t')

  unfoldable pub get_by_id : Text → Table → Result (Option Quote)
  get_by_id id t = scan_quote (run_query link (select_by_id pg id t))

  unfoldable pub get_latest_success : Text → Text → Table → Result (Option Quote)
  get_latest_success base quote t = scan_quote (run_query link (select_latest base quote t))
