-- ===== src/System/Processing.antt =====
-- `ProcessUpdate`: what each of its results says of the row.
use exchange_rate_quote_serv.Prelude.{suc, Text, ◌≡◌, inl, inr, arith}
use exchange_rate_quote_serv.Errors.{Error, error_text, Result, ok, err, Result-cases}
use exchange_rate_quote_serv.Currency.{Pair, normalize_pair, validate_pair}
use exchange_rate_quote_serv.Repository.Table.{Time, Table}
use exchange_rate_quote_serv.Repository.Methods.{mark_running, mark_success, mark_failed}
use exchange_rate_quote_serv.World.{Env, World, ◌>>=◌}
use exchange_rate_quote_serv.Provider.Http.{Rate, RatesProvider}
use exchange_rate_quote_serv.Service.Cache.{QuoteService, cache_set_latest}
use exchange_rate_quote_serv.Service.Operations.{
  service_mark_running, complete_failure, repo_mark_success, fetch_and_complete, process_update,
}

module _ {S F : Type 0} (env : Env S F) (svc : QuoteService) (provider : RatesProvider S) where
  -- The world that the provider sees, and the one behind it.
  abbrev pub started : Text → World S → World S
  started id w = record w {
    rows = (mark_running env.pg (env.db_link w.tick) (env.db_now w.tick) id w.rows).1;
    tick = suc w.tick;
  }

  abbrev pub fetched : Text → Text → Text → World S → Result Rate × World S
  fetched id b q w = provider b q (started id w)

  cache_set_latest_ok :
      (b q rate : Text) (t : Time) (w : World S)
      → ((cache_set_latest env svc b q rate t w).0 ≡ ok tt)
        × ((cache_set_latest env svc b q rate t w).1.rows ≡ w.rows)
  unfolding cache_set_latest
  cache_set_latest_ok b q rate t w = ground arith

  abbrev pub stored : Text → Text → World S → Result (Unit {0}) × Table
  stored id price w = mark_success env.pg (env.db_link w.tick) (env.db_now w.tick) id price w.rows

  store_then :
      (id b q : Text) (rate : Rate) (w : World S)
      → (((repo_mark_success env id rate.0 >>= λ _. cache_set_latest env svc b q rate.0 rate.1) w).0
          ≡ (stored id rate.0 w).0)
        × (((repo_mark_success env id rate.0 >>= λ _. cache_set_latest env svc b q rate.0 rate.1)
              w).1.rows
            ≡ (stored id rate.0 w).1)
  store_then id b q rate w =
      let w' : World S = record w { rows = (stored id rate.0 w).1; tick = suc w.tick } in
      let (fine, kept) = cache_set_latest_ok b q rate.0 rate.1 w' in
      elim (Result-cases (stored id rate.0 w).0) [
        | inl (u, done) ↦ ground (arith, fine, kept)
        | inr (e, failed) ↦ ground arith
      ]

  pub fetch_ok :
      (id b q : Text) (w w' : World S) (rate : Rate)
      → fetched id b q w ≡ (ok rate, w')
      → ((fetch_and_complete env svc provider id b q w).0 ≡ (stored id rate.0 w').0)
        × ((fetch_and_complete env svc provider id b q w).1.rows ≡ (stored id rate.0 w').1)
  unfolding fetch_and_complete service_mark_running
  fetch_ok id b q w w' rate h = rw h (store_then id b q rate w')

  pub fetch_err :
      (id b q : Text) (w w' : World S) (e : Error)
      → fetched id b q w ≡ (err e, w')
      → ((fetch_and_complete env svc provider id b q w).0 ≡ err e)
        × ((fetch_and_complete env svc provider id b q w).1.rows
            ≡ (mark_failed env.pg
                (env.db_link w'.tick)
                (env.db_now w'.tick)
                id
                (error_text e)
                w'.rows).1)
  unfolding fetch_and_complete service_mark_running complete_failure
  fetch_err id b q w w' e h = ground arith

  pub process_valid :
      (id base quote : Text) (w : World S) (p : Pair)
      → normalize_pair env.upper base quote ≡ ok p
      → validate_pair env.upper p.0 p.1 ≡ ok tt
      → process_update env svc provider id base quote w
        ≡ fetch_and_complete env svc provider id p.0 p.1 w
  unfolding process_update
  process_valid id base quote w p normal valid = ground arith

  pub process_ok_pair :
      (id base quote : Text) (w : World S)
      → (process_update env svc provider id base quote w).0 ≡ ok tt
      → (p : Pair) × (normalize_pair env.upper base quote ≡ ok p)
        × (validate_pair env.upper p.0 p.1 ≡ ok tt)
  unfolding process_update complete_failure
  process_ok_pair id base quote w h = elim (Result-cases (normalize_pair env.upper base quote)) [
    | inr (x, bad) ↦ absurd (ground arith)
    | inl (p, normal) ↦ elim (Result-cases (validate_pair env.upper p.0 p.1)) [
      | inr (x, bad) ↦ absurd (ground arith)
      | inl (u, valid) ↦ (p, normal, valid)
    ]
  ]
