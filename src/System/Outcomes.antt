-- ===== src/System/Outcomes.antt =====
-- `ProcessUpdate`: the row behind a call that succeeds, and behind a provider that fails.
use exchange_rate_quote_serv.Prelude.{
  Text, Bool, true, none, some, ◌≡◌, ◌⊎◌, inl, inr, refl, sym, ap, ◌∙◌, arith,
}
use mathlib.Core.Path.{subst}
use exchange_rate_quote_serv.Errors.{Error, error_text, Result, ok, err, Result-cases}
use exchange_rate_quote_serv.Currency.{Pair, normalize_pair, validate_pair}
use exchange_rate_quote_serv.Repository.Table.{
  Time, Status, Quote, Table, has_id, find, fail, can_fail,
}
use exchange_rate_quote_serv.Repository.Methods.{up, not_found_error, mark_failed}
use exchange_rate_quote_serv.Repository.Invariant.{IsValid}
use exchange_rate_quote_serv.Repository.Prices.{IsPriced, mark_success-IsPriced}
use exchange_rate_quote_serv.Repository.Updates.{
  AreOthersKept, HasUpdated, changed, unchanged, mark_failed-HasUpdated,
}
use exchange_rate_quote_serv.Repository.Calls.{mark_running-Reach}
use exchange_rate_quote_serv.Repository.Steps.Valid.{Reach-IsValid}
use exchange_rate_quote_serv.World.{Env, World}
use exchange_rate_quote_serv.Provider.Http.{Rate, RatesProvider}
use exchange_rate_quote_serv.Provider.Quiet.{IsQuiet}
use exchange_rate_quote_serv.Service.Cache.{QuoteService}
use exchange_rate_quote_serv.Service.Operations.{process_update}
use exchange_rate_quote_serv.System.Processing.{
  started, fetched, stored, fetch_ok, fetch_err, process_valid, process_ok_pair,
}

may_fail : (s : Status) → (s ≡ Status.pending) ⊎ (s ≡ Status.running) → can_fail s ≡ true
may_fail s h = ground arith

updated_hit :
    (u : Text) (may : Status → Bool) (f : Quote → Quote) (e : Error) (t : Table)
    (res : Result (Unit {0})) (t' : Table) (r : Quote)
    → HasUpdated u may f e t res t'
    → find (has_id u) t ≡ some r
    → may r.status ≡ true
    → (find (has_id u) t' ≡ some (f r)) × AreOthersKept u t t'
updated_hit u may f e t res t' r (changed s found m done after others) h k = (ground arith, others)
updated_hit u may f e t res t' r (unchanged no_row failed same) h k = absurd (ground arith)

module _ {S F : Type 0} (env : Env S F) (svc : QuoteService) (provider : RatesProvider S) where
  -- A provider has given a rate for the pair in capitals, and it is the price of the row.
  pub record IsCompleted (id base quote : Text) (w w' : World S) : Type 0 where
    pub pair : Pair
    pub normal : normalize_pair env.upper base quote ≡ ok pair
    pub supported : validate_pair env.upper pair.0 pair.1 ≡ ok tt
    pub rate : Rate
    pub given : (provider pair.0 pair.1 (started env svc provider id w)).0 ≡ ok rate
    pub now : Time
    pub priced : IsPriced env.pg now id rate.0 (started env svc provider id w).rows w'.rows

  module _ (quiet : IsQuiet provider) where
    started-IsValid :
        (id : Text) (w : World S) → IsValid w.rows → IsValid (started env svc provider id w).rows
    started-IsValid id w valid =
        Reach-IsValid valid
          (mark_running-Reach env.pg (env.db_link w.tick) (env.db_now w.tick) id w.rows)

    stored-IsPriced :
        (id price b q : Text) (w : World S)
        → IsValid w.rows
        → let w1 = (fetched env svc provider id b q w).1 in
          (stored env svc provider id price w1).0 ≡ ok tt
          → IsPriced env.pg
              (env.db_now w1.tick)
              id
              price
              (started env svc provider id w).rows
              (stored env svc provider id price w1).1
    stored-IsPriced id price b q w valid h =
        let w1 = (fetched env svc provider id b q w).1 in
        let same = (quiet b q).rows (started env svc provider id w) in
        subst
          (λ t.
            IsPriced env.pg (env.db_now w1.tick) id price t (stored env svc provider id price w1).1)
          same
          (mark_success-IsPriced env.pg (env.db_link w1.tick) (env.db_now w1.tick) id price w1.rows
            (subst IsValid (sym same) (started-IsValid id w valid)) h)

    -- Let the table be valid and the provider one that leaves the table and the queue alone. If
    -- `ProcessUpdate` returns no error, then the provider was asked for the supported pair in
    -- capitals and gave a rate, the row of the id was RUNNING behind `MarkRunning`, it is SUCCESS
    -- now with that rate as PostgreSQL reads it, and every other row is the same.
    pub process_update-IsCompleted :
        (id base quote : Text) (w : World S)
        → IsValid w.rows
        → (process_update env svc provider id base quote w).0 ≡ ok tt
        → IsCompleted id base quote w (process_update env svc provider id base quote w).1
    process_update-IsCompleted id base quote w valid h =
        let (p, normal, supported) = process_ok_pair env svc provider id base quote w h in
        let whole = process_valid env svc provider id base quote w p normal supported in
        let fine = ap (λ (x : Result (Unit {0}) × World S). x.0) (sym whole) ∙ h in
        elim (Result-cases (fetched env svc provider id p.0 p.1 w).0) [
          | inr (e, failed) ↦
              let (bad, _) =
                fetch_err env svc provider id p.0 p.1 w (fetched env svc provider id p.0 p.1 w).1 e
                  (λ i. (failed i, (fetched env svc provider id p.0 p.1 w).1)) in
              absurd (ground arith)
          | inl (rate, given) ↦
              let w1 = (fetched env svc provider id p.0 p.1 w).1 in
              let (res, rows) =
                fetch_ok env svc provider id p.0 p.1 w w1 rate (λ i. (given i, w1)) in
              record {
                pair = p;
                normal = normal;
                supported = supported;
                rate = rate;
                given = given;
                now = env.db_now w1.tick;
                priced =
                    subst
                      (IsPriced env.pg (env.db_now w1.tick) id rate.0
                        (started env svc provider id w).rows)
                      (sym (ap (λ (x : Result (Unit {0}) × World S). x.1.rows) whole ∙ rows))
                      (stored-IsPriced id rate.0 p.0 p.1 w valid (sym res ∙ fine));
              }
        ]

    -- Let the table be valid, the pair well formed and supported, the provider one that leaves
    -- the table alone and that fails with the error e, and the database reachable for
    -- `MarkFailed`. If the row of the id is PENDING or RUNNING behind `MarkRunning`, then
    -- `ProcessUpdate` returns e, the row is FAILED with the text of e, the time of the statement
    -- and no price, its other fields and every other row being the same.
    pub process_update-fails :
        (id base quote u : Text) (w : World S) (p : Pair) (e : Error) (r : Quote)
        → IsValid w.rows
        → normalize_pair env.upper base quote ≡ ok p
        → validate_pair env.upper p.0 p.1 ≡ ok tt
        → (fetched env svc provider id p.0 p.1 w).0 ≡ err e
        → env.db_link (fetched env svc provider id p.0 p.1 w).1.tick ≡ up
        → env.pg.uuid id ≡ some u
        → find (has_id u) (started env svc provider id w).rows ≡ some r
        → (r.status ≡ Status.pending) ⊎ (r.status ≡ Status.running)
        → let (res, w') = process_update env svc provider id base quote w in
          let now = env.db_now (fetched env svc provider id p.0 p.1 w).1.tick in
          (res ≡ err e)
          × ((find (has_id u) w'.rows
                ≡ some (record r {
                  status = Status.failed;
                  price = none;
                  error_msg = some (error_text e);
                  updated_at = some now;
                }))
              × AreOthersKept u (started env svc provider id w).rows w'.rows)
    process_update-fails id base quote u w p e r valid normal supported failed live cast found
          open_row =
        let whole = process_valid env svc provider id base quote w p normal supported in
        let w1 = (fetched env svc provider id p.0 p.1 w).1 in
        let same = (quiet p.0 p.1).rows (started env svc provider id w) in
        let (res, rows) = fetch_err env svc provider id p.0 p.1 w w1 e (λ i. (failed i, w1)) in
        let t = (started env svc provider id w).rows in
        let hit =
          updated_hit u can_fail (fail (env.db_now w1.tick) (error_text e)) (not_found_error id) t
            (mark_failed env.pg up (env.db_now w1.tick) id (error_text e) t).0
            (mark_failed env.pg up (env.db_now w1.tick) id (error_text e) t).1 r
            (mark_failed-HasUpdated env.pg (env.db_now w1.tick) id (error_text e) u t cast
              (started-IsValid id w valid))
            found (may_fail r.status open_row) in
        let rows' = ap (λ (x : Result (Unit {0}) × World S). x.1.rows) whole ∙ rows in
        rw (whole, res, rows, live, same) (refl, hit)
