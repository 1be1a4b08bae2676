-- ===== src/System/Held.antt =====
-- A pair whose update is in flight: a further request, and an update whose success is not stored.
use exchange_rate_quote_serv.Prelude.{
  codes, suc, Text, text_eq, text_eq_iff, true, false, any, some, ◌≡◌, ap, ◌∙◌, arith, inl, inr,
  Bool-cases, [], ◌∷◌,
}
use exchange_rate_quote_serv.Errors.{Error, Result, ok, err}
use exchange_rate_quote_serv.Currency.{Pair, parse_pair, normalize_pair, validate_pair}
use exchange_rate_quote_serv.Currency.Accepted.{parse_pair-IsAccepted}
use exchange_rate_quote_serv.Prelude.Unicode.{IsCaseTable}
use exchange_rate_quote_serv.Repository.Table.{Quote, Table, has_id, find}
use exchange_rate_quote_serv.Repository.Methods.{up, lost, mark_success}
use exchange_rate_quote_serv.Repository.Invariant.{IsValid}
use exchange_rate_quote_serv.Repository.Dedup.{IsHeld, create_update_held}
use exchange_rate_quote_serv.Provider.Http.{Rate, RatesProvider}
use exchange_rate_quote_serv.Provider.Quiet.{IsQuiet}
use exchange_rate_quote_serv.Service.Cache.{QuoteService}
use exchange_rate_quote_serv.World.{Env, World}
use exchange_rate_quote_serv.Service.Operations.{process_update}
use exchange_rate_quote_serv.Service.QuoteResult.{status_text}
use exchange_rate_quote_serv.Worker.{AsynqEnqueuer}
use exchange_rate_quote_serv.System.Codes.{char3-listed}
use exchange_rate_quote_serv.System.Processing.{started, fetched, stored, fetch_ok, process_valid}
use exchange_rate_quote_serv.System.Requests.{request, created, request-continued, MakesUuids}

differs_here :
    (x u : Text) (s : Quote) → has_id x s ≡ true → has_id u s ≡ false → text_eq x u ≡ false
unfolding has_id
differs_here x u s h k = ground (arith, text_eq_iff s.id x, text_eq_iff s.id u, text_eq_iff x u)

-- An id that no row has is not that of a row that is found.
fresh_differs :
    (x u : Text) (r : Quote) (t : Table)
    → find (has_id x) t ≡ some r
    → any (has_id u) t ≡ false
    → text_eq x u ≡ false
unfolding find
fresh_differs x u r [] h k = cc
fresh_differs x u r (s ∷ t) h k = elim (Bool-cases (has_id x s)) [
  | inl hit ↦ differs_here x u s hit (ground arith)
  | inr miss ↦ fresh_differs x u r t (ground arith) (ground arith)
]

module _ {S F : Type 0} (env : Env S F) (e : AsynqEnqueuer) (uuids : MakesUuids env) where
  -- Let the case table be Unicode's, the table valid and the pair well formed and supported, let
  -- `uuid.New` make an id that no row has, in PostgreSQL's spelling, and let the database be
  -- reachable. If a row of the pair is PENDING or RUNNING, then `RequestQuoteUpdate` returns its
  -- id and the status PENDING, and neither the table, nor the cache, nor the queue changes.
  pub request-held :
      (pair b q x : Text) (w : World S)
      → IsCaseTable env.upper
      → IsValid w.rows
      → parse_pair env.upper pair ≡ ok (b, q)
      → validate_pair env.upper b q ≡ ok tt
      → IsHeld x b q w.rows
      → any (has_id (env.new_uuid w.tick)) w.rows ≡ false
      → env.db_link (suc w.tick) ≡ up
      → request env e pair w ≡ (ok (x, codes "PENDING"), record w { tick = suc (suc w.tick) })
  unfolding status_text
  request-held pair b q x w table valid parsed validated held fresh live =
      let acc = parse_pair-IsAccepted env.upper table pair b q parsed validated in
      let same =
        create_update_held env.pg (env.db_now (suc w.tick)) b q (env.new_uuid w.tick)
          (env.new_uuid w.tick) x w.rows (char3-listed b acc.base_listed)
          (char3-listed q acc.quote_listed) (uuids.made w.tick) valid held in
      let made : created env e w b q ≡ (ok x, w.rows) = rw live same in
      let whole =
        request-continued env e pair w b q x parsed validated
          (ap (λ (p : Result Text × Table). p.0) made) in
      let other = fresh_differs x (env.new_uuid w.tick) held.0 w.rows held.1 fresh in ground (arith)

module _ {S F : Type 0} (env : Env S F) (svc : QuoteService) (provider : RatesProvider S)
    (quiet : IsQuiet provider) where
  lost_store :
      (id price why : Text) (w : World S)
      → env.db_link w.tick ≡ lost why
      → ((stored env svc provider id price w).0 ≡ err (Error.failure why))
        × ((stored env svc provider id price w).1 ≡ w.rows)
  unfolding mark_success
  lost_store id price why w h = ground arith

  -- Let the provider leave the table alone. If the pair is well formed and supported, the
  -- provider gives a rate, and the statement of `MarkSuccess` is lost on its way to the database,
  -- then `ProcessUpdate` returns that error and the table stays as `MarkRunning` has left it.
  pub process_update-lost :
      (id base quote why : Text) (w : World S) (p : Pair) (rate : Rate)
      → normalize_pair env.upper base quote ≡ ok p
      → validate_pair env.upper p.0 p.1 ≡ ok tt
      → (fetched env svc provider id p.0 p.1 w).0 ≡ ok rate
      → env.db_link (fetched env svc provider id p.0 p.1 w).1.tick ≡ lost why
      → let (res, w') = process_update env svc provider id base quote w in
        (res ≡ err (Error.failure why)) × (w'.rows ≡ (started env svc provider id w).rows)
  process_update-lost id base quote why w p rate normal supported given cut =
      let whole = process_valid env svc provider id base quote w p normal supported in
      let w1 = (fetched env svc provider id p.0 p.1 w).1 in
      let (res, rows) = fetch_ok env svc provider id p.0 p.1 w w1 rate (λ i. (given i, w1)) in
      let (bad, same) = lost_store id rate.0 why w1 cut in
      (
        ap (λ (x : Result (Unit {0}) × World S). x.0) whole ∙ res ∙ bad,
        ap (λ (x : Result (Unit {0}) × World S). x.1.rows) whole
            ∙ rows
            ∙ same
            ∙ (quiet p.0 p.1).rows (started env svc provider id w),
      )
