-- ===== src/Threads/Safe/Lookups.antt =====
-- `GetQuoteResult` and `GetLatestQuote` as threads.
use exchange_rate_quote_serv.Prelude.{
  Text, Option, none, some, ◌≡◌, inl, inr, refl, arith, Option-cases,
}
use exchange_rate_quote_serv.Errors.{Error, Result, ok, err}
use exchange_rate_quote_serv.Currency.{normalize_pair, validate_pair}
use exchange_rate_quote_serv.Repository.Table.{Quote, Table}
use exchange_rate_quote_serv.Repository.Invariant.{IsValid}
use exchange_rate_quote_serv.Repository.Methods.{Link, get_latest_success}
use exchange_rate_quote_serv.Repository.Prices.{HasPrice, get_latest_success-HasPrice}
use exchange_rate_quote_serv.World.{Env, pure}
use exchange_rate_quote_serv.Threads.Safe.Calls.{cache_set_latest-IsSafe}
use exchange_rate_quote_serv.Service.Cache.{
  QuoteService, cache_get_latest, cache_set_latest_from_quote,
}
use exchange_rate_quote_serv.Service.Operations.{repo_get_by_id, repo_get_latest_success}
use exchange_rate_quote_serv.Threads.Program.{atom}
use exchange_rate_quote_serv.Threads.Operations.{
  or_not_found_thread, result_thread, rows_thread, hit_or_rows, latest_thread,
}
use exchange_rate_quote_serv.Threads.Keeps.{quiet_keeps}
use exchange_rate_quote_serv.Threads.Ensures.{
  Holds, On, Ensures, atom-Ensures, IsSafe, IsSafe-Ensures, or_error-Ensures, done-IsSafe,
  lift-Ensures, bind-IsSafe, atom-IsSafe,
}

module _ {S F : Type 0} (env : Env S F) where
  -- The price of the row that was found is a price of the table.
  abbrev IsPricedIn : Option Quote → Table → Type 0
  IsPricedIn none t = Unit
  IsPricedIn (some r) t = (price : Text) → r.price ≡ some price → HasPrice env.pg price t

  priced-On :
      (link : Link) (b q : Text) (t : Table) (r : Result (Option Quote))
      → IsValid t
      → get_latest_success env.pg link b q t ≡ r
      → On r (λ o. IsPricedIn o t)
  priced-On link b q t (ok none) valid h = tt
  priced-On link b q t (ok (some x)) valid h =
      λ price priced. get_latest_success-HasPrice link b q t x price valid h priced
  priced-On link b q t (err e) valid h = tt

  latest_success-Ensures :
      (b q : Text) (t : Table)
      → Ensures env t (atom (repo_get_latest_success env b q)) (λ t' o. IsPricedIn o t')
  latest_success-Ensures b q t = atom-Ensures env _ t _ λ w reach sound. (
    quiet_keeps env refl refl refl sound,
    priced-On (env.db_link w.tick) b q w.rows
        (get_latest_success env.pg (env.db_link w.tick) b q w.rows) sound.0 refl,
  )

  found-Ensures :
      (o : Option Quote) (t : Table)
      → IsPricedIn o t
      → Ensures env t (or_not_found_thread env o) (λ t' r. IsPricedIn (some r) t')
  unfolding Holds
  found-Ensures none t h = record { holds = tt }
  found-Ensures (some r) t h = record { holds = h }

  pure-atom-IsSafe : (t : Table) → IsSafe env t (atom {S = S} (pure tt))
  pure-atom-IsSafe t = atom-IsSafe env _ t λ w reach sound. quiet_keeps env refl refl refl sound

  or_not_found-IsSafe : (o : Option Quote) (t : Table) → IsSafe env t (or_not_found_thread env o)
  or_not_found-IsSafe none t = done-IsSafe env _
  or_not_found-IsSafe (some q) t = done-IsSafe env _

  pub result_thread-IsSafe : (id : Text) (t : Table) → IsSafe env t (result_thread env id)
  unfolding result_thread
  result_thread-IsSafe id t = bind-IsSafe env (lift-Ensures env _) λ t1 _ _.
      bind-IsSafe env
        (or_error-Ensures env Error.internal (
          IsSafe-Ensures env (
            atom-IsSafe env (repo_get_by_id env id) t1
              (λ w reach sound. quiet_keeps env refl refl refl sound))))
        λ t2 found _.
          bind-IsSafe env (IsSafe-Ensures env (or_not_found-IsSafe found t2))
            (λ _ _ _. done-IsSafe env _)

  module _ (svc : QuoteService) where
    cache_set_from-IsSafe :
        (r : Quote) (t : Table)
        → IsPricedIn (some r) t
        → IsSafe env t (atom (cache_set_latest_from_quote env svc r))
    unfolding cache_set_latest_from_quote
    cache_set_from-IsSafe r t has = elim (Option-cases r.price) [
      | inl none_there ↦ rw none_there (pure-atom-IsSafe t)
      | inr (price, priced) ↦ elim (Option-cases r.updated_at) [
        | inl none_there ↦ rw priced (rw none_there (pure-atom-IsSafe t))
        | inr (at, timed) ↦ rw priced (
            rw timed (cache_set_latest-IsSafe env svc r.base r.quote price at t (has price priced)))
      ]
    ]

    cache_get_latest-IsSafe :
        (b q : Text) (t : Table) → IsSafe env t (atom (cache_get_latest env svc b q))
    unfolding cache_get_latest
    cache_get_latest-IsSafe b q t =
        atom-IsSafe env _ t
          λ w reach sound. quiet_keeps env (ground arith) (ground arith) (ground arith) sound

    rows-IsSafe : (b q : Text) (t : Table) → IsSafe env t (rows_thread env svc b q)
    rows-IsSafe b q t =
        bind-IsSafe env (or_error-Ensures env Error.internal (latest_success-Ensures b q t))
          λ t1 found priced. bind-IsSafe env (found-Ensures found t1 priced) λ t2 r has.
            bind-IsSafe env (IsSafe-Ensures env (cache_set_from-IsSafe r t2 has))
              (λ _ _ _. done-IsSafe env _)

    hit-IsSafe :
        (o : Option Quote) (b q : Text) (t : Table) → IsSafe env t (hit_or_rows env svc o b q)
    hit-IsSafe none b q t = rows-IsSafe b q t
    hit-IsSafe (some r) b q t = done-IsSafe env _

    pub latest_thread-IsSafe : (b q : Text) (t : Table) → IsSafe env t (latest_thread env svc b q)
    unfolding latest_thread
    latest_thread-IsSafe b q t =
        bind-IsSafe env (lift-Ensures env (normalize_pair env.upper b q)) λ _ p _.
          bind-IsSafe env (lift-Ensures env (validate_pair env.upper p.0 p.1)) λ t2 _ _.
            bind-IsSafe env (IsSafe-Ensures env (cache_get_latest-IsSafe p.0 p.1 t2))
              λ t3 o _. hit-IsSafe o p.0 p.1 t3
