-- ===== src/Threads/Safe/Calls.antt =====
-- The calls of the service that write, as steps of a thread.
use exchange_rate_quote_serv.Prelude.{Text, refl, inl, inr, Bool-cases}
use exchange_rate_quote_serv.Errors.{Error, error_text}
use exchange_rate_quote_serv.Currency.Accepted.{IsAccepted}
use exchange_rate_quote_serv.Repository.Table.{Time, Table}
use exchange_rate_quote_serv.Repository.Methods.{create_update, mark_success}
use exchange_rate_quote_serv.Repository.Dedup.{IsHeld, create_update-IsHeld}
use exchange_rate_quote_serv.Repository.Calls.{
  create_update-Reach, mark_running-Reach, mark_success-Reach, mark_failed-Reach,
}
use exchange_rate_quote_serv.System.Codes.{char3-listed}
use exchange_rate_quote_serv.Repository.Prices.{HasPrice, Reach-HasPrice, mark_success-HasPrice}
use exchange_rate_quote_serv.System.Schedule.{IsSound}
use exchange_rate_quote_serv.World.{Env, World}
use exchange_rate_quote_serv.Threads.Writes.{latest_written}
use exchange_rate_quote_serv.Service.Cache.{QuoteService, cache_set_latest}
use exchange_rate_quote_serv.Service.Operations.{
  service_mark_failed, service_mark_running, complete_failure, repo_create_update,
  repo_mark_success,
}
use exchange_rate_quote_serv.Threads.Program.{atom}
use exchange_rate_quote_serv.Threads.Keeps.{KeepsSound, quiet_writes, idle_keeps, quiet_keeps}
use exchange_rate_quote_serv.Threads.Ensures.{Ensures, IsSafe, On_values, atom-Ensures, atom-IsSafe}

module _ {S F : Type 0} (env : Env S F) where
  pub mark_failed-IsSafe :
      (id why : Text) (t : Table) → IsSafe env t (atom (service_mark_failed env id why))
  unfolding service_mark_failed
  mark_failed-IsSafe id why t = atom-IsSafe env _ t λ w reach sound.
      idle_keeps env
        (mark_failed-Reach env.pg (env.db_link w.tick) (env.db_now w.tick) id why w.rows) refl refl
        sound

  pub complete_failure-IsSafe :
      (id : Text) (e : Error) (t : Table) → IsSafe env t (atom (complete_failure env id e))
  unfolding complete_failure
  complete_failure-IsSafe id e t = atom-IsSafe env _ t λ w reach sound.
      idle_keeps env
        (mark_failed-Reach env.pg (env.db_link w.tick) (env.db_now w.tick) id (error_text e) w.rows)
        refl refl sound

  pub mark_running-IsSafe :
      (id : Text) (t : Table) → IsSafe env t (atom (service_mark_running env id))
  unfolding service_mark_running
  mark_running-IsSafe id t = atom-IsSafe env _ t λ w reach sound.
      idle_keeps env (mark_running-Reach env.pg (env.db_link w.tick) (env.db_now w.tick) id w.rows)
        refl refl sound

  pub mark_success-Ensures :
      (id price : Text) (t : Table)
      → Ensures env t (atom (repo_mark_success env id price)) (λ t' _. HasPrice env.pg price t')
  mark_success-Ensures id price t = atom-Ensures env _ t _ λ w reach sound.
      let link = env.db_link w.tick in
      let now = env.db_now w.tick in
      let (r, t') = mark_success env.pg link now id price w.rows in
      (
        idle_keeps env (mark_success-Reach env.pg link now id price w.rows) refl refl sound,
        On_values (λ _. HasPrice env.pg price t') r
            (λ done h. mark_success-HasPrice link now id price w.rows sound.0 h),
      )

  pub create_update-Ensures :
      (b q uid : Text) (t : Table)
      → IsAccepted env.upper b q
      → Ensures env t (atom (repo_create_update env b q uid)) (λ t' id. IsHeld id b q t')
  create_update-Ensures b q uid t acc = atom-Ensures env _ t _ λ w reach sound.
      let link = env.db_link w.tick in
      let now = env.db_now w.tick in
      let (r, t') = create_update env.pg link now b q uid w.rows in
      (
        idle_keeps env (create_update-Reach env.pg link now b q uid w.rows) refl refl sound,
        On_values (λ id. IsHeld id b q t') r
            λ id made.
              create_update-IsHeld env.pg link now b q uid id w.rows t'
                (char3-listed b acc.base_listed) (char3-listed q acc.quote_listed) sound.0
                (λ i. (made i, t')),
      )

  module _ (svc : QuoteService) where
    cache_set_keeps :
        (b q price : Text) (at : Time) (w : World S)
        → HasPrice env.pg price w.rows
        → IsSound env w
        → KeepsSound env w (cache_set_latest env svc b q price at w).1
    unfolding cache_set_latest
    cache_set_keeps b q price at w has sound = elim (Bool-cases svc.has_cache) [
      | inl on ↦ rw on (
          quiet_writes env refl refl
            (latest_written b q price _ w.tick svc.latest_price_ttl has refl) sound)
      | inr off ↦ rw off (quiet_keeps env refl refl refl sound)
    ]

    pub cache_set_latest-IsSafe :
        (b q price : Text) (at : Time) (t : Table)
        → HasPrice env.pg price t
        → IsSafe env t (atom (cache_set_latest env svc b q price at))
    cache_set_latest-IsSafe b q price at t has =
        atom-IsSafe env _ t
          λ w reach sound. cache_set_keeps b q price at w (Reach-HasPrice reach has) sound
