-- ===== src/Provider/Quiet.antt =====
-- The providers, the table and the queue.
use exchange_rate_quote_serv.Prelude.{Text, List, [], ◌∷◌, ◌++◌, ◌≡◌, refl, All, inl, inr}
use native.Mathlib.Omega.{arith}
use exchange_rate_quote_serv.Errors.{error_text, Result-cases}
use exchange_rate_quote_serv.World.{Env, World, Action, advance}
use exchange_rate_quote_serv.Provider.Http.{
  RatesProvider, ExchangeRateHostProvider, FrankfurterProvider, er_host_get_rate,
  frankfurter_get_rate,
}
use exchange_rate_quote_serv.Provider.Cached.{CachedRatesProviderDecorator, cached_get_rate}
use exchange_rate_quote_serv.Provider.Facade.{facade_from, facade_get_rate}

pub record Quiet {S A : Type 0} (m : Action S A) : Type 0 where
  pub rows : (w : World S) → (m w).1.rows ≡ w.rows
  pub tasks : (w : World S) → (m w).1.tasks ≡ w.tasks

-- A provider that is quiet for every pair.
abbrev pub IsQuiet : {S : Type 0} → RatesProvider S → Type 0
IsQuiet p = (base quote : Text) → Quiet (p base quote)

module _ {S F : Type 0} (env : Env S F) where
  pub er_host_get_rate-Quiet : (p : ExchangeRateHostProvider) → IsQuiet (er_host_get_rate env p)
  unfolding er_host_get_rate
  er_host_get_rate-Quiet p base quote = record {
    rows = λ w. ground arith;
    tasks = λ w. ground arith;
  }

  pub frankfurter_get_rate-Quiet : (p : FrankfurterProvider) → IsQuiet (frankfurter_get_rate env p)
  unfolding frankfurter_get_rate
  frankfurter_get_rate-Quiet p base quote = record {
    rows = λ w. ground arith;
    tasks = λ w. ground arith;
  }

  module _ (p : CachedRatesProviderDecorator) (inner : RatesProvider S)
      (quiet : IsQuiet inner) where
    pub cached_get_rate-Quiet : IsQuiet (cached_get_rate env p inner)
    unfolding cached_get_rate
    cached_get_rate-Quiet base quote = record {
      rows = λ w. ground (arith, (quiet base quote).rows w, (quiet base quote).rows (advance w));
      tasks = λ w. ground (arith, (quiet base quote).tasks w, (quiet base quote).tasks (advance w));
    }

module _ {S : Type 0} where
  abbrev pub AreQuiet : List (RatesProvider S) → Type 0
  AreQuiet ps = All IsQuiet ps

  facade_from-Quiet :
      (errs : List Text) (ps : List (RatesProvider S)) → AreQuiet ps → IsQuiet (facade_from errs ps)
  unfolding facade_from
  facade_from-Quiet errs [] h base quote = record { rows = λ w. refl; tasks = λ w. refl }
  facade_from-Quiet errs (p ∷ ps) (q, qs) base quote = record {
    rows = λ w. elim (Result-cases (p base quote w).0) [
      | inl (rate, e) ↦ ground (arith, (q base quote).rows w)
      | inr (e, failed) ↦
          let rest = (facade_from-Quiet (errs ++ error_text e ∷ []) ps qs base quote).rows in
          ground (arith, (q base quote).rows w, rest (p base quote w).1)
    ];
    tasks = λ w. elim (Result-cases (p base quote w).0) [
      | inl (rate, e) ↦ ground (arith, (q base quote).tasks w)
      | inr (e, failed) ↦
          let rest = (facade_from-Quiet (errs ++ error_text e ∷ []) ps qs base quote).tasks in
          ground (arith, (q base quote).tasks w, rest (p base quote w).1)
    ];
  }

  pub facade_get_rate-Quiet :
      (ps : List (RatesProvider S)) → AreQuiet ps → IsQuiet (facade_get_rate ps)
  unfolding facade_get_rate
  facade_get_rate-Quiet ps h = facade_from-Quiet [] ps h
