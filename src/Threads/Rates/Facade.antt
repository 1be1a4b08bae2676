-- ===== src/Threads/Rates/Facade.antt =====
-- facade.go as a thread.
use exchange_rate_quote_serv.Prelude.{
  ℕ, Text, List, [], ◌∷◌, ◌++◌, ◌≡◌, ◌*◌, length, refl, ap, ◌∙◌, arith, map, All,
}
use exchange_rate_quote_serv.Errors.{error_text, Result, ok, err}
use exchange_rate_quote_serv.World.{Env, World, Action}
use exchange_rate_quote_serv.World
use exchange_rate_quote_serv.Repository.Table.{Table}
use exchange_rate_quote_serv.Provider.Http.{Rate}
use exchange_rate_quote_serv.Provider.Facade.{facade_from}
use exchange_rate_quote_serv.Threads.Program.{Program, attempt, run, run-bind, run-attempt}
use exchange_rate_quote_serv.Threads.Operations.{RatesProgram}
use exchange_rate_quote_serv.Threads.Ensures.{IsSafe, bind-IsSafe, attempt-Ensures, done-IsSafe}
use exchange_rate_quote_serv.Threads.Idle.{IsIdle, bind-IsIdle, attempt-IsIdle, done-IsIdle}
use exchange_rate_quote_serv.Threads.Ends.{
  EndsIn, bind-EndsIn, attempt-EndsIn, done-EndsIn, more_EndsIn,
}
use exchange_rate_quote_serv.Threads.Providers.{provider_of, rate_or, facade_thread}

module _ {S : Type 0} where
  rate_or_alone :
      (r : Result Rate) (ps : List (RatesProgram S)) (errs : List Text) (b q : Text) (w : World S)
      → ((errs' : List Text)
          → run (facade_thread ps errs' b q) w ≡ facade_from errs' (map provider_of ps) b q w)
      → run (rate_or r (λ t. facade_thread ps (errs ++ t ∷ []) b q)) w ≡ elim r [
        | ok rate ↦ (ok rate, w)
        | err e ↦ facade_from (errs ++ error_text e ∷ []) (map provider_of ps) b q w
      ]
  unfolding run
  rate_or_alone (ok rate) ps errs b q w h = refl
  rate_or_alone (err e) ps errs b q w h = h (errs ++ error_text e ∷ [])

  pub facade_thread-alone :
      (ps : List (RatesProgram S)) (errs : List Text) (b q : Text) (w : World S)
      → run (facade_thread ps errs b q) w ≡ facade_from errs (map provider_of ps) b q w
  unfolding facade_thread facade_from run
  facade_thread-alone [] errs b q w = refl
  facade_thread-alone (p ∷ ps) errs b q w =
      let (r, w') = run (p b q) w in
      let next : Text → Program S Rate = λ t. facade_thread ps (errs ++ t ∷ []) b q in
      ap (λ f. f w) (run-bind (attempt (p b q)) (λ r. rate_or r next))
      ∙ ap (λ m. World.◌>>=◌ m (λ r. run (rate_or r next)) w) (run-attempt (p b q))
      ∙ rate_or_alone r ps errs b q w' (λ errs'. facade_thread-alone ps errs' b q w')

  rate_or-EndsIn :
      (k : ℕ) (r : Result Rate) (next : Text → Program S Rate)
      → ((t : Text) → EndsIn k (next t))
      → EndsIn k (rate_or r next)
  rate_or-EndsIn k (ok rate) next h = done-EndsIn k _
  rate_or-EndsIn k (err e) next h = h (error_text e)

  pub facade_thread-EndsIn :
      (k : ℕ) (ps : List (RatesProgram S))
      → All (λ p. (b q : Text) → EndsIn k (p b q)) ps
      → (errs : List Text) (b q : Text) → EndsIn (k * length ps) (facade_thread ps errs b q)
  unfolding facade_thread
  facade_thread-EndsIn k [] h errs b q = done-EndsIn _ _
  facade_thread-EndsIn k (p ∷ ps) (h, hs) errs b q =
      more_EndsIn (k * length (p ∷ ps)) (ground arith) (
        bind-EndsIn (attempt-EndsIn (h b q)) λ r.
          rate_or-EndsIn (k * length ps) r _
            (λ t. facade_thread-EndsIn k ps hs (errs ++ t ∷ []) b q))

  rate_or-IsIdle :
      (r : Result Rate) (next : Text → Program S Rate)
      → ((t : Text) → IsIdle (next t))
      → IsIdle (rate_or r next)
  rate_or-IsIdle (ok rate) next h = done-IsIdle _
  rate_or-IsIdle (err e) next h = h (error_text e)

  pub facade_thread-IsIdle :
      (ps : List (RatesProgram S))
      → All (λ p. (b q : Text) → IsIdle (p b q)) ps
      → (errs : List Text) (b q : Text) → IsIdle (facade_thread ps errs b q)
  unfolding facade_thread
  facade_thread-IsIdle [] h errs b q = done-IsIdle _
  facade_thread-IsIdle (p ∷ ps) (h, hs) errs b q =
      bind-IsIdle (attempt-IsIdle (h b q))
        λ r. rate_or-IsIdle r _ (λ t. facade_thread-IsIdle ps hs (errs ++ t ∷ []) b q)

module _ {S F : Type 0} (env : Env S F) where
  rate_or-IsSafe :
      (r : Result Rate) (next : Text → Program S Rate) (t : Table)
      → ((x : Text) → IsSafe env t (next x))
      → IsSafe env t (rate_or r next)
  rate_or-IsSafe (ok rate) next t h = done-IsSafe env _
  rate_or-IsSafe (err e) next t h = h (error_text e)

  pub facade_thread-IsSafe :
      (ps : List (RatesProgram S))
      → All (λ p. (b q : Text) (t : Table) → IsSafe env t (p b q)) ps
      → (errs : List Text) (b q : Text) (t : Table) → IsSafe env t (facade_thread ps errs b q)
  unfolding facade_thread
  facade_thread-IsSafe [] h errs b q t = done-IsSafe env _
  facade_thread-IsSafe (p ∷ ps) (h, hs) errs b q t =
      bind-IsSafe env (attempt-Ensures env (h b q t))
        λ t' r _. rate_or-IsSafe r _ t' (λ x. facade_thread-IsSafe ps hs (errs ++ x ∷ []) b q t')
