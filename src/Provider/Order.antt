-- ===== src/Provider/Order.antt =====
-- facade.go: the providers that have failed, and the one that has not.
use exchange_rate_quote_serv.Prelude.{
  Text, codes, List, [], ◌∷◌, ◌++◌, ◌≡◌, inl, inr, refl, sym, ap, ◌∙◌, arith,
}
use mathlib.Core.Path.{subst}
use exchange_rate_quote_serv.Errors.{Error, error_text, join_lines, Result, ok, err, Result-cases}
use exchange_rate_quote_serv.World.{World}
use exchange_rate_quote_serv.Provider.Http.{Rate, RatesProvider}
use exchange_rate_quote_serv.Provider.Facade.{all_failed, facade_from, facade_get_rate}

append_nil : (es : List Text) → es ++ [] ≡ es
append_nil [] = refl
append_nil (e ∷ es) = ap (λ r. e ∷ r) (append_nil es)

append_snoc : (es fs : List Text) (e : Text) → (es ++ e ∷ []) ++ fs ≡ es ++ e ∷ fs
append_snoc [] fs e = refl
append_snoc (d ∷ es) fs e = ap (λ r. d ∷ r) (append_snoc es fs e)

-- The texts one to a line, in order.
pub data AreLines : List Text → Text → Type 0 where
  one_line : (t : Text) → AreLines (t ∷ []) t
  next_line :
      {t u : Text} {ts : List Text} {rest : Text}
      → AreLines (u ∷ ts) rest
      → AreLines (t ∷ u ∷ ts) (t ++ 10 ∷ rest)

-- What a failure says: the texts of the errors, or what Go prints where there is none.
pub data Says : List Text → Text → Type 0 where
  no_errors : Says [] (codes "%!w(<nil>)")
  some_errors : {es : List Text} {text : Text} → AreLines es text → Says es text

join_lines-AreLines : (t : Text) (ts : List Text) → AreLines (t ∷ ts) (join_lines (t ∷ ts))
unfolding join_lines
join_lines-AreLines t [] = one_line t
join_lines-AreLines t (u ∷ ts) = next_line (join_lines-AreLines u ts)

said :
    (es : List Text)
    → (text : Text) × Says es text
      × (all_failed es ≡ Error.failure (codes "all providers failed: " ++ text))
unfolding all_failed
said [] = (_, no_errors, refl)
said (t ∷ ts) = (_, some_errors (join_lines-AreLines t ts), refl)

module _ {S : Type 0} (base quote : Text) where
  -- Each provider of a list has failed, with the texts of their errors.
  pub data HaveFailed : List (RatesProvider S) → World S → List Text → World S → Type 0 where
    nobody : {w : World S} → HaveFailed [] w [] w
    somebody :
        {p : RatesProvider S} {ps : List (RatesProvider S)} {w w1 w2 : World S} {es : List Text}
        (e : Error)
        → p base quote w ≡ (err e, w1)
        → HaveFailed ps w1 es w2
        → HaveFailed (p ∷ ps) w (error_text e ∷ es) w2

  -- The first provider that succeeds behind some that fail, or none that succeeds.
  data FacadeFrom (errs : List Text) (ps : List (RatesProvider S)) (w : World S)
      (done : Result Rate × World S) : Type 0 where
    found :
        (before after : List (RatesProvider S)) (p : RatesProvider S) (es : List Text)
        (w1 w2 : World S) (rate : Rate)
        → ps ≡ before ++ p ∷ after
        → HaveFailed before w es w1
        → p base quote w1 ≡ (ok rate, w2)
        → done ≡ (ok rate, w2)
        → FacadeFrom errs ps w done
    all_lost :
        (es : List Text) (w1 : World S)
        → HaveFailed ps w es w1
        → done ≡ (err (all_failed (errs ++ es)), w1)
        → FacadeFrom errs ps w done

  extend :
      (errs : List Text) (p : RatesProvider S) (ps : List (RatesProvider S)) (w w1 : World S)
      (e : Error) (done : Result Rate × World S)
      → p base quote w ≡ (err e, w1)
      → FacadeFrom (errs ++ error_text e ∷ []) ps w1 done
      → FacadeFrom errs (p ∷ ps) w done
  extend errs p ps w w1 e done failed (found before after x es w2 w3 rate split lost given same) =
      found (p ∷ before) after x (error_text e ∷ es) w2 w3 rate (ap (λ r. p ∷ r) split)
        (somebody e failed lost) given same
  extend errs p ps w w1 e done failed (all_lost es w2 lost same) =
      all_lost (error_text e ∷ es) w2 (somebody e failed lost) (
        same
        ∙ ap (λ (t : List Text). (err (all_failed t), w2)) (append_snoc errs es (error_text e)))

  facade_from-FacadeFrom :
      (errs : List Text) (ps : List (RatesProvider S)) (w : World S)
      → FacadeFrom errs ps w (facade_from errs ps base quote w)
  unfolding facade_from
  facade_from-FacadeFrom errs [] w =
      all_lost [] w nobody (ap (λ (t : List Text). (err (all_failed t), w)) (sym (append_nil errs)))
  facade_from-FacadeFrom errs (p ∷ ps) w = elim (Result-cases (p base quote w).0) [
    | inl (rate, given) ↦
        found [] ps p [] w (p base quote w).1 rate refl nobody (λ i. (given i, (p base quote w).1))
          (ground arith)
    | inr (e, failed) ↦
        let w1 = (p base quote w).1 in
        extend errs p ps w w1 e (facade_from errs (p ∷ ps) base quote w) (λ i. (failed i, w1))
          (subst (FacadeFrom (errs ++ error_text e ∷ []) ps w1) (ground arith)
            (facade_from-FacadeFrom (errs ++ error_text e ∷ []) ps w1))
  ]

  -- The first provider that succeeds behind some that fail, or none that succeeds.
  pub data FacadeOutcome (ps : List (RatesProvider S)) (w : World S) (done : Result Rate × World S)
      : Type 0 where
    first :
        (before after : List (RatesProvider S)) (p : RatesProvider S) (es : List Text)
        (w1 w2 : World S) (rate : Rate)
        → ps ≡ before ++ p ∷ after
        → HaveFailed before w es w1
        → p base quote w1 ≡ (ok rate, w2)
        → done ≡ (ok rate, w2)
        → FacadeOutcome ps w done
    none_of :
        (es : List Text) (text : Text) (w1 : World S)
        → HaveFailed ps w es w1
        → Says es text
        → done ≡ (err (Error.failure (codes "all providers failed: " ++ text)), w1)
        → FacadeOutcome ps w done

  outcome :
      (ps : List (RatesProvider S)) (w : World S) (done : Result Rate × World S)
      → FacadeFrom [] ps w done
      → FacadeOutcome ps w done
  outcome ps w done (found before after p es w1 w2 rate split lost given same) =
      first before after p es w1 w2 rate split lost given same
  outcome ps w done (all_lost es w1 lost same) =
      let (text, says, e) = said es in
      none_of es text w1 lost says (same ∙ ap (λ (x : Error). (err x, w1)) e)

  -- The facade returns the rate of the first provider that gives one, in the world that the
  -- failures of those before it have left, and asks none behind it. If there is a provider and
  -- each fails in turn, it fails with "all providers failed: " and their texts in order, one to a
  -- line.
  pub facade_get_rate-FacadeOutcome :
      (ps : List (RatesProvider S)) (w : World S)
      → FacadeOutcome ps w (facade_get_rate ps base quote w)
  unfolding facade_get_rate
  facade_get_rate-FacadeOutcome ps w =
      outcome ps w (facade_from [] ps base quote w) (facade_from-FacadeFrom [] ps w)
