-- ===== src/Threads/Program.antt =====
-- A thread of the service: its outside calls one by one.
use exchange_rate_quote_serv.Prelude.{◌≡◌, refl}
use mathlib.Core.Path.{fun_ext}
use exchange_rate_quote_serv.Errors.{Error, Result, ok, err}
use exchange_rate_quote_serv.World.{World, Action, with_error}
use exchange_rate_quote_serv.World

-- `call act next` changes the world by `act` and goes on by what the call has returned, which
-- the world before it determines.
pub data Program (S A : Type 0) : Type 0 where
  done : Result A → Program S A
  call : (act : World S → World S) → (next : World S → Program S A) → Program S A

infixl 5 ◌>>=◌ ◌>>◌
unfoldable pub ◌>>=◌ : {S A B : Type 0} → Program S A → (A → Program S B) → Program S B
done (ok a) >>= f = f a
done (err e) >>= f = done (err e)
call act next >>= f = call act (λ w. next w >>= f)

abbrev pub ◌>>◌ : {S A B : Type 0} → Program S A → Program S B → Program S B
m >> k = m >>= λ _. k

module _ {S A : Type 0} where
  abbrev pub pure : A → Program S A
  pure a = done (ok a)

  abbrev pub raise : Error → Program S A
  raise e = done (err e)

  abbrev pub lift : Result A → Program S A
  lift r = done r

  -- An operation that is one outside call.
  abbrev pub atom : Action S A → Program S A
  atom m = call (λ w. (m w).1) (λ w. done (m w).0)

  unfoldable pub attempt : Program S A → Program S (Result A)
  attempt (done r) = done (ok r)
  attempt (call act next) = call act (λ w. attempt (next w))

  unfoldable pub or_error : Program S A → Error → Program S A
  or_error (done r) e = done (with_error e r)
  or_error (call act next) e = call act (λ w. or_error (next w) e)

  -- A thread whose result nobody reads.
  unfoldable pub forget : Program S A → Program S (Unit {0})
  forget (done r) = done (ok tt)
  forget (call act next) = call act (λ w. forget (next w))

  -- A thread that runs alone.
  unfoldable pub run : Program S A → Action S A
  run (done r) w = (r, w)
  run (call act next) w = run (next w) (act w)

module _ {S A : Type 0} where
  pub run-atom : (m : Action S A) → run (atom m) ≡ m
  unfolding run
  run-atom m = refl

  run-attempt_at : (m : Program S A) (w : World S) → run (attempt m) w ≡ World.attempt (run m) w
  unfolding run attempt
  run-attempt_at (done r) w = refl
  run-attempt_at (call act next) w = run-attempt_at (next w) (act w)

  pub run-attempt : (m : Program S A) → run (attempt m) ≡ World.attempt (run m)
  run-attempt m = fun_ext (run-attempt_at m)

  run-or_error_at :
      (m : Program S A) (e : Error) (w : World S)
      → run (or_error m e) w ≡ World.or_error (run m) e w
  unfolding run or_error
  run-or_error_at (done r) e w = refl
  run-or_error_at (call act next) e w = run-or_error_at (next w) e (act w)

  pub run-or_error : (m : Program S A) (e : Error) → run (or_error m e) ≡ World.or_error (run m) e
  run-or_error m e = fun_ext (run-or_error_at m e)

module _ {S A B : Type 0} where
  run-bind_at :
      (m : Program S A) (f : A → Program S B) (w : World S)
      → run (m >>= f) w ≡ World.◌>>=◌ (run m) (λ a. run (f a)) w
  unfolding run ◌>>=◌
  run-bind_at (done (ok a)) f w = refl
  run-bind_at (done (err e)) f w = refl
  run-bind_at (call act next) f w = run-bind_at (next w) f (act w)

  pub run-bind :
      (m : Program S A) (f : A → Program S B) → run (m >>= f) ≡ World.◌>>=◌ (run m) (λ a. run (f a))
  run-bind m f = fun_ext (run-bind_at m f)
