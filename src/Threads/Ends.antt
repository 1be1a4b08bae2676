-- ===== src/Threads/Ends.antt =====
-- How many calls a thread makes at most, whatever they return.
use exchange_rate_quote_serv.Prelude.{ℕ, suc, zero, ◌+◌, ◌≤◌, arith}
use exchange_rate_quote_serv.Errors.{Error, Result, ok, err}
use exchange_rate_quote_serv.World.{World, Action}
use exchange_rate_quote_serv.Threads.Program.{
  Program, done, call, atom, attempt, or_error, forget, ◌>>=◌,
}

unfoldable pub Within : {S A : Type 0} → ℕ → Program S A → Type 0
Within n (done r) = Unit
Within zero (call act next) = ⊥
Within {S = S} (suc n) (call act next) = (w : World S) → Within n (next w)

-- The thread has ended after `n` calls at the latest.
pub record EndsIn {S A : Type 0} (n : ℕ) (m : Program S A) : Type 0 where
  pub within : Within n m

module _ {S : Type 0} where
  pub more_Within : {A : Type 0} (m : Program S A) (n k : ℕ) → n ≤ k → Within n m → Within k m
  unfolding Within
  more_Within (done r) n k le h = tt
  more_Within (call act next) zero k le h = absurd h
  more_Within (call act next) (suc n) zero le h = absurd (ground arith)
  more_Within (call act next) (suc n) (suc k) le h =
      λ w. more_Within (next w) n k (ground arith) (h w)

  bind_Within :
      {A B : Type 0} (m : Program S A) (f : A → Program S B) (n k j : ℕ)
      → n + k ≤ j
      → Within n m
      → ((a : A) → Within k (f a))
      → Within j (m >>= f)
  unfolding Within ◌>>=◌
  bind_Within (done (ok a)) f n k j le h g = more_Within (f a) k j (ground arith) (g a)
  bind_Within (done (err e)) f n k j le h g = tt
  bind_Within (call act next) f zero k j le h g = absurd h
  bind_Within (call act next) f (suc n) k zero le h g = absurd (ground arith)
  bind_Within (call act next) f (suc n) k (suc j) le h g =
      λ w. bind_Within (next w) f n k j (ground arith) (h w) g

  attempt_Within : {A : Type 0} (m : Program S A) (n : ℕ) → Within n m → Within n (attempt m)
  unfolding Within attempt
  attempt_Within (done r) n h = tt
  attempt_Within (call act next) zero h = h
  attempt_Within (call act next) (suc n) h = λ w. attempt_Within (next w) n (h w)

  or_error_Within :
      {A : Type 0} (m : Program S A) (e : Error) (n : ℕ) → Within n m → Within n (or_error m e)
  unfolding Within or_error
  or_error_Within (done r) e n h = tt
  or_error_Within (call act next) e zero h = h
  or_error_Within (call act next) e (suc n) h = λ w. or_error_Within (next w) e n (h w)

  forget_Within : {A : Type 0} (m : Program S A) (n : ℕ) → Within n m → Within n (forget m)
  unfolding Within forget
  forget_Within (done r) n h = tt
  forget_Within (call act next) zero h = h
  forget_Within (call act next) (suc n) h = λ w. forget_Within (next w) n (h w)

  module _ {A : Type 0} where
    pub more_EndsIn : {m : Program S A} {n : ℕ} (k : ℕ) → n ≤ k → EndsIn n m → EndsIn k m
    more_EndsIn {m = m} {n = n} k le h = record { within = more_Within m n k le h.within }

    pub bind-EndsIn :
        {B : Type 0} {m : Program S A} {f : A → Program S B} {n k : ℕ}
        → EndsIn n m
        → ((a : A) → EndsIn k (f a))
        → EndsIn (n + k) (m >>= f)
    bind-EndsIn {m = m} {f = f} {n = n} {k = k} h g = record {
      within = bind_Within m f n k (n + k) (ground arith) h.within (λ a. (g a).within);
    }

    pub attempt-EndsIn : {m : Program S A} {n : ℕ} → EndsIn n m → EndsIn n (attempt m)
    attempt-EndsIn {m = m} {n = n} h = record { within = attempt_Within m n h.within }

    pub or_error-EndsIn :
        {m : Program S A} {n : ℕ} (e : Error) → EndsIn n m → EndsIn n (or_error m e)
    or_error-EndsIn {m = m} {n = n} e h = record { within = or_error_Within m e n h.within }

    pub forget-EndsIn : {m : Program S A} {n : ℕ} → EndsIn n m → EndsIn n (forget m)
    forget-EndsIn {m = m} {n = n} h = record { within = forget_Within m n h.within }

    pub done-EndsIn : (n : ℕ) (r : Result A) → EndsIn {S = S} n (done r)
    unfolding Within
    done-EndsIn n r = record { within = tt }

    pub atom-EndsIn : (m : Action S A) → EndsIn 1 (atom m)
    unfolding Within
    atom-EndsIn m = record { within = λ w. tt }
