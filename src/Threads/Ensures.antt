-- ===== src/Threads/Ensures.antt =====
-- What a thread keeps with each of its calls, whatever other threads have done between them.
use exchange_rate_quote_serv.Prelude.{◌≡◌, refl}
use exchange_rate_quote_serv.Errors.{Error, Result, ok, err}
use exchange_rate_quote_serv.Repository.Table.{Table}
use exchange_rate_quote_serv.Repository.Steps.{Reach, reach_trans}
use exchange_rate_quote_serv.World.{Env, World, Action}
use exchange_rate_quote_serv.System.Schedule.{IsSound}
use exchange_rate_quote_serv.Threads.Keeps.{KeepsSound}
use exchange_rate_quote_serv.Threads.Program.{
  Program, done, call, lift, atom, attempt, or_error, forget, ◌>>=◌,
}

-- A claim on what is returned, where it is no error.
abbrev pub On : {A : Type 0} → Result A → (A → Type 0) → Type 0
On (ok a) P = P a
On (err e) P = Unit

pub On_values : {A : Type 0} (P : A → Type 0) (r : Result A) → ((a : A) → r ≡ ok a → P a) → On r P
On_values P (ok a) h = h a refl
On_values P (err e) h = tt

module _ {S F : Type 0} (env : Env S F) where
  -- Let the table have been `t` when the thread was left. Whatever the other threads have made
  -- of a sound world since then, each further call keeps it, and a result satisfies `Q` when it
  -- is returned.
  unfoldable pub Holds : {A : Type 0} → Program S A → Table → (Table → A → Type 0) → Type 0
  Holds (done (ok a)) t Q = Q t a
  Holds (done (err e)) t Q = Unit
  Holds (call act next) t Q =
      (w : World S)
      → Reach env.pg t w.rows
      → IsSound env w
      → KeepsSound env w (act w) × Holds (next w) (act w).rows Q

  pub record Ensures {A : Type 0} (t : Table) (m : Program S A) (Q : Table → A → Type 0)
      : Type 0 where
    pub holds : Holds m t Q

  -- A thread that may be left at the table `t`, with no claim on its result.
  pub record IsSafe {A : Type 0} (t : Table) (m : Program S A) : Type 0 where
    pub holds : Holds m t (λ _ _. Unit)

  later_Holds :
      {A : Type 0} (m : Program S A) {t t' : Table}
      → Reach env.pg t t'
      → Holds m t (λ _ _. Unit)
      → Holds m t' (λ _ _. Unit)
  unfolding Holds
  later_Holds (done (ok a)) r h = tt
  later_Holds (done (err e)) r h = tt
  later_Holds (call act next) r h = λ w reach sound. h w (reach_trans r reach) sound

  bind_Holds :
      {A B : Type 0} (m : Program S A) (f : A → Program S B) (t : Table) (Q : Table → A → Type 0)
      (R : Table → B → Type 0)
      → Holds m t Q
      → ((t' : Table) (a : A) → Q t' a → Holds (f a) t' R)
      → Holds (m >>= f) t R
  unfolding Holds ◌>>=◌
  bind_Holds (done (ok a)) f t Q R h k = k t a h
  bind_Holds (done (err e)) f t Q R h k = tt
  bind_Holds (call act next) f t Q R h k = λ w reach sound.
      let (keeps, rest) = h w reach sound in (keeps, bind_Holds (next w) f (act w).rows Q R rest k)

  attempt_Holds :
      {A : Type 0} (m : Program S A) (t : Table) (Q : Table → A → Type 0)
      → Holds m t Q
      → Holds (attempt m) t (λ _ _. Unit)
  unfolding Holds attempt
  attempt_Holds (done r) t Q h = tt
  attempt_Holds (call act next) t Q h = λ w reach sound.
      let (keeps, rest) = h w reach sound in (keeps, attempt_Holds (next w) (act w).rows Q rest)

  or_error_Holds :
      {A : Type 0} (m : Program S A) (e : Error) (t : Table) (Q : Table → A → Type 0)
      → Holds m t Q
      → Holds (or_error m e) t Q
  unfolding Holds or_error
  or_error_Holds (done (ok a)) e t Q h = h
  or_error_Holds (done (err x)) e t Q h = tt
  or_error_Holds (call act next) e t Q h = λ w reach sound.
      let (keeps, rest) = h w reach sound in (keeps, or_error_Holds (next w) e (act w).rows Q rest)

  forget_Holds :
      {A : Type 0} (m : Program S A) (t : Table) (Q : Table → A → Type 0)
      → Holds m t Q
      → Holds (forget m) t (λ _ _. Unit)
  unfolding Holds forget
  forget_Holds (done r) t Q h = tt
  forget_Holds (call act next) t Q h = λ w reach sound.
      let (keeps, rest) = h w reach sound in (keeps, forget_Holds (next w) (act w).rows Q rest)

  module _ {A : Type 0} where
    pub Reach-IsSafe :
        {m : Program S A} {t t' : Table} → Reach env.pg t t' → IsSafe t m → IsSafe t' m
    Reach-IsSafe {m = m} r h = record { holds = later_Holds m r h.holds }

    pub attempt-Ensures :
        {m : Program S A} {t : Table} → IsSafe t m → Ensures t (attempt m) (λ _ _. Unit)
    attempt-Ensures {m = m} {t = t} h = record { holds = attempt_Holds m t _ h.holds }

    pub or_error-Ensures :
        {m : Program S A} {t : Table} {Q : Table → A → Type 0} (e : Error)
        → Ensures t m Q
        → Ensures t (or_error m e) Q
    or_error-Ensures {m = m} {t = t} e h = record { holds = or_error_Holds m e t _ h.holds }

    pub forget-IsSafe : {m : Program S A} {t : Table} → IsSafe t m → IsSafe t (forget m)
    forget-IsSafe {m = m} {t = t} h = record { holds = forget_Holds m t _ h.holds }

    pub done-IsSafe : {t : Table} (r : Result A) → IsSafe t (done r)
    unfolding Holds
    done-IsSafe (ok a) = record { holds = tt }
    done-IsSafe (err e) = record { holds = tt }

    pub lift-Ensures : {t : Table} (r : Result A) → Ensures t (lift {S = S} r) (λ _ a. r ≡ ok a)
    unfolding Holds
    lift-Ensures (ok a) = record { holds = refl }
    lift-Ensures (err e) = record { holds = tt }

    pub bind-IsSafe :
        {B : Type 0} {m : Program S A} {f : A → Program S B} {t : Table} {Q : Table → A → Type 0}
        → Ensures t m Q
        → ((t' : Table) (a : A) → Q t' a → IsSafe t' (f a))
        → IsSafe t (m >>= f)
    bind-IsSafe {m = m} {f = f} {t = t} h k = record {
      holds = bind_Holds m f t _ _ h.holds (λ t' a q. (k t' a q).holds);
    }

    done_Holds :
        (Q : Table → A → Type 0) (t : Table) (r : Result A) → On r (Q t) → Holds (done r) t Q
    unfolding Holds
    done_Holds Q t (ok a) h = h
    done_Holds Q t (err e) h = tt

    pub atom-Ensures :
        (m : Action S A) (t : Table) (Q : Table → A → Type 0)
        → ((w : World S)
            → Reach env.pg t w.rows
            → IsSound env w
            → KeepsSound env w (m w).1 × On (m w).0 (Q (m w).1.rows))
        → Ensures t (atom m) Q
    unfolding Holds
    atom-Ensures m t Q h = record {
      holds = λ w reach sound.
          let (keeps, rest) = h w reach sound in (keeps, done_Holds Q (m w).1.rows (m w).0 rest);
    }

    anything_On : (r : Result A) → On r (λ _. Unit)
    anything_On (ok a) = tt
    anything_On (err e) = tt

    -- A call with no claim on its result.
    pub atom-IsSafe :
        (m : Action S A) (t : Table)
        → ((w : World S) → Reach env.pg t w.rows → IsSound env w → KeepsSound env w (m w).1)
        → IsSafe t (atom m)
    atom-IsSafe m t h = record {
      holds =
          (atom-Ensures m t (λ _ _. Unit)
            (λ w reach sound. (h w reach sound, anything_On (m w).0))).holds;
    }

    pub IsSafe-Ensures : {m : Program S A} {t : Table} → IsSafe t m → Ensures t m (λ _ _. Unit)
    IsSafe-Ensures h = record { holds = h.holds }
