-- ===== src/Threads/Idle.antt =====
-- Threads that never touch the table or the queue.
use exchange_rate_quote_serv.Prelude.{◌≡◌}
use exchange_rate_quote_serv.Errors.{Result, ok, err}
use exchange_rate_quote_serv.World.{World, Action}
use exchange_rate_quote_serv.Threads.Program.{Program, done, call, atom, attempt, ◌>>=◌}

-- Each call leaves the table and the queue as it finds them, whatever they are at that time.
unfoldable pub Leaves : {S A : Type 0} → Program S A → Type 0
Leaves (done r) = Unit
Leaves {S = S} (call act next) =
    (w : World S) → ((act w).rows ≡ w.rows) × ((act w).tasks ≡ w.tasks) × Leaves (next w)

pub record IsIdle {S A : Type 0} (m : Program S A) : Type 0 where
  pub leaves : Leaves m

module _ {S : Type 0} where
  bind-Leaves :
      {A B : Type 0} (m : Program S A) (f : A → Program S B)
      → Leaves m
      → ((a : A) → Leaves (f a))
      → Leaves (m >>= f)
  unfolding Leaves ◌>>=◌
  bind-Leaves (done (ok a)) f h k = k a
  bind-Leaves (done (err e)) f h k = tt
  bind-Leaves (call act next) f h k =
      λ w. let (rows, tasks, rest) = h w in (rows, tasks, bind-Leaves (next w) f rest k)

  attempt-Leaves : {A : Type 0} (m : Program S A) → Leaves m → Leaves (attempt m)
  unfolding Leaves attempt
  attempt-Leaves (done r) h = tt
  attempt-Leaves (call act next) h =
      λ w. let (rows, tasks, rest) = h w in (rows, tasks, attempt-Leaves (next w) rest)

  module _ {A : Type 0} where
    pub bind-IsIdle :
        {B : Type 0} {m : Program S A} {f : A → Program S B}
        → IsIdle m
        → ((a : A) → IsIdle (f a))
        → IsIdle (m >>= f)
    bind-IsIdle {m = m} {f = f} h k = record {
      leaves = bind-Leaves m f h.leaves (λ a. (k a).leaves);
    }

    pub attempt-IsIdle : {m : Program S A} → IsIdle m → IsIdle (attempt m)
    attempt-IsIdle {m = m} h = record { leaves = attempt-Leaves m h.leaves }

    pub done-IsIdle : (r : Result A) → IsIdle {S = S} (done r)
    unfolding Leaves
    done-IsIdle r = record { leaves = tt }

    pub atom-IsIdle :
        (m : Action S A)
        → ((w : World S) → ((m w).1.rows ≡ w.rows) × ((m w).1.tasks ≡ w.tasks))
        → IsIdle (atom m)
    unfolding Leaves
    atom-IsIdle m h = record { leaves = λ w. ((h w).0, (h w).1, tt) }
