-- ===== src/Threads/Progress.antt =====
-- A thread that is scheduled often enough, beside any others.
use exchange_rate_quote_serv.Prelude.{
  ℕ, suc, zero, List, [], ◌∷◌, ◌++◌, some, get_elem?, ◌+◌, ◌-◌, ◌≤◌, ◌≡◌, refl, arith,
}
use mathlib.Core.Path.{subst, sym}
use exchange_rate_quote_serv.Errors.{Result}
use exchange_rate_quote_serv.World.{Env, World}
use exchange_rate_quote_serv.Service.Cache.{QuoteService}
use exchange_rate_quote_serv.Worker.{AsynqEnqueuer}
use exchange_rate_quote_serv.Threads.Program.{Program, done, call}
use exchange_rate_quote_serv.Threads.Operations.{RatesProgram}
use exchange_rate_quote_serv.Threads.Ends.{Within, more_Within}
use exchange_rate_quote_serv.Threads.Pool.{
  Pool, Moment, posted, asked, looked, delivered, moved, evicted, move, run_moment, run_moments,
}

-- 1 for the same index, and 0 for another.
abbrev pub same_index : ℕ → ℕ → ℕ
same_index zero zero = 1
same_index zero (suc n) = 0
same_index (suc m) zero = 0
same_index (suc m) (suc n) = same_index m n

module _ {S : Type 0} where
  abbrev pub hits : ℕ → Moment S → ℕ
  hits i (moved n) = same_index n i
  hits i _ = 0

  -- How often the thread `i` is scheduled.
  unfoldable pub moves : ℕ → List (Moment S) → ℕ
  moves i [] = 0
  moves i (x ∷ xs) = hits i x + moves i xs

  -- The thread `i` of the pool makes `k` calls more at most.
  pub record HasLeft (i k : ℕ) (threads : List (Program S (Unit {0}))) : Type 0 where
    pub thread : Program S (Unit {0})
    pub at : get_elem? threads i ≡ some thread
    pub within : Within k thread

  next-HasLeft :
      (k : ℕ) (p : Program S (Unit {0})) (act : World S → World S)
      (next : World S → Program S (Unit {0})) (w : World S)
      → call act next ≡ p
      → Within k p
      → Within (k - 1) (next w)
  unfolding Within
  next-HasLeft zero p act next w same h = absurd (subst (Within 0) (sym same) h)
  next-HasLeft (suc k) p act next w same h =
      more_Within (next w) k (suc k - 1) (ground arith) (subst (Within (suc k)) (sym same) h w)

  kept : (k n : ℕ) (p : Program S (Unit {0})) → n ≡ k → Within k p → Within n p
  kept k n p same h = subst (λ j. Within j p) (sym same) h

  shift :
      {p : Program S (Unit {0})} {ps : List (Program S (Unit {0}))} {i k : ℕ}
      → HasLeft i k ps
      → HasLeft (suc i) k (p ∷ ps)
  shift h = record { thread = h.thread; at = h.at; within = h.within }

  unshift :
      {p : Program S (Unit {0})} {ps : List (Program S (Unit {0}))} {i k : ℕ}
      → HasLeft (suc i) k (p ∷ ps)
      → HasLeft i k ps
  unshift h = record { thread = h.thread; at = h.at; within = h.within }

  move-HasLeft :
      (n i k : ℕ) (ps : List (Program S (Unit {0}))) (w : World S)
      → HasLeft i k ps
      → HasLeft i (k - same_index n i) (move n ps w).threads
  unfolding move Within
  move-HasLeft n i k [] w h = absurd (let e = h.at in ground arith)
  move-HasLeft zero zero k (done r ∷ ps) w h = record { thread = done r; at = refl; within = tt }
  move-HasLeft zero zero k (call act next ∷ ps) w h = record {
    thread = next w;
    at = refl;
    within = let e = h.at in next-HasLeft k h.thread act next w (ground arith) h.within;
  }
  move-HasLeft zero (suc i) k (done r ∷ ps) w h = record {
    thread = h.thread;
    at = h.at;
    within = kept k (k - 0) h.thread (ground arith) h.within;
  }
  move-HasLeft zero (suc i) k (call act next ∷ ps) w h = record {
    thread = h.thread;
    at = h.at;
    within = kept k (k - 0) h.thread (ground arith) h.within;
  }
  move-HasLeft (suc n) zero k (p ∷ ps) w h = record {
    thread = h.thread;
    at = h.at;
    within = kept k (k - 0) h.thread (ground arith) h.within;
  }
  move-HasLeft (suc n) (suc i) k (p ∷ ps) w h = shift (move-HasLeft n i k ps w (unshift h))

  get_append :
      (ps qs : List (Program S (Unit {0}))) (i : ℕ) (p : Program S (Unit {0}))
      → get_elem? ps i ≡ some p
      → get_elem? (ps ++ qs) i ≡ some p
  get_append [] qs i p h = absurd (ground arith)
  get_append (x ∷ ps) qs zero p h = h
  get_append (x ∷ ps) qs (suc i) p h = get_append ps qs i p h

  started-HasLeft :
      (i k : ℕ) (ps qs : List (Program S (Unit {0})))
      → HasLeft i k ps
      → HasLeft i (k - 0) (ps ++ qs)
  started-HasLeft i k ps qs h = record {
    thread = h.thread;
    at = get_append ps qs i h.thread h.at;
    within = kept k (k - 0) h.thread (ground arith) h.within;
  }

module _ {S F : Type 0} (env : Env S F) (svc : QuoteService) (fetch : RatesProgram S)
    (e : AsynqEnqueuer) where
  run_moment-HasLeft :
      (x : Moment S) (pool : Pool S) (i k : ℕ)
      → HasLeft i k pool.threads
      → HasLeft i (k - hits i x) (run_moment env svc fetch e x pool).threads
  unfolding run_moment
  run_moment-HasLeft (posted pair) pool i k h = started-HasLeft i k pool.threads _ h
  run_moment-HasLeft (asked id) pool i k h = started-HasLeft i k pool.threads _ h
  run_moment-HasLeft (looked b q) pool i k h = started-HasLeft i k pool.threads _ h
  run_moment-HasLeft (delivered n) pool i k h = started-HasLeft i k pool.threads _ h
  run_moment-HasLeft (moved n) pool i k h = move-HasLeft n i k pool.threads pool.world h
  run_moment-HasLeft (evicted s) pool i k h = record {
    thread = h.thread;
    at = h.at;
    within = kept k (k - 0) h.thread (ground arith) h.within;
  }

  run_moments-HasLeft :
      (xs : List (Moment S)) (pool : Pool S) (i k : ℕ)
      → HasLeft i k pool.threads
      → HasLeft i (k - moves i xs) (run_moments env svc fetch e xs pool).threads
  unfolding run_moments moves
  run_moments-HasLeft [] pool i k h = record {
    thread = h.thread;
    at = h.at;
    within = kept k (k - 0) h.thread (ground arith) h.within;
  }
  run_moments-HasLeft (x ∷ xs) pool i k h =
      let rest =
        run_moments-HasLeft xs (run_moment env svc fetch e x pool) i (k - hits i x)
          (run_moment-HasLeft x pool i k h) in
      record {
        thread = rest.thread;
        at = rest.at;
        within =
            kept (k - hits i x - moves i xs) (k - (hits i x + moves i xs)) rest.thread
              (ground arith) rest.within;
      }

  ended : (p : Program S (Unit {0})) → Within 0 p → (r : Result (Unit {0})) × (p ≡ done r)
  unfolding Within
  ended (done r) h = (r, refl)
  ended (call act next) h = absurd h

  pub run_moments-done :
      (xs : List (Moment S)) (pool : Pool S) (i k : ℕ)
      → HasLeft i k pool.threads
      → k ≤ moves i xs
      → (r : Result (Unit {0})) × (get_elem? (run_moments env svc fetch e xs pool).threads i
          ≡ some (done r))
  run_moments-done xs pool i k h enough =
      let rest = run_moments-HasLeft xs pool i k h in
      let (r, same) =
        ended rest.thread (kept (k - moves i xs) 0 rest.thread (ground arith) rest.within) in
      (
        r,
        subst (λ p. get_elem? (run_moments env svc fetch e xs pool).threads i ≡ some p) same
            rest.at,
      )
