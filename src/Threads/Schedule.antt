-- ===== src/Threads/Schedule.antt =====
-- Any number of requests, look-ups and tasks at once, in any interleaving of their calls.
use exchange_rate_quote_serv.Prelude.{
  ℕ, suc, zero, Text, List, [], ◌∷◌, All, All-append, Option, none, some, ◌≡◌, refl,
}
use exchange_rate_quote_serv.Prelude.Unicode.{IsCaseTable}
use exchange_rate_quote_serv.Errors.{Result, ok, err}
use exchange_rate_quote_serv.Repository.Table.{Quote, Table, has_id, find}
use exchange_rate_quote_serv.Repository.Steps.{Reach, here, reach_trans}
use exchange_rate_quote_serv.Repository.Steps.Valid.{Reach-IsValid}
use exchange_rate_quote_serv.Repository.History.{Keeps, Reach-Keeps}
use exchange_rate_quote_serv.World.{Env, World, UpdateQuotePayload, Task}
use exchange_rate_quote_serv.Service.Cache.{QuoteService}
use exchange_rate_quote_serv.Worker.{AsynqEnqueuer}
use exchange_rate_quote_serv.System.Schedule.{IsSound}
use exchange_rate_quote_serv.Threads.Program.{Program, done, call}
use exchange_rate_quote_serv.Threads.Operations.{RatesProgram}
use exchange_rate_quote_serv.Threads.Writes.{Writes, nothing}
use exchange_rate_quote_serv.Threads.Ensures.{
  Holds, IsSafe, Reach-IsSafe, done-IsSafe, forget-IsSafe,
}
use exchange_rate_quote_serv.Threads.Safe.{
  request_thread-IsSafe, result_thread-IsSafe, latest_thread-IsSafe, process_thread-IsSafe,
}
use exchange_rate_quote_serv.Threads.Pool.{
  Pool, Moment, posted, asked, looked, delivered, moved, evicted, move, payload_thread,
  handle_thread, delivery, start, run_moment, run_moments,
}

module _ {S F : Type 0} (env : Env S F) where
  abbrev pub AreSafe : Table → List (Program S (Unit {0})) → Type 0
  AreSafe t ps = All (IsSafe env t) ps

  Reach-AreSafe :
      (ps : List (Program S (Unit {0}))) {t t' : Table}
      → Reach env.pg t t'
      → AreSafe t ps
      → AreSafe t' ps
  Reach-AreSafe [] r h = tt
  Reach-AreSafe (p ∷ ps) r (h, hs) = (Reach-IsSafe env r h, Reach-AreSafe ps r hs)

  -- The world is sound, and each thread may go on from it.
  pub record IsPoolSound (pool : Pool S) : Type 0 where
    pub sound : IsSound env pool.world
    pub safe : AreSafe pool.world.rows pool.threads

  -- A moment after which the table has gone on by steps and the pool is sound.
  record GoesOn (w : World S) (pool : Pool S) : Type 0 where
    pub reach : Reach env.pg w.rows pool.world.rows
    pub after : IsPoolSound pool

  move-GoesOn :
      (n : ℕ) (ps : List (Program S (Unit {0}))) (w : World S)
      → IsSound env w
      → AreSafe w.rows ps
      → GoesOn w (move n ps w)
  unfolding move Holds
  move-GoesOn n [] w sound h = record { reach = here; after = record { sound = sound; safe = tt } }
  move-GoesOn zero (done r ∷ ps) w sound h = record {
    reach = here;
    after = record { sound = sound; safe = h };
  }
  move-GoesOn zero (call act next ∷ ps) w sound (h, hs) =
      let (keeps, rest) = h.holds w here sound in
      record {
        reach = keeps.reach;
        after = record {
          sound = (Reach-IsValid sound.0 keeps.reach, keeps.tasks);
          safe = (record { holds = rest }, Reach-AreSafe ps keeps.reach hs);
        };
      }
  move-GoesOn (suc n) (p ∷ ps) w sound (h, hs) =
      let rest = move-GoesOn n ps w sound hs in
      record {
        reach = rest.reach;
        after = record {
          sound = rest.after.sound;
          safe = (Reach-IsSafe env rest.reach h, rest.after.safe);
        };
      }

  move-Writes :
      (n : ℕ) (ps : List (Program S (Unit {0}))) (w : World S)
      → IsSound env w
      → AreSafe w.rows ps
      → let after = (move n ps w).world in Writes env after.rows w.cache after.cache
  unfolding move Holds
  move-Writes n [] w sound h = nothing refl
  move-Writes zero (done r ∷ ps) w sound h = nothing refl
  move-Writes zero (call act next ∷ ps) w sound (h, hs) = (h.holds w here sound).0.cache
  move-Writes (suc n) (p ∷ ps) w sound (h, hs) = move-Writes n ps w sound hs

  pub moved-Writes :
      (n : ℕ) (pool : Pool S)
      → IsPoolSound pool
      → let after = (move n pool.threads pool.world).world in
        Writes env after.rows pool.world.cache after.cache
  moved-Writes n pool h = move-Writes n pool.threads pool.world h.sound h.safe

  module _ (e : AsynqEnqueuer) (svc : QuoteService) (fetch : RatesProgram S)
      (quiet : (b q : Text) (t : Table) → IsSafe env t (fetch b q)) where
    payload-IsSafe :
        (r : Result UpdateQuotePayload) (t : Table) → IsSafe env t (payload_thread env svc fetch r)
    payload-IsSafe (err _) t = done-IsSafe env _
    payload-IsSafe (ok p) t = process_thread-IsSafe env svc fetch quiet p.update_id p.base p.quote t

    delivery-IsSafe : (o : Option Task) (t : Table) → AreSafe t (delivery env svc fetch o)
    unfolding handle_thread
    delivery-IsSafe none t = tt
    delivery-IsSafe (some task) t = (payload-IsSafe (env.unmarshal task.payload) t, tt)

    start-GoesOn :
        (ps : List (Program S (Unit {0}))) (pool : Pool S)
        → IsPoolSound pool
        → AreSafe pool.world.rows ps
        → GoesOn pool.world (start ps pool)
    start-GoesOn ps pool h new = record {
      reach = here;
      after = record { sound = h.sound; safe = All-append _ pool.threads ps h.safe new };
    }

    module _ (table : IsCaseTable env.upper) where
      run_moment-GoesOn :
          (x : Moment S) (pool : Pool S)
          → IsPoolSound pool
          → GoesOn pool.world (run_moment env svc fetch e x pool)
      unfolding run_moment
      run_moment-GoesOn (posted pair) pool h =
          start-GoesOn _ pool h (forget-IsSafe env (request_thread-IsSafe env e pair _ table), tt)
      run_moment-GoesOn (asked id) pool h =
          start-GoesOn _ pool h (forget-IsSafe env (result_thread-IsSafe env id _), tt)
      run_moment-GoesOn (looked b q) pool h =
          start-GoesOn _ pool h (forget-IsSafe env (latest_thread-IsSafe env svc b q _), tt)
      run_moment-GoesOn (delivered n) pool h = start-GoesOn _ pool h (delivery-IsSafe _ _)
      run_moment-GoesOn (moved n) pool h = move-GoesOn n pool.threads pool.world h.sound h.safe
      run_moment-GoesOn (evicted s) pool h = record {
        reach = here;
        after = record { sound = h.sound; safe = h.safe };
      }

      run_moments-GoesOn :
          (xs : List (Moment S)) (pool : Pool S)
          → IsPoolSound pool
          → GoesOn pool.world (run_moments env svc fetch e xs pool)
      unfolding run_moments
      run_moments-GoesOn [] pool h = record { reach = here; after = h }
      run_moments-GoesOn (x ∷ xs) pool h =
          let first = run_moment-GoesOn x pool h in
          let rest = run_moments-GoesOn xs (run_moment env svc fetch e x pool) first.after in
          record { reach = reach_trans first.reach rest.reach; after = rest.after }

      pub run_moments-IsPoolSound :
          (xs : List (Moment S)) (pool : Pool S)
          → IsPoolSound pool
          → IsPoolSound (run_moments env svc fetch e xs pool)
      run_moments-IsPoolSound xs pool h = (run_moments-GoesOn xs pool h).after

      pub run_moments-Keeps :
          (xs : List (Moment S)) (pool : Pool S) (u : Text) (r : Quote)
          → IsPoolSound pool
          → find (has_id u) pool.world.rows ≡ some r
          → (s : Quote) × (find (has_id u) (run_moments env svc fetch e xs pool).world.rows
              ≡ some s)
            × Keeps r s
      run_moments-Keeps xs pool u r h found =
          Reach-Keeps u r found (run_moments-GoesOn xs pool h).reach
