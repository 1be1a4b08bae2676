-- ===== src/Threads/Keeps.antt =====
-- What every call of a thread keeps.
use exchange_rate_quote_serv.Prelude.{All, ◌≡◌, sym}
use mathlib.Core.Path.{subst}
use exchange_rate_quote_serv.Repository.Steps.{Reach, here}
use exchange_rate_quote_serv.World.{Env, World}
use exchange_rate_quote_serv.System.Tasks.{IsTask, AreTasks-Reach}
use exchange_rate_quote_serv.System.Schedule.{IsSound}
use exchange_rate_quote_serv.Threads.Writes.{Writes, nothing}

module _ {S F : Type 0} (env : Env S F) where
  -- The world after a call: the table has gone on by steps, the tasks have their rows, and what
  -- is written into Redis as a latest price is a price of the table.
  pub record KeepsSound (w w' : World S) : Type 0 where
    pub reach : Reach env.pg w.rows w'.rows
    pub tasks : All (IsTask env w'.rows) w'.tasks
    pub cache : Writes env w'.rows w.cache w'.cache

  -- A call that leaves the table and the queue alone.
  pub quiet_writes :
      {w w' : World S}
      → w'.rows ≡ w.rows
      → w'.tasks ≡ w.tasks
      → Writes env w'.rows w.cache w'.cache
      → IsSound env w
      → KeepsSound w w'
  quiet_writes {w = w} {w' = w'} rows tasks writes sound =
      let reach : Reach env.pg w.rows w'.rows = subst (Reach env.pg w.rows) (sym rows) here in
      record {
        reach = reach;
        tasks =
            subst (All (IsTask env w'.rows)) (sym tasks) (AreTasks-Reach env w.tasks reach sound.1);
        cache = writes;
      }

  -- A call that leaves the queue and Redis alone.
  pub idle_keeps :
      {w w' : World S}
      → Reach env.pg w.rows w'.rows
      → w'.tasks ≡ w.tasks
      → w'.cache ≡ w.cache
      → IsSound env w
      → KeepsSound w w'
  idle_keeps {w = w} {w' = w'} r tasks cache sound = record {
    reach = r;
    tasks = subst (All (IsTask env w'.rows)) (sym tasks) (AreTasks-Reach env w.tasks r sound.1);
    cache = nothing cache;
  }

  -- A call that leaves all three alone.
  pub quiet_keeps :
      {w w' : World S}
      → w'.rows ≡ w.rows
      → w'.tasks ≡ w.tasks
      → w'.cache ≡ w.cache
      → IsSound env w
      → KeepsSound w w'
  quiet_keeps rows tasks cache sound = quiet_writes rows tasks (nothing cache) sound
