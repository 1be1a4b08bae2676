-- ===== src/Repository/Calls.antt =====
-- Any number of clients of the repository at once: their calls reach the database in some order,
-- each with its own link and time.
use exchange_rate_quote_serv.Prelude.{Text, List, [], ◌∷◌, some, ◌≡◌}
use exchange_rate_quote_serv.Errors.{Result}
use exchange_rate_quote_serv.Repository.Table.{
  Time, Quote, Table, Postgres, find, has_id, insert_update, update_running, update_success,
  update_failed,
}
use exchange_rate_quote_serv.Repository.Methods.{
  Link, up, lost, unacknowledged, run_statement, create_update, mark_running, mark_success,
  mark_failed,
}
use exchange_rate_quote_serv.Repository.Invariant.{IsValid}
use exchange_rate_quote_serv.Repository.Steps.{
  Reach, here, reach_trans, insert_update-Reach, update_running-Reach, update_success-Reach,
  update_failed-Reach,
}
use exchange_rate_quote_serv.Repository.Steps.Valid.{Reach-IsValid}
use exchange_rate_quote_serv.Repository.History.{Keeps, Reach-Keeps}

-- A call of a method of `QuoteRepository` that writes.
pub data Call : Type 0 where
  create : Link → Time → (base quote id : Text) → Call
  running : Link → Time → (id : Text) → Call
  success : Link → Time → (id price : Text) → Call
  failure : Link → Time → (id msg : Text) → Call

module _ (pg : Postgres) where
  unfoldable pub run_call : Call → Table → Table
  run_call (create link now base quote id) t = (create_update pg link now base quote id t).1
  run_call (running link now id) t = (mark_running pg link now id t).1
  run_call (success link now id price) t = (mark_success pg link now id price t).1
  run_call (failure link now id msg) t = (mark_failed pg link now id msg t).1

  unfoldable pub run_calls : List Call → Table → Table
  run_calls [] t = t
  run_calls (c ∷ cs) t = run_calls cs (run_call c t)

  run_statement-Reach :
      {A : Type 0} (link : Link) (done : Result A × Table) (t : Table)
      → Reach pg t done.1
      → Reach pg t (run_statement link done t).1
  run_statement-Reach up done t r = r
  run_statement-Reach (lost why) done t r = here
  run_statement-Reach (unacknowledged why) done t r = r

  pub create_update-Reach :
      (link : Link) (now : Time) (base quote id : Text) (t : Table)
      → Reach pg t (create_update pg link now base quote id t).1
  unfolding create_update
  create_update-Reach link now base quote id t =
      run_statement-Reach link (insert_update pg now base quote id t) t
        (insert_update-Reach pg now base quote id t)

  pub mark_running-Reach :
      (link : Link) (now : Time) (id : Text) (t : Table)
      → Reach pg t (mark_running pg link now id t).1
  unfolding mark_running
  mark_running-Reach link now id t =
      run_statement-Reach link (update_running pg now id t) t (update_running-Reach pg now id t)

  pub mark_success-Reach :
      (link : Link) (now : Time) (id price : Text) (t : Table)
      → Reach pg t (mark_success pg link now id price t).1
  unfolding mark_success
  mark_success-Reach link now id price t =
      run_statement-Reach link (update_success pg now id price t) t
        (update_success-Reach pg now id price t)

  pub mark_failed-Reach :
      (link : Link) (now : Time) (id msg : Text) (t : Table)
      → Reach pg t (mark_failed pg link now id msg t).1
  unfolding mark_failed
  mark_failed-Reach link now id msg t =
      run_statement-Reach link (update_failed pg now id msg t) t
        (update_failed-Reach pg now id msg t)

  run_call-Reach : (c : Call) (t : Table) → Reach pg t (run_call c t)
  unfolding run_call
  run_call-Reach (create link now base quote id) t = create_update-Reach link now base quote id t
  run_call-Reach (running link now id) t = mark_running-Reach link now id t
  run_call-Reach (success link now id price) t = mark_success-Reach link now id price t
  run_call-Reach (failure link now id msg) t = mark_failed-Reach link now id msg t

  pub run_calls-Reach : (cs : List Call) (t : Table) → Reach pg t (run_calls cs t)
  unfolding run_calls
  run_calls-Reach [] t = here
  run_calls-Reach (c ∷ cs) t = reach_trans (run_call-Reach c t) (run_calls-Reach cs (run_call c t))

  -- Whatever calls of `CreateUpdate`, `MarkRunning`, `MarkSuccess` and `MarkFailed` reach an
  -- empty table, in any order and with any failure of the link, the table is valid: the ids
  -- differ, no two rows of a pair are PENDING or RUNNING, a SUCCESS row has a price and a time, a
  -- FAILED row has an error and no price, and no other row has a price.
  pub run_calls-IsValid : (cs : List Call) → IsValid (run_calls cs [])
  run_calls-IsValid cs = Reach-IsValid tt (run_calls-Reach cs [])

  -- Over any calls of the methods that write, a row is never lost, keeps its id, pair and time of
  -- request, and is not changed at all once it is SUCCESS.
  pub run_calls-Keeps :
      (cs : List Call) (t : Table) (u : Text) (r : Quote)
      → find (has_id u) t ≡ some r
      → (s : Quote) × (find (has_id u) (run_calls cs t) ≡ some s) × Keeps r s
  run_calls-Keeps cs t u r h = Reach-Keeps u r h (run_calls-Reach cs t)
