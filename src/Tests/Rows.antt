-- ===== src/Tests/Rows.antt =====
-- The table of quotes: a short history, and the laws on it.
use exchange_rate_quote_serv.Prelude.{codes, text_eq, List, [], ◌∷◌, Option, none, some, ◌≡◌, refl}
use exchange_rate_quote_serv.Prelude.Unicode.{trim_right}
use exchange_rate_quote_serv.Errors.{ok}
use exchange_rate_quote_serv.Repository.Table.{
  Status, Quote, has_id, has_pair, find, char3, pad3, update_where, count_where, insert_row,
  selects, is_rival, collides, insert_update, update_running, update_success, update_failed,
}
use exchange_rate_quote_serv.Repository.Methods.{
  up, lost, unacknowledged, create_update, mark_running, mark_success, mark_failed,
  get_latest_success,
}
use exchange_rate_quote_serv.Repository.Invariant.{IsValid}
use exchange_rate_quote_serv.Repository.Calls.{
  Call, create, running, success, failure, run_call, run_calls, run_calls-IsValid,
}
use exchange_rate_quote_serv.Repository.Dedup.{create_update_dedup}
use exchange_rate_quote_serv.Repository.Newest.{LatestRow, get_latest_success-LatestRow}
use exchange_rate_quote_serv.Repository.Refinement.{Refines, methods-Refines}
use exchange_rate_quote_serv.Tests.Fixtures.{pg}

sql : Unit {0}
unfolding run_calls run_call create_update mark_running mark_success mark_failed insert_update
    update_running update_success update_failed find has_id has_pair char3 pad3 update_where
    count_where insert_row selects is_rival collides text_eq trim_right
sql = tt

abbrev history : List Call
history =
    create up 1 (codes "EUR") (codes "MXN") (codes "s")
    ∷ running up 2 (codes "s")
    ∷ success up 3 (codes "s") (codes "19.5")
    ∷ create (unacknowledged (codes "timeout")) 4 (codes "EUR") (codes "USD") (codes "r")
    ∷ running up 5 (codes "r")
    ∷ create up 6 (codes "USD") (codes "MXN") (codes "p")
    ∷ []

abbrev priced : Quote
priced = record {
  id = codes "s";
  base = codes "EUR";
  quote = codes "MXN";
  price = some (codes "19.5");
  status = Status.success;
  error_msg = none;
  requested_at = 1;
  updated_at = some 3;
}

run_calls-IsValid_example : IsValid (run_calls pg history [])
run_calls-IsValid_example = run_calls-IsValid pg history

-- A late failure of the finished update.
abbrev late : List Call
late = failure up 9 (codes "s") (codes "late") ∷ running (lost (codes "down")) 9 (codes "p") ∷ []

abbrev waiting : Quote
waiting = record {
  id = codes "a";
  base = codes "EUR";
  quote = codes "MXN";
  price = none;
  status = Status.running;
  error_msg = none;
  requested_at = 10;
  updated_at = some 11;
}

create_update_dedup_example :
    create_update pg up 12 (codes "EUR") (codes "MXN") (codes "b") (
      run_calls pg
        (running up 11 (codes "a") ∷ [])
        (create_update pg up 10
          (codes "EUR")
          (codes "MXN")
          (codes "a")
          (run_calls pg history [])).1)
    ≡ (
      ok (codes "a"),
      run_calls pg
          (running up 11 (codes "a") ∷ [])
          (create_update pg up 10
            (codes "EUR")
            (codes "MXN")
            (codes "a")
            (run_calls pg history [])).1,
    )
unfolding sql
create_update_dedup_example =
    create_update_dedup pg up 10 12 (codes "EUR") (codes "MXN") (codes "a") (codes "b") (codes "b")
      (codes "a") (run_calls pg history [])
      (create_update pg up 10 (codes "EUR") (codes "MXN") (codes "a") (run_calls pg history [])).1
      (running up 11 (codes "a") ∷ []) refl refl refl (run_calls-IsValid pg history) refl waiting
      refl refl

get_latest_success-LatestRow_example :
    (o : Option Quote) × (get_latest_success pg up
        (codes "EUR")
        (codes "MXN")
        (run_calls pg history [])
      ≡ ok o)
    × LatestRow (codes "EUR") (codes "MXN") (run_calls pg history []) o
unfolding sql
get_latest_success-LatestRow_example =
    get_latest_success-LatestRow (codes "EUR") (codes "MXN") refl refl pg (run_calls pg history [])
      (run_calls-IsValid pg history)

methods-Refines_example : Refines pg up 9 (run_calls pg history [])
methods-Refines_example =
    methods-Refines pg up 9 (run_calls pg history []) (run_calls-IsValid pg history)
