-- ===== src/Repository/Steps.antt =====
-- The steps of the table. The handlers and the workers run concurrently, and each of their
-- statements is one step, so a run of the whole service is a sequence of these.
pub mod Valid
use exchange_rate_quote_serv.Prelude.{
  ℕ, Text, Bool, true, false, ◌&&◌, List, [], any, Option, none, some, ◌≡◌, ◌⊎◌, inl, inr, refl,
  arith, Bool-cases, Option-cases, if◌then◌else◌,
}
use exchange_rate_quote_serv.Errors.{Error, Result, ok, err}
use exchange_rate_quote_serv.Repository.Table.{
  Time, Status, Quote, Table, Postgres, in_flight, has_pair, find, update_where, insert_row,
  new_row, start, succeed, fail, can_start, can_succeed, can_fail, has_id, selects, collides, char3,
  insert_update, update_running, update_success, update_failed,
}

pub data Step (pg : Postgres) (t : Table) : Table → Type 0 where
  inserted :
      (now : Time) (id base quote u b q : Text)
      → pg.uuid id ≡ some u
      → char3 base ≡ some b
      → char3 quote ≡ some q
      → find (λ r. in_flight r.status && has_pair b q r) t ≡ none
      → any (has_id u) t ≡ false
      → Step pg t (insert_row (new_row now u b q) t)
  started :
      (now : Time) (u : Text)
      → collides (selects u can_start) t ≡ false
      → Step pg t (update_where (selects u can_start) (start now) t)
  succeeded :
      (now : Time) (price u n : Text)
      → pg.numeric price ≡ some n
      → Step pg t (update_where (selects u can_succeed) (succeed now n) t)
  failed :
      (now : Time) (u msg : Text) → Step pg t (update_where (selects u can_fail) (fail now msg) t)

pub data Reach (pg : Postgres) (t : Table) : Table → Type 0 where
  here : Reach pg t t
  next : {s u : Table} → Reach pg t s → Step pg s u → Reach pg t u

pub reach_trans : {pg : Postgres} {s t u : Table} → Reach pg s t → Reach pg t u → Reach pg s u
reach_trans r here = r
reach_trans r (next q step) = next (reach_trans r q) step

module _ (pg : Postgres) (now : Time) where
  insert_effect :
      (base quote id : Text) (t : Table)
      → ((insert_update pg now base quote id t).1 ≡ t)
        ⊎ ((u : Text) × (b : Text) × (q : Text) × (pg.uuid id ≡ some u)
            × (char3 base ≡ some b)
            × (char3 quote ≡ some q)
            × (find (λ r. in_flight r.status && has_pair b q r) t ≡ none)
            × (any (has_id u) t ≡ false)
            × ((insert_update pg now base quote id t).1 ≡ insert_row (new_row now u b q) t))
  unfolding insert_update
  insert_effect base quote id t = ground arith

  running_effect :
      (id : Text) (t : Table)
      → ((update_running pg now id t).1 ≡ t)
        ⊎ ((u : Text) × (pg.uuid id ≡ some u)
            × (collides (selects u can_start) t ≡ false)
            × ((update_running pg now id t).1 ≡ update_where (selects u can_start) (start now) t))
  unfolding update_running
  running_effect id t = ground arith

  success_effect :
      (id price : Text) (t : Table)
      → ((update_success pg now id price t).1 ≡ t)
        ⊎ ((u : Text) × (n : Text) × (pg.uuid id ≡ some u)
            × (pg.numeric price ≡ some n)
            × ((update_success pg now id price t).1
                ≡ update_where (selects u can_succeed) (succeed now n) t))
  unfolding update_success
  success_effect id price t = ground arith

  failed_effect :
      (id msg : Text) (t : Table)
      → ((update_failed pg now id msg t).1 ≡ t)
        ⊎ ((u : Text) × (pg.uuid id ≡ some u)
            × ((update_failed pg now id msg t).1
                ≡ update_where (selects u can_fail) (fail now msg) t))
  unfolding update_failed
  failed_effect id msg t = ground arith

  -- Each statement is a step, or leaves the table alone.
  pub insert_update-Reach :
      (base quote id : Text) (t : Table) → Reach pg t (insert_update pg now base quote id t).1
  insert_update-Reach base quote id t = elim (insert_effect base quote id t) [
    | inl same ↦ rw same here
    | inr (u, b, q, cast, cb, cq, free, fresh, e) ↦
        rw e (next here (inserted now id base quote u b q cast cb cq free fresh))
  ]

  pub update_running-Reach : (id : Text) (t : Table) → Reach pg t (update_running pg now id t).1
  update_running-Reach id t = elim (running_effect id t) [
    | inl same ↦ rw same here
    | inr (u, cast, free, e) ↦ rw e (next here (started now u free))
  ]

  pub update_success-Reach :
      (id price : Text) (t : Table) → Reach pg t (update_success pg now id price t).1
  update_success-Reach id price t = elim (success_effect id price t) [
    | inl same ↦ rw same here
    | inr (u, n, cast, number, e) ↦ rw e (next here (succeeded now price u n number))
  ]

  pub update_failed-Reach :
      (id msg : Text) (t : Table) → Reach pg t (update_failed pg now id msg t).1
  update_failed-Reach id msg t = elim (failed_effect id msg t) [
    | inl same ↦ rw same here
    | inr (u, cast, e) ↦ rw e (next here (failed now u msg))
  ]
