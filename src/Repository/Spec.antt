-- ===== src/Repository/Spec.antt =====
-- What the methods of `PostgresQuoteRepository` are to a map from ids to rows.
use exchange_rate_quote_serv.Prelude.{
  ℕ, Text, Bool, true, false, ◌&&◌, Option, none, some, if◌then◌else◌, ◌≡◌,
}
use exchange_rate_quote_serv.Errors.{Error, Result, ok, err}
use exchange_rate_quote_serv.Repository.Table.{
  Time, Status, Quote, Table, Postgres, in_flight, has_pair, char3, new_row, start, succeed, fail,
  can_start, can_succeed, can_fail, bad_uuid, bad_numeric, too_long, duplicate_id, duplicate_pair,
  refused, is_rival,
}
use exchange_rate_quote_serv.Repository.Methods.{
  Link, up, lost, unacknowledged, created, some_row, check_rows_affected, not_startable_error,
  run_query,
}
use exchange_rate_quote_serv.Repository.Updates.{eligible}
use exchange_rate_quote_serv.Repository.View.{View, view, put, adjust}

abbrev pub Spec : Type 0 → Type 0
Spec A = View → Result A × View

-- What is seen of a table: its map.
abbrev pub seen : {A : Type 0} → Result A × Table → Result A × View
seen p = (p.0, view p.1)

-- A link that loses the statement or the reply, over a map.
abbrev pub through : {A : Type 0} → Link → Result A × View → View → Result A × View
through up did m = did
through (lost why) did m = (err (Error.failure why), m)
through (unacknowledged why) did m = (err (Error.failure why), did.1)

abbrev pub count_of : (Status → Bool) → Option Quote → ℕ
count_of may o = if eligible may o then 1 else 0

module _ (pg : Postgres) (now : Time) where
  abbrev pub spec_success : Text → Text → Spec ℕ
  spec_success id price m = elim (pg.uuid id) [
    | none ↦ (refused pg bad_uuid, m)
    | some u ↦ elim (pg.numeric price) [
      | none ↦ (refused pg bad_numeric, m)
      | some n ↦ (ok (count_of can_succeed (m u)), adjust u can_succeed (succeed now n) m)
    ]
  ]

  abbrev pub spec_failed : Text → Text → Spec ℕ
  spec_failed id msg m = elim (pg.uuid id) [
    | none ↦ (refused pg bad_uuid, m)
    | some u ↦ (ok (count_of can_fail (m u)), adjust u can_fail (fail now msg) m)
  ]

  -- The index is asked by the test `clash` of the id.
  abbrev pub spec_running : (Text → Bool) → Text → Spec ℕ
  spec_running clash id m = elim (pg.uuid id) [
    | none ↦ (refused pg bad_uuid, m)
    | some u ↦
        if clash u
        then (refused pg duplicate_pair, m)
        else (ok (count_of can_start (m u)), adjust u can_start (start now) m)
  ]

  -- The row that the partial index finds for a pair is given by `flying`.
  abbrev pub spec_insert : (Text → Text → Option Quote) → Text → Text → Text → Spec Text
  spec_insert flying base quote id m = elim (pg.uuid id) [
    | none ↦ (refused pg bad_uuid, m)
    | some u ↦ elim (char3 base) [
      | none ↦ (refused pg too_long, m)
      | some b ↦ elim (char3 quote) [
        | none ↦ (refused pg too_long, m)
        | some q ↦ elim (flying b q) [
          | some r ↦ (ok r.id, m)
          | none ↦ elim (m u) [
            | some _ ↦ (refused pg duplicate_id, m)
            | none ↦ (ok u, put u (new_row now u b q) m)
          ]
        ]
      ]
    ]
  ]

  module _ (link : Link) where
    unfoldable pub spec_mark_success : Text → Text → Spec (Unit {0})
    spec_mark_success id price m =
        let (r, m') = through link (spec_success id price m) m in (check_rows_affected id r, m')

    unfoldable pub spec_mark_failed : Text → Text → Spec (Unit {0})
    spec_mark_failed id msg m =
        let (r, m') = through link (spec_failed id msg m) m in (check_rows_affected id r, m')

    unfoldable pub spec_mark_running : (Text → Bool) → Text → Spec (Unit {0})
    spec_mark_running clash id m =
        let (r, m') = through link (spec_running clash id m) m in
        (some_row (not_startable_error id) r, m')

    unfoldable pub spec_create_update :
        (Text → Text → Option Quote) → Text → Text → Text → Spec Text
    spec_create_update flying base quote id m =
        let (r, m') = through link (spec_insert flying base quote id m) m in (created r, m')

module _ (pg : Postgres) (link : Link) where
  abbrev pub spec_select : Text → View → Result (Option Quote)
  spec_select id m = elim (pg.uuid id) [ none ↦ refused pg bad_uuid | some u ↦ ok (m u) ]

  unfoldable pub spec_get_by_id : Text → View → Result (Option Quote)
  spec_get_by_id id m = run_query link (spec_select id m)

-- A row of the pair that is in flight, or that there is none.
abbrev pub IsFlying : Text → Text → View → Option Quote → Type 0
IsFlying b q m none =
    (v : Text) (r : Quote) → m v ≡ some r → (in_flight r.status && has_pair b q r) ≡ false
IsFlying b q m (some r) = (m r.id ≡ some r) × ((in_flight r.status && has_pair b q r) ≡ true)

-- Whether the row of an id may start and another row of its pair is in flight.
abbrev pub IsClash : Text → View → Bool → Type 0
IsClash u m true =
    (r : Quote) × (s : Quote) × (m u ≡ some r)
    × (can_start r.status ≡ true)
    × (m s.id ≡ some s)
    × (is_rival r s ≡ true)
IsClash u m false =
    (r s : Quote)
    → m u ≡ some r
    → can_start r.status ≡ true
    → m s.id ≡ some s
    → is_rival r s ≡ false
