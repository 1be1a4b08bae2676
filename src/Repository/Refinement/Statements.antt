-- ===== src/Repository/Refinement/Statements.antt =====
-- The statements of quote_repo.go, and the map that is seen of the table.
use exchange_rate_quote_serv.Prelude.{
  ℕ, Text, Bool, ◌&&◌, any, Option, none, some, if◌then◌else◌, ◌≡◌, inl, inr, refl, Bool-cases,
  Option-cases,
}
use exchange_rate_quote_serv.Errors.{Result, ok}
use exchange_rate_quote_serv.Repository.Table.{
  Time, Status, Quote, Table, Postgres, in_flight, has_pair, has_id, find, selects, char3, new_row,
  start, succeed, fail, can_start, can_succeed, can_fail, insert_update, update_success,
  update_failed, update_running, update_where, count_where, insert_row, duplicate_id, refused,
  collides,
}
use exchange_rate_quote_serv.Repository.Methods.{Link, up, lost, unacknowledged, run_statement}
use exchange_rate_quote_serv.Repository.Invariant.{IsValid}
use exchange_rate_quote_serv.Repository.Updates.{count_eligible}
use exchange_rate_quote_serv.Repository.View.{
  View, view, put, adjust, view-insert_row, view-update_where, any-none, find-some,
}
use exchange_rate_quote_serv.Repository.Spec.{
  seen, through, count_of, spec_success, spec_failed, spec_running, spec_insert,
}

module _ {A : Type 0} where
  pub seen-through :
      (link : Link) (done : Result A × Table) (t : Table)
      → seen (run_statement link done t) ≡ through link (seen done) (view t)
  seen-through up done t = refl
  seen-through (lost why) done t = refl
  seen-through (unacknowledged why) done t = refl

count-eq :
    (u : Text) (may : Status → Bool) (t : Table)
    → IsValid t
    → count_where (selects u may) t ≡ count_of may (view t u)
count-eq u may t valid = count_eligible u may t valid

updated_seen :
    (u : Text) (may : Status → Bool) (f : Quote → Quote) (t : Table)
    → ((r : Quote) → (f r).id ≡ r.id)
    → IsValid t
    → ◌≡◌ {A = Result ℕ × View}
        (ok (count_where (selects u may) t), view (update_where (selects u may) f t))
        (ok (count_of may (view t u)), adjust u may f (view t))
updated_seen u may f t same valid i =
    (ok (count-eq u may t valid i), view-update_where u may f t same i)

module _ (pg : Postgres) (now : Time) where
  pub success_seen :
      (id price : Text) (t : Table)
      → IsValid t
      → seen (update_success pg now id price t) ≡ spec_success pg now id price (view t)
  unfolding update_success
  success_seen id price t valid = elim (Option-cases (pg.uuid id)) [
    | inl bad ↦ rw (bad, update_success, spec_success) refl
    | inr (u, cast) ↦ elim (Option-cases (pg.numeric price)) [
      | inl bad ↦ rw (cast, bad, update_success, spec_success) refl
      | inr (n, read) ↦
          rw (cast, read, update_success, spec_success)
            ((updated_seen u can_succeed (succeed now n) t (λ r. refl) valid))
    ]
  ]

  pub failed_seen :
      (id msg : Text) (t : Table)
      → IsValid t
      → seen (update_failed pg now id msg t) ≡ spec_failed pg now id msg (view t)
  unfolding update_failed
  failed_seen id msg t valid = elim (Option-cases (pg.uuid id)) [
    | inl bad ↦ rw (bad, update_failed, spec_failed) refl
    | inr (u, cast) ↦
        rw (cast, update_failed, spec_failed)
          (updated_seen u can_fail (fail now msg) t (λ r. refl) valid)
  ]

  pub running_seen :
      (id : Text) (t : Table)
      → IsValid t
      → seen (update_running pg now id t)
        ≡ spec_running pg now (λ u. collides (selects u can_start) t) id (view t)
  unfolding update_running
  running_seen id t valid = elim (Option-cases (pg.uuid id)) [
    | inl bad ↦ rw (bad, update_running, spec_running) refl
    | inr (u, cast) ↦ elim (Bool-cases (collides (selects u can_start) t)) [
      | inl hit ↦ rw (cast, hit, update_running, spec_running) refl
      | inr free ↦
          rw (cast, free, update_running, spec_running)
            ((updated_seen u can_start (start now) t (λ r. refl) valid))
    ]
  ]

  insert_new :
      (u b q : Text) (t : Table)
      → seen (
          if any (has_id u) t
          then (refused pg duplicate_id, t)
          else (ok u, insert_row (new_row now u b q) t))
        ≡ elim (view t u) as (λ _. Result Text × View) [
          | some _ ↦ (refused pg duplicate_id, view t)
          | none ↦ (ok u, put u (new_row now u b q) (view t))
        ]
  insert_new u b q t = elim (Bool-cases (any (has_id u) t)) [
    | inl taken ↦ let (r, found) = find-some (has_id u) t taken in rw taken (rw found refl)
    | inr fresh ↦ rw fresh (
        rw (any-none (has_id u) t fresh)
          (λ i. (ok u, view-insert_row (new_row now u b q) t fresh i)))
  ]

  -- The row that the partial index finds.
  abbrev pub flying : Table → Text → Text → Option Quote
  flying t b q = find (λ r. in_flight r.status && has_pair b q r) t

  pub insert_seen :
      (base quote id : Text) (t : Table)
      → seen (insert_update pg now base quote id t)
        ≡ spec_insert pg now (flying t) base quote id (view t)
  unfolding insert_update
  insert_seen base quote id t = elim (Option-cases (pg.uuid id)) [
    | inl bad ↦ rw (bad, insert_update, spec_insert) refl
    | inr (u, cast) ↦ elim (Option-cases (char3 base)) [
      | inl bad ↦ rw (cast, bad, insert_update, spec_insert) refl
      | inr (b, cb) ↦ elim (Option-cases (char3 quote)) [
        | inl bad ↦ rw (cast, cb, bad, insert_update, spec_insert) refl
        | inr (q, cq) ↦ elim (Option-cases (flying t b q)) [
          | inr (r, found) ↦ rw (cast, cb, cq, found, insert_update, spec_insert) refl
          | inl free ↦ rw (cast, cb, cq, free, insert_update, spec_insert) (insert_new u b q t)
        ]
      ]
    ]
  ]
