-- ===== src/Repository/Table.antt =====
-- The rows of the table `quotes`, and the SQL statements of quote_repo.go.
mod Rows
unfoldable pub use Rows.*
use exchange_rate_quote_serv.Prelude.{
  ℕ, ◌+◌, ◌-◌, suc, zero, Text, text_eq, Bool, true, false, not, ◌&&◌, List, [], ◌∷◌, ◌++◌, ◌==◌,
  leb, ltb, any, length, Option, none, some, if◌then◌else◌,
}
use exchange_rate_quote_serv.Prelude.Unicode.{trim_right}
use exchange_rate_quote_serv.Errors.{Error, Result, ok, err}

-- A statement leaves the table alone when it is refused.
abbrev pub Statement : Type 0 → Type 0
Statement A = Table → Result A × Table

module _ (pg : Postgres) where
  abbrev pub refused {ℓ} : {A : Type ℓ} → Refusal → Result A
  refused r = err (Error.failure (pg.message r))

  -- INSERT … ON CONFLICT (base, quote) WHERE status IN (…) DO UPDATE … RETURNING id. The primary
  -- key is not the arbiter of the conflict, so a second row of one id is an error.
  unfoldable pub insert_update : Time → Text → Text → Text → Statement Text
  insert_update now base quote id t = elim (pg.uuid id) [
    | none ↦ (refused bad_uuid, t)
    | some u ↦ elim (char3 base) [
      | none ↦ (refused too_long, t)
      | some b ↦ elim (char3 quote) [
        | none ↦ (refused too_long, t)
        | some q ↦ elim (find (λ r. in_flight r.status && has_pair b q r) t) [
          | some r ↦ (ok r.id, t)
          | none ↦
              if any (has_id u) t
              then (refused duplicate_id, t)
              else (ok u, insert_row (new_row now u b q) t)
        ]
      ]
    ]
  ]

  -- UPDATE … SET status = 'RUNNING' …: the number of rows.
  unfoldable pub update_running : Time → Text → Statement ℕ
  update_running now id t = elim (pg.uuid id) [
    | none ↦ (refused bad_uuid, t)
    | some u ↦
        let hit = selects u can_start in
        if collides hit t
        then (refused duplicate_pair, t)
        else (ok (count_where hit t), update_where hit (start now) t)
  ]

  unfoldable pub update_success : Time → Text → Text → Statement ℕ
  update_success now id price t = elim (pg.uuid id) [
    | none ↦ (refused bad_uuid, t)
    | some u ↦ elim (pg.numeric price) [
      | none ↦ (refused bad_numeric, t)
      | some n ↦
          let hit = selects u can_succeed in
          (ok (count_where hit t), update_where hit (succeed now n) t)
    ]
  ]

  unfoldable pub update_failed : Time → Text → Text → Statement ℕ
  update_failed now id msg t = elim (pg.uuid id) [
    | none ↦ (refused bad_uuid, t)
    | some u ↦
        let hit = selects u can_fail in (ok (count_where hit t), update_where hit (fail now msg) t)
  ]

  unfoldable pub select_by_id : Text → Table → Result (Option Quote)
  select_by_id id t = elim (pg.uuid id) [
    | none ↦ refused bad_uuid
    | some u ↦ ok (find (has_id u) t)
  ]

-- `r` stands before `s` under ORDER BY updated_at DESC, where NULL comes first.
abbrev pub is_newer : Option Time → Option Time → Bool
is_newer none (some _) = true
is_newer (some a) (some b) = ltb b a
is_newer _ none = false

abbrev pub newest : Quote → Option Quote → Quote
newest r none = r
newest r (some s) = if is_newer s.updated_at r.updated_at then s else r

unfoldable pub latest_where : (Quote → Bool) → Table → Option Quote
latest_where p [] = none
latest_where p (r ∷ t) = let rest = latest_where p t in if p r then some (newest r rest) else rest

abbrev pub is_success : Status → Bool
is_success Status.success = true
is_success _ = false

-- Of rows with one `updated_at` PostgreSQL may choose any; here it is the first inserted.
unfoldable pub select_latest : Text → Text → Table → Result (Option Quote)
select_latest base quote t =
    ok (latest_where (λ r. has_pair (pad3 base) (pad3 quote) r && is_success r.status) t)
