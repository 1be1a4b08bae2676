-- ===== src/Repository/Updates.antt =====
-- MarkRunning, MarkSuccess and MarkFailed, row by row.
use exchange_rate_quote_serv.Prelude.{
  Text, text_eq, text_eq_iff, text_eq_refl, Bool, true, false, ◌&&◌, [], ◌∷◌, All, Option, none,
  some, if◌then◌else◌, ◌≡◌, ◌≢◌, inl, inr, refl, sym, arith, Bool-cases,
}
use mathlib.Core.Path.{subst}
use exchange_rate_quote_serv.Errors.{Error, Result, ok, err}
use exchange_rate_quote_serv.Repository.Table.{
  Time, Status, Quote, Table, Postgres, has_id, find, update_where, count_where, start, succeed,
  fail, can_start, can_succeed, can_fail, selects, collides, update_running, update_success,
  update_failed,
}
use exchange_rate_quote_serv.Repository.Invariant.{Apart, IsValid}
use exchange_rate_quote_serv.Repository.Methods.{
  up, not_found_error, not_startable_error, some_row, mark_running, mark_success, mark_failed,
}

no_match :
    (u : Text) (may : Status → Bool) (f : Quote → Quote) (t : Table)
    → All (λ s. has_id u s ≡ false) t
    → (count_where (selects u may) t ≡ 0) × (update_where (selects u may) f t ≡ t)
unfolding count_where update_where selects
no_match u may f [] h = (refl, refl)
no_match u may f (s ∷ t) (h, hs) = ground (arith, no_match u may f t hs)

-- The rows behind the one with the id have other ids.
pub others_differ :
    (u : Text) (r : Quote) (t : Table)
    → has_id u r ≡ true
    → All (Apart r) t
    → All (λ s. has_id u s ≡ false) t
unfolding has_id
others_differ u r [] h k = tt
others_differ u r (s ∷ t) h (k, ks) = (
  ground (arith, text_eq_iff r.id u, text_eq_iff s.id u, text_eq_iff s.id r.id),
  others_differ u r t h ks,
)

-- The row of an id, if its status is one that the statement asks for.
abbrev pub eligible : (Status → Bool) → Option Quote → Bool
eligible may none = false
eligible may (some r) = may r.status

-- An UPDATE of one id reaches the row of that id or none.
pub count_eligible :
    (u : Text) (may : Status → Bool) (t : Table)
    → IsValid t
    → count_where (selects u may) t ≡ (if eligible may (find (has_id u) t) then 1 else 0)
unfolding count_where find selects
count_eligible u may [] valid = refl
count_eligible u may (r ∷ t) (fit, apart, valid) = elim (Bool-cases (has_id u r)) [
  | inl hit ↦ ground (arith, no_match u may (λ s. s) t (others_differ u r t hit apart))
  | inr miss ↦ ground (arith, count_eligible u may t valid)
]

update_ineligible :
    (u : Text) (may : Status → Bool) (f : Quote → Quote) (t : Table)
    → IsValid t
    → eligible may (find (has_id u) t) ≡ false
    → update_where (selects u may) f t ≡ t
unfolding update_where find selects
update_ineligible u may f [] valid h = refl
update_ineligible u may f (r ∷ t) (fit, apart, valid) h = elim (Bool-cases (has_id u r)) [
  | inl hit ↦ ground (arith, no_match u may f t (others_differ u r t hit apart))
  | inr miss ↦ ground (arith, update_ineligible u may f t valid)
]

-- Afterwards: the row of the id is changed, every other row is as before.
find-update :
    (u v : Text) (may : Status → Bool) (f : Quote → Quote) (t : Table)
    → ((r : Quote) → (f r).id ≡ r.id)
    → (r : Quote) → find (has_id v) t ≡ some r
    → find (has_id v) (update_where (selects u may) f t)
      ≡ some (if text_eq v u && may r.status then f r else r)
unfolding update_where find selects has_id
find-update u v may f [] same r h = cc
find-update u v may f (s ∷ t) same r h = ground (
  arith,
  same s,
  find-update u v may f t same r,
  text_eq_iff s.id u,
  text_eq_iff s.id v,
  text_eq_iff v u,
)

-- A row of another id is found as before.
abbrev pub AreOthersKept : Text → Table → Table → Type 0
AreOthersKept u t t' =
    (v : Text) (r : Quote) → v ≢ u → find (has_id v) t ≡ some r → find (has_id v) t' ≡ some r

-- What a method has done that asks for a status by `may` and writes `f`: it has changed the one
-- row of the id and answers `nil`, or it has changed nothing and answers the error `e`.
pub data HasUpdated (u : Text) (may : Status → Bool) (f : Quote → Quote) (e : Error) (t : Table)
    (res : Result (Unit {0})) (t' : Table) : Type 0 where
  changed :
      (r : Quote)
      → find (has_id u) t ≡ some r
      → may r.status ≡ true
      → res ≡ ok tt
      → find (has_id u) t' ≡ some (f r)
      → AreOthersKept u t t'
      → HasUpdated u may f e t res t'
  unchanged :
      eligible may (find (has_id u) t) ≡ false
      → res ≡ err e
      → t' ≡ t
      → HasUpdated u may f e t res t'

eligible_inverse :
    (may : Status → Bool) (o : Option Quote)
    → eligible may o ≡ true
    → (r : Quote) × (o ≡ some r) × (may r.status ≡ true)
eligible_inverse may none h = cc
eligible_inverse may (some r) h = (r, refl, h)

module _ (u : Text) (may : Status → Bool) (f : Quote → Quote) (e : Error)
    (same : (r : Quote) → (f r).id ≡ r.id) where
  find-update_self :
      (t : Table) (r : Quote)
      → find (has_id u) t ≡ some r
      → may r.status ≡ true
      → find (has_id u) (update_where (selects u may) f t) ≡ some (f r)
  find-update_self t r h m = ground (arith, find-update u u may f t same r h, text_eq_refl u)

  find-update_other : (t : Table) → AreOthersKept u t (update_where (selects u may) f t)
  find-update_other t v r ne h = ground (arith, find-update u v may f t same r h, text_eq_iff v u)

  update-HasUpdated :
      (t : Table)
      → IsValid t
      → HasUpdated u may f e t
          (some_row e (ok (count_where (selects u may) t)))
          (update_where (selects u may) f t)
  update-HasUpdated t valid = elim (Bool-cases (eligible may (find (has_id u) t))) [
    | inl yes_row ↦
        let (r, found, m) = eligible_inverse may (find (has_id u) t) yes_row in
        changed r found m (rw (count_eligible u may t valid, yes_row))
          (find-update_self t r found m) (find-update_other t)
    | inr no_row ↦
        unchanged no_row (rw (count_eligible u may t valid, no_row))
          (update_ineligible u may f t valid no_row)
  ]

module _ (pg : Postgres) (now : Time) where
  -- The method's result and table, where neither the casts nor the index refuse the statement.
  abbrev Counted :
      Text → (Status → Bool) → (Quote → Quote) → Error → Table → Result (Unit {0}) × Table
  Counted u may f e t =
      (some_row e (ok (count_where (selects u may) t)), update_where (selects u may) f t)

  counted-HasUpdated :
      (u : Text) (may : Status → Bool) (f : Quote → Quote) (e : Error) (t : Table)
      (done : Result (Unit {0}) × Table)
      → ((r : Quote) → (f r).id ≡ r.id)
      → IsValid t
      → done ≡ Counted u may f e t
      → HasUpdated u may f e t done.0 done.1
  counted-HasUpdated u may f e t done same valid eq =
      subst (λ (p : Result (Unit {0}) × Table). HasUpdated u may f e t p.0 p.1) (sym eq)
        (update-HasUpdated u may f e same t valid)

  -- Over a valid table that is reachable, with an id that is a UUID and a price that is a number,
  -- `MarkSuccess` makes the RUNNING row of the id SUCCESS with the price and the time, keeps
  -- every other row and returns no error, or, if there is no such RUNNING row, changes nothing
  -- and returns that the quote is not found.
  pub mark_success-HasUpdated :
      (id price u n : Text) (t : Table)
      → pg.uuid id ≡ some u
      → pg.numeric price ≡ some n
      → IsValid t
      → let (res, t') = mark_success pg up now id price t in
        HasUpdated u can_succeed (succeed now n) (not_found_error id) t res t'
  unfolding mark_success update_success
  mark_success-HasUpdated id price u n t cast number valid =
      counted-HasUpdated u can_succeed (succeed now n) (not_found_error id) t
        (mark_success pg up now id price t) (λ r. refl) valid (ground arith)

  -- Over a valid table that is reachable, with an id that is a UUID, `MarkFailed` makes the
  -- PENDING or RUNNING row of the id FAILED with the message, the time and no price, keeps every
  -- other row and returns no error, or, if there is no such row, changes nothing and returns that
  -- the quote is not found.
  pub mark_failed-HasUpdated :
      (id msg u : Text) (t : Table)
      → pg.uuid id ≡ some u
      → IsValid t
      → let (res, t') = mark_failed pg up now id msg t in
        HasUpdated u can_fail (fail now msg) (not_found_error id) t res t'
  unfolding mark_failed update_failed
  mark_failed-HasUpdated id msg u t cast valid =
      counted-HasUpdated u can_fail (fail now msg) (not_found_error id) t
        (mark_failed pg up now id msg t) (λ r. refl) valid (ground arith)

  -- Over a valid table that is reachable, with an id that is a UUID and whose pair no other row
  -- has in flight, `MarkRunning` makes the PENDING or FAILED row of the id RUNNING with the time,
  -- keeps every other row and returns no error, or, if there is no such row, changes nothing and
  -- returns an error.
  pub mark_running-HasUpdated :
      (id u : Text) (t : Table)
      → pg.uuid id ≡ some u
      → collides (selects u can_start) t ≡ false
      → IsValid t
      → let (res, t') = mark_running pg up now id t in
        HasUpdated u can_start (start now) (not_startable_error id) t res t'
  unfolding mark_running update_running
  mark_running-HasUpdated id u t cast free valid =
      counted-HasUpdated u can_start (start now) (not_startable_error id) t
        (mark_running pg up now id t) (λ r. refl) valid (ground arith)
