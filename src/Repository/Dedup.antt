-- ===== src/Repository/Dedup.antt =====
-- CreateUpdate and the row of a pair that is in flight.
use exchange_rate_quote_serv.Prelude.{
  Text, text_eq_iff, text_eq_refl, Bool, true, false, List, [], ◌∷◌, any, All, some, ◌≡◌, ◌⊎◌, inl,
  inr, sym, ap, ◌∙◌, arith,
}
use exchange_rate_quote_serv.Errors.{Result, ok, err}
use exchange_rate_quote_serv.Repository.Table.{
  Time, Quote, Table, Postgres, in_flight, has_id, has_pair, find, char3, insert_row, new_row,
  insert_update,
}
use exchange_rate_quote_serv.Repository.Found.{find-All, find-id, find-open, is_open}
use exchange_rate_quote_serv.Repository.Invariant.{IsValid}
use exchange_rate_quote_serv.Repository.Methods.{
  Link, up, lost, unacknowledged, created, create_update,
}
use exchange_rate_quote_serv.Repository.History.{Keeps}
use exchange_rate_quote_serv.Repository.Steps.Valid.{Reach-IsValid}
use exchange_rate_quote_serv.Repository.Calls.{
  Call, run_calls, run_calls-Reach, run_calls-Keeps, create_update-Reach,
}
use mathlib.Core.Path.{subst}

find-insert_new :
    (p : Quote → Bool) (q : Quote) (t : Table)
    → any p t ≡ false
    → p q ≡ true
    → find p (insert_row q t) ≡ some q
unfolding find insert_row
find-insert_new p q [] h k = ground arith
find-insert_new p q (r ∷ t) h k = ground (arith, find-insert_new p q t)

All-Unit : (t : Table) → All (λ _. Unit {0}) t
All-Unit [] = tt
All-Unit (r ∷ t) = (tt, All-Unit t)

new-has_id : (now : Time) (x b q : Text) → has_id x (new_row now x b q) ≡ true
unfolding has_id
new-has_id now x b q = text_eq_refl x

new-is_open : (now : Time) (x b q : Text) → is_open b q (new_row now x b q) ≡ true
unfolding has_pair
new-is_open now x b q = rw (text_eq_refl b, text_eq_refl q)

-- The id that CreateUpdate returns is that of a row in flight of the pair.
abbrev pub IsHeld : Text → Text → Text → Table → Type 0
IsHeld x b q t = (r : Quote) × (find (has_id x) t ≡ some r) × (is_open b q r ≡ true)

pub created_inverse :
    (done : Result Text × Table) (x : Text) (t' : Table)
    → ◌≡◌ {A = Result Text × Table} (created done.0, done.1) (ok x, t')
    → done ≡ (ok x, t')
created_inverse (ok y, t) x t' h = h
created_inverse (err e, t) x t' h = cc

has_id-eq : (x : Text) (r : Quote) → has_id x r ≡ true → r.id ≡ x
unfolding has_id
has_id-eq x r h = (text_eq_iff r.id x).0 h

-- A row that keeps its pair and is in flight again is open.
still_open :
    (b q : Text) (s s' r : Quote)
    → Keeps s s'
    → is_open b q s ≡ true
    → in_flight r.status ≡ true
    → some s' ≡ some r
    → is_open b q r ≡ true
unfolding has_pair
still_open b q s s' r keeps held flying same = ground (
  arith,
  keeps.base,
  keeps.quote,
  text_eq_iff s.base b,
  text_eq_iff s.quote q,
  text_eq_iff r.base b,
  text_eq_iff r.quote q,
)

module _ (pg : Postgres) where
  pub insert_inverse :
      (now : Time) (b q id x : Text) (t t' : Table)
      → char3 b ≡ some b
      → char3 q ≡ some q
      → insert_update pg now b q id t ≡ (ok x, t')
      → ((r : Quote) × (find (is_open b q) t ≡ some r) × (x ≡ r.id) × (t' ≡ t))
        ⊎ ((any (has_id x) t ≡ false)
            × (pg.uuid id ≡ some x)
            × (t' ≡ insert_row (new_row now x b q) t))
  unfolding insert_update
  insert_inverse now b q id x t t' cb cq h = ground arith

  insert_update-IsHeld :
      (now : Time) (b q id x : Text) (t t' : Table)
      → char3 b ≡ some b
      → char3 q ≡ some q
      → IsValid t
      → insert_update pg now b q id t ≡ (ok x, t')
      → IsHeld x b q t'
  insert_update-IsHeld now b q id x t t' cb cq valid h =
      elim (insert_inverse now b q id x t t' cb cq h) [
        | inl (r, found, ex, et) ↦
            let (_, open_row) = find-All (λ _. Unit {0}) (is_open b q) r t found (All-Unit t) in
            rw (ex, et) (r, find-id (is_open b q) r t valid found, open_row)
        | inr (fresh, cast, et) ↦ rw et (
          new_row now x b q,
          find-insert_new (has_id x) (new_row now x b q) t fresh (new-has_id now x b q),
          new-is_open now x b q,
        )
      ]

  -- A call that returns an id has run its statement.
  pub create_update_inverse :
      (link : Link) (now : Time) (b q id x : Text) (t t' : Table)
      → create_update pg link now b q id t ≡ (ok x, t')
      → insert_update pg now b q id t ≡ (ok x, t')
  unfolding create_update
  create_update_inverse up now b q id x t t' h =
      created_inverse (insert_update pg now b q id t) x t' h
  create_update_inverse (lost why) now b q id x t t' h = cc
  create_update_inverse (unacknowledged why) now b q id x t t' h = cc

  pub create_update-IsHeld :
      (link : Link) (now : Time) (b q id x : Text) (t t' : Table)
      → char3 b ≡ some b
      → char3 q ≡ some q
      → IsValid t
      → create_update pg link now b q id t ≡ (ok x, t')
      → IsHeld x b q t'
  create_update-IsHeld link now b q id x t t' cb cq valid h =
      insert_update-IsHeld now b q id x t t' cb cq valid
        (create_update_inverse link now b q id x t t' h)

  -- A further request for a pair in flight gets the id of the row in flight.
  pub create_update_held :
      (now : Time) (b q id u x : Text) (t : Table)
      → char3 b ≡ some b
      → char3 q ≡ some q
      → pg.uuid id ≡ some u
      → IsValid t
      → IsHeld x b q t
      → create_update pg up now b q id t ≡ (ok x, t)
  unfolding create_update insert_update
  create_update_held now b q id u x t cb cq cast valid (r, found, held) =
      let open_row = find-open x b q r t valid found held in
      let (_, same) = find-All (λ _. Unit {0}) (has_id x) r t found (All-Unit t) in
      let same_id = has_id-eq x r same in ground (arith, cast, cb, cq, open_row, same_id)

  -- Let both codes have three characters, let the second id be a UUID and the table valid. If
  -- `CreateUpdate` has returned an id, any calls of the methods that write have run since, and
  -- the row of that id is still PENDING or RUNNING, then a further `CreateUpdate` of the pair
  -- returns the same id and changes nothing.
  pub create_update_dedup :
      (link : Link) (now later : Time) (b q id again u x : Text) (t t' : Table) (cs : List Call)
      → char3 b ≡ some b
      → char3 q ≡ some q
      → pg.uuid again ≡ some u
      → IsValid t
      → create_update pg link now b q id t ≡ (ok x, t')
      → (r : Quote) → find (has_id x) (run_calls pg cs t') ≡ some r
      → in_flight r.status ≡ true
      → create_update pg up later b q again (run_calls pg cs t') ≡ (ok x, run_calls pg cs t')
  create_update_dedup link now later b q id again u x t t' cs cb cq cast valid done r found flying =
      let (s, first, held) = create_update-IsHeld link now b q id x t t' cb cq valid done in
      let valid' : IsValid t' =
        subst IsValid (ap (λ (p : Result Text × Table). p.1) done)
          (Reach-IsValid valid (create_update-Reach pg link now b q id t)) in
      let (s', found', keeps) = run_calls-Keeps pg cs t' x s first in
      create_update_held later b q again u x (run_calls pg cs t') cb cq cast
        (Reach-IsValid valid' (run_calls-Reach pg cs t'))
        (r, found, still_open b q s s' r keeps held flying (sym found' ∙ found))
