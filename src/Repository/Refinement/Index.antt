-- ===== src/Repository/Refinement/Index.antt =====
-- The partial index, and the rows that are seen of the table.
use exchange_rate_quote_serv.Prelude.{
  Text, text_eq_iff, Bool, true, false, ◌&&◌, [], ◌∷◌, any, All, some, ◌≡◌, inl, inr, arith,
  Bool-cases, Option-cases,
}
use mathlib.Core.Path.{subst}
use exchange_rate_quote_serv.Repository.Table.{
  Time, Quote, Table, Postgres, in_flight, has_pair, has_id, find, selects, can_start, is_rival,
  collides,
}
use exchange_rate_quote_serv.Repository.Invariant.{IsValid}
use exchange_rate_quote_serv.Repository.View.{view, any-none, find-some, missed}
use exchange_rate_quote_serv.Repository.Found.{find-All, find-id}
use exchange_rate_quote_serv.Repository.Spec.{IsFlying, IsClash}
use exchange_rate_quote_serv.Repository.Refinement.Statements.{flying}

-- The table's own answers to the two questions that the partial index decides.
All-trivial : (t : Table) → All (λ _. Unit {0}) t
All-trivial [] = tt
All-trivial (r ∷ t) = (tt, All-trivial t)

found_row :
    (p : Quote → Bool) (r : Quote) (t : Table)
    → IsValid t
    → find p t ≡ some r
    → (view t r.id ≡ some r) × (p r ≡ true)
found_row p r t valid h =
    (find-id p r t valid h, (find-All (λ _. Unit {0}) p r t h (All-trivial t)).1)

pub flying-IsFlying :
    (pg : Postgres) (now : Time) (b q : Text) (t : Table)
    → IsValid t
    → IsFlying b q (view t) (flying pg now t b q)
flying-IsFlying pg now b q t valid =
    let p : Quote → Bool = λ r. in_flight r.status && has_pair b q r in
    elim (Option-cases (find p t)) [
      | inl free ↦ rw free (λ v r h. missed p (has_id v) r t free h)
      | inr (r, found) ↦ rw found (found_row p r t valid found)
    ]

abbrev pub clash : Table → Text → Bool
clash t u = collides (selects u can_start) t

selected_row :
    (u : Text) (r : Quote) (t : Table)
    → view t r.id ≡ some r
    → selects u can_start r ≡ true
    → (view t u ≡ some r) × (can_start r.status ≡ true)
unfolding selects has_id
selected_row u r t h k =
    let same : r.id ≡ u = ground (arith, text_eq_iff r.id u) in
    (subst (λ v. view t v ≡ some r) same h, ground arith)

clash-true : (u : Text) (t : Table) → IsValid t → clash t u ≡ true → IsClash u (view t) true
unfolding collides
clash-true u t valid h =
    let (r, first) = find-some _ t h in
    let (at, both) = found_row _ r t valid first in
    let chosen : selects u can_start r ≡ true = ground arith in
    let rivals : any (is_rival r) t ≡ true = ground arith in
    let (s, second) = find-some (is_rival r) t rivals in
    let (there, rival) = found_row (is_rival r) s t valid second in
    let (mine, may) = selected_row u r t at chosen in (r, s, mine, may, there, rival)

clash-false : (u : Text) (t : Table) → clash t u ≡ false → IsClash u (view t) false
unfolding collides selects has_id
clash-false u t h = λ r s mine may there.
    let free = missed _ (has_id u) r t (any-none _ t h) mine in
    let (_, self) = find-All (λ _. Unit {0}) (has_id u) r t mine (All-trivial t) in
    let none_of : any (is_rival r) t ≡ false = ground arith in
    missed (is_rival r) (has_id s.id) s t (any-none (is_rival r) t none_of) there

pub clash-IsClash : (u : Text) (t : Table) → IsValid t → IsClash u (view t) (clash t u)
clash-IsClash u t valid = elim (Bool-cases (clash t u)) [
  | inl hit ↦ rw hit (clash-true u t valid hit)
  | inr free ↦ rw free (clash-false u t free)
]
