-- ===== src/Repository/Invariant/Inserting.antt =====
-- Validity and the insertion of CreateUpdate, with its conflict clause.
use exchange_rate_quote_serv.Prelude.{
  Text, text_eq_sym, Bool, false, ◌&&◌, [], ◌∷◌, any, All, none, ◌≡◌, refl, arith,
}
use exchange_rate_quote_serv.Repository.Table.{
  Time, Quote, Table, in_flight, has_pair, find, insert_row, new_row, has_id,
}
use exchange_rate_quote_serv.Repository.Invariant.{IsFit, Apart, IsValid}

find-none : (p : Quote → Bool) (t : Table) → find p t ≡ none → All (λ r. p r ≡ false) t
unfolding find
find-none p [] h = tt
find-none p (r ∷ t) h = (ground arith, find-none p t (ground arith))

any-false : (p : Quote → Bool) (t : Table) → any p t ≡ false → All (λ r. p r ≡ false) t
any-false p [] h = tt
any-false p (r ∷ t) h = (ground arith, any-false p t (ground arith))

All-insert_row :
    (P : Quote → Type 0) (q : Quote) (t : Table) → All P t → P q → All P (insert_row q t)
unfolding insert_row
All-insert_row P q [] h p = (p, tt)
All-insert_row P q (r ∷ t) (h, hs) p = (h, All-insert_row P q t hs p)

insert_row-IsValid :
    (q : Quote) (t : Table)
    → IsFit q
    → IsValid t
    → All (λ r. has_id q.id r ≡ false) t
    → All (λ r. (in_flight r.status && has_pair q.base q.quote r) ≡ false) t
    → IsValid (insert_row q t)
unfolding insert_row has_id has_pair
insert_row-IsValid q [] fit valid ids pairs = (fit, tt, tt)
insert_row-IsValid q (r ∷ t) fit (rfit, apart, valid) (id, ids) (pair, pairs) = (
  rfit,
  All-insert_row (Apart r) q t apart (
      ground
        (arith, text_eq_sym r.id q.id, text_eq_sym r.base q.base, text_eq_sym r.quote q.quote)),
  insert_row-IsValid q t fit valid ids pairs,
)

pub insert-IsValid :
    (now : Time) (u b q : Text) (t : Table)
    → find (λ r. in_flight r.status && has_pair b q r) t ≡ none
    → any (has_id u) t ≡ false
    → IsValid t
    → IsValid (insert_row (new_row now u b q) t)
insert-IsValid now u b q t free fresh valid =
    insert_row-IsValid (new_row now u b q) t (refl, refl, refl) valid (any-false (has_id u) t fresh)
      (find-none (λ r. in_flight r.status && has_pair b q r) t free)
