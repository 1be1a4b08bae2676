-- ===== src/Repository/Invariant/Starting.antt =====
-- Validity and MarkRunning, with the partial index.
use exchange_rate_quote_serv.Prelude.{
  Text, text_eq_iff, text_eq_sym, Bool, true, false, ◌&&◌, [], ◌∷◌, any, All, ◌≡◌, arith,
}
use exchange_rate_quote_serv.Repository.Table.{
  Time, Quote, Table, has_pair, update_where, start, can_start, has_id, selects, is_rival, collides,
}
use exchange_rate_quote_serv.Repository.Invariant.{IsFit, Apart, IsValid, rewrite}

abbrev starts : Text → Quote → Bool
starts u = selects u can_start

-- No row of `t` that starts has a rival in `whole`.
abbrev IsQuiet : Text → Table → Table → Type 0
IsQuiet u whole t = All (λ r. (starts u r && any (is_rival r) whole) ≡ false) t

IsQuiet-of_collides :
    (u : Text) (whole t : Table)
    → any (λ r. starts u r && any (is_rival r) whole) t ≡ false
    → IsQuiet u whole t
IsQuiet-of_collides u whole [] h = tt
IsQuiet-of_collides u whole (r ∷ t) h = (ground arith, IsQuiet-of_collides u whole t (ground arith))

IsQuiet-tail :
    (u : Text) (x : Quote) (whole t : Table) → IsQuiet u (x ∷ whole) t → IsQuiet u whole t
IsQuiet-tail u x whole [] h = tt
IsQuiet-tail u x whole (r ∷ t) (h, hs) = (ground arith, IsQuiet-tail u x whole t hs)

start-Apart :
    (u : Text) (now : Time) (r s : Quote)
    → Apart r s
    → (starts u r && is_rival r s) ≡ false
    → (starts u s && is_rival s r) ≡ false
    → Apart (rewrite (starts u) (start now) r) (rewrite (starts u) (start now) s)
unfolding has_id has_pair selects is_rival
start-Apart u now r s apart hr hs = ground (
  arith,
  text_eq_iff r.id u,
  text_eq_iff s.id u,
  text_eq_iff s.id r.id,
  text_eq_sym r.id s.id,
  text_eq_sym r.base s.base,
  text_eq_sym r.quote s.quote,
)

-- The head against the rest of the table.
start-All :
    (u : Text) (now : Time) (r : Quote) (t whole : Table)
    → All (Apart r) t
    → (starts u r && any (is_rival r) t) ≡ false
    → IsQuiet u (r ∷ whole) t
    → All (Apart (rewrite (starts u) (start now) r)) (update_where (starts u) (start now) t)
unfolding update_where
start-All u now r [] whole apart quiet rest = tt
start-All u now r (s ∷ t) whole (a, apart) quiet (q, rest) = (
  start-Apart u now r s a (ground arith) (ground arith),
  start-All u now r t whole apart (ground arith) rest,
)

start-IsFit : (now : Time) (r : Quote) → can_start r.status ≡ true → IsFit r → IsFit (start now r)
start-IsFit now r h fit = ground arith

IsQuiet-start :
    (u : Text) (now : Time) (t : Table)
    → IsQuiet u t t
    → IsValid t
    → IsValid (update_where (starts u) (start now) t)
unfolding update_where
IsQuiet-start u now [] quiet valid = tt
IsQuiet-start u now (r ∷ t) (q, quiet) (fit, apart, valid) = (
  unfold selects in ground (arith, start-IsFit now r),
  start-All u now r t t apart (ground arith) quiet,
  IsQuiet-start u now t (IsQuiet-tail u r t t quiet) valid,
)

pub start-IsValid :
    (u : Text) (now : Time) (t : Table)
    → collides (starts u) t ≡ false
    → IsValid t
    → IsValid (update_where (starts u) (start now) t)
unfolding collides
start-IsValid u now t free valid = IsQuiet-start u now t (IsQuiet-of_collides u t t free) valid
