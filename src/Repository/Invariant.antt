-- ===== src/Repository/Invariant.antt =====
-- A valid table: the ids are distinct, at most one row of a pair is in flight, and the columns of
-- a row fit its status.
pub mod Starting
pub mod Inserting
use exchange_rate_quote_serv.Prelude.{
  ℕ, ◌+◌, Text, text_eq, text_eq_iff, text_eq_sym, text_eq_refl, Bool, true, false, not, ◌&&◌, ◌||◌,
  List, [], ◌∷◌, ◌++◌, any, All, Option, none, some, if◌then◌else◌, ◌≡◌, ◌≢◌, ◌⊎◌, inl, inr, refl,
  sym, arith, Bool-cases, Option-cases,
}
use exchange_rate_quote_serv.Errors.{Error, Result, ok, err}
use exchange_rate_quote_serv.Repository.Table.{
  Time, Status, Quote, Table, Postgres, in_flight, has_pair, find, update_where, count_where,
  insert_row, new_row, start, succeed, fail, can_start, can_succeed, can_fail, has_id, selects,
  is_rival, collides,
}

-- The columns that a status fills, as the comment on `QuoteResult` has them for the client.
abbrev pub Fits : Status → Option Text → Option Text → Option Time → Type 0
Fits Status.pending price msg at = (price ≡ none) × (msg ≡ none) × (at ≡ none)
Fits Status.running price msg at = (price ≡ none) × (at ≢ none)
Fits Status.success price msg at = (price ≢ none) × (at ≢ none)
Fits Status.failed price msg at = (price ≡ none) × (msg ≢ none) × (at ≢ none)

abbrev pub IsFit : Quote → Type 0
IsFit r = Fits r.status r.price r.error_msg r.updated_at

-- Two rows have different ids, and not both are in flight for one pair.
abbrev pub Apart : Quote → Quote → Type 0
Apart r s =
    (has_id r.id s ≡ false)
    × ((in_flight r.status && in_flight s.status && has_pair r.base r.quote s) ≡ false)

abbrev pub IsValid : Table → Type 0
IsValid [] = Unit
IsValid (r ∷ t) = IsFit r × All (Apart r) t × IsValid t

-- UPDATE as one row sees it.
abbrev pub rewrite : (Quote → Bool) → (Quote → Quote) → Quote → Quote
rewrite hit f r = if hit r then f r else r

pub All-update_where :
    (hit : Quote → Bool) (f : Quote → Quote) (P Q : Quote → Type 0)
    → ((s : Quote) → P s → Q (rewrite hit f s))
    → (t : Table) → All P t
    → All Q (update_where hit f t)
unfolding update_where
All-update_where hit f P Q step [] h = tt
All-update_where hit f P Q step (s ∷ t) (h, hs) = (step s h, All-update_where hit f P Q step t hs)

-- A row that two statuses may not share keeps its distance when others leave the flight.
module _ (u : Text) (may : Status → Bool) (f : Quote → Quote)
    (same : (r : Quote) → ((f r).id ≡ r.id) × ((f r).base ≡ r.base) × ((f r).quote ≡ r.quote))
    (lands : (r : Quote) → in_flight (f r).status ≡ false) where
  rewrite-Apart :
      (r s : Quote) → Apart r s → Apart (rewrite (selects u may) f r) (rewrite (selects u may) f s)
  unfolding has_id has_pair
  rewrite-Apart r s h = ground (arith, same r, same s, lands r, lands s)

  pub update_where-IsValid :
      ((r : Quote) → may r.status ≡ true → IsFit r → IsFit (f r))
      → (t : Table) → IsValid t
      → IsValid (update_where (selects u may) f t)
  unfolding update_where selects
  update_where-IsValid fits [] h = tt
  update_where-IsValid fits (r ∷ t) (fit, apart, valid) = (
    ground (arith, fits r),
    All-update_where (selects u may) f (Apart r) _ (rewrite-Apart r) t apart,
    update_where-IsValid fits t valid,
  )
