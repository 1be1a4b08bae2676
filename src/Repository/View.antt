-- ===== src/Repository/View.antt =====
-- The table as a map from ids to rows, which forgets the order of the rows, and what the methods
-- of `PostgresQuoteRepository` are to such a map.
use exchange_rate_quote_serv.Prelude.{
  Text, text_eq, text_eq_iff, Bool, true, false, [], ◌∷◌, any, Option, none, some, if◌then◌else◌,
  ◌≡◌, inl, inr, refl, arith, Bool-cases,
}
use mathlib.Core.Path.{fun_ext, subst}
use exchange_rate_quote_serv.Repository.Table.{
  Status, Quote, Table, has_id, find, update_where, insert_row, selects,
}

-- The rows of a table by their ids.
abbrev pub View : Type 0
View = Text → Option Quote

abbrev pub view : Table → View
view t u = find (has_id u) t

abbrev pub put : Text → Quote → View → View
put u r m v = if text_eq v u then some r else m v

abbrev pub adjusted : (Status → Bool) → (Quote → Quote) → Option Quote → Option Quote
adjusted may f none = none
adjusted may f (some r) = some (if may r.status then f r else r)

-- UPDATE … WHERE id = … AND status IN (…) of a map.
abbrev pub adjust : Text → (Status → Bool) → (Quote → Quote) → View → View
adjust u may f m v = if text_eq v u then adjusted may f (m v) else m v

insert_at :
    (r : Quote) (t : Table) (v : Text)
    → any (has_id r.id) t ≡ false
    → find (has_id v) (insert_row r t) ≡ put r.id r (view t) v
unfolding find insert_row has_id
insert_at r [] v free = ground (arith, text_eq_iff r.id v, text_eq_iff v r.id)
insert_at r (s ∷ t) v free =
    ground (arith, insert_at r t v, text_eq_iff s.id v, text_eq_iff s.id r.id, text_eq_iff v r.id)

pub view-insert_row :
    (r : Quote) (t : Table)
    → any (has_id r.id) t ≡ false
    → view (insert_row r t) ≡ put r.id r (view t)
view-insert_row r t free = fun_ext (λ v. insert_at r t v free)

update_at :
    (u : Text) (may : Status → Bool) (f : Quote → Quote) (t : Table) (v : Text)
    → ((r : Quote) → (f r).id ≡ r.id)
    → find (has_id v) (update_where (selects u may) f t) ≡ adjust u may f (view t) v
unfolding find update_where selects has_id
update_at u may f [] v same = ground arith
update_at u may f (s ∷ t) v same = ground (
  arith,
  same s,
  update_at u may f t v same,
  text_eq_iff s.id v,
  text_eq_iff s.id u,
  text_eq_iff v u,
)

pub view-update_where :
    (u : Text) (may : Status → Bool) (f : Quote → Quote) (t : Table)
    → ((r : Quote) → (f r).id ≡ r.id)
    → view (update_where (selects u may) f t) ≡ adjust u may f (view t)
view-update_where u may f t same = fun_ext (λ v. update_at u may f t v same)

pub find-some : (p : Quote → Bool) (t : Table) → any p t ≡ true → (r : Quote) × (find p t ≡ some r)
unfolding find
find-some p [] h = absurd (ground arith)
find-some p (s ∷ t) h = elim (Bool-cases (p s)) [
  | inl hit ↦ (s, ground arith)
  | inr miss ↦ let (r, found) = find-some p t (ground arith) in (r, ground (arith, found))
]

-- A row that a table has fails each test that no row passes.
pub missed :
    (p q : Quote → Bool) (r : Quote) (t : Table) → find p t ≡ none → find q t ≡ some r → p r ≡ false
unfolding find
missed p q r [] h k = absurd (ground arith)
missed p q r (s ∷ t) h k = elim (Bool-cases (p s)) [
  | inl hit ↦ absurd (ground arith)
  | inr miss ↦ elim (Bool-cases (q s)) [
    | inl there ↦ let same : s ≡ r = ground arith in subst (λ x. p x ≡ false) same miss
    | inr further ↦ missed p q r t (ground arith) (ground arith)
  ]
]

pub any-none : (p : Quote → Bool) (t : Table) → any p t ≡ false → find p t ≡ none
unfolding find
any-none p [] h = refl
any-none p (s ∷ t) h = ground (arith, any-none p t)
