-- ===== src/Repository/Found.antt =====
-- The rows that a query by the id or by the pair in flight finds.
use exchange_rate_quote_serv.Prelude.{
  Text, text_eq_iff, text_eq_sym, text_eq_refl, Bool, true, ◌&&◌, [], ◌∷◌, All, some, ◌≡◌, inl, inr,
  arith, Bool-cases,
}
use exchange_rate_quote_serv.Repository.Table.{Quote, Table, in_flight, has_id, has_pair, find}
use exchange_rate_quote_serv.Repository.Invariant.{Apart, IsValid}

pub find-All :
    (P : Quote → Type 0) (p : Quote → Bool) (r : Quote) (t : Table)
    → find p t ≡ some r
    → All P t
    → P r × (p r ≡ true)
unfolding find
find-All P p r [] h hs = cc
find-All P p r (s ∷ t) h (k, ks) = elim (Bool-cases (p s)) [
  | inl hit ↦ let e : s ≡ r = ground arith in rw (← e) (k, hit)
  | inr miss ↦ find-All P p r t (ground arith) ks
]

-- A row that is found by any test is found by its id.
pub find-id :
    (p : Quote → Bool) (r : Quote) (t : Table)
    → IsValid t
    → find p t ≡ some r
    → find (has_id r.id) t ≡ some r
unfolding find has_id
find-id p r [] valid h = cc
find-id p r (s ∷ t) (fit, apart, valid) h = elim (Bool-cases (p s)) [
  | inl hit ↦ ground (arith, text_eq_refl s.id)
  | inr miss ↦
      let deep : find p t ≡ some r = ground arith in
      let (far, _) = find-All (Apart s) p r t deep apart in
      ground (arith, find-id p r t valid deep, text_eq_sym r.id s.id)
]

abbrev pub is_open : Text → Text → Quote → Bool
is_open b q r = in_flight r.status && has_pair b q r

-- The row in flight of a pair is the only one.
pub find-open :
    (x b q : Text) (r : Quote) (t : Table)
    → IsValid t
    → find (has_id x) t ≡ some r
    → is_open b q r ≡ true
    → find (is_open b q) t ≡ some r
unfolding find has_id has_pair
find-open x b q r [] valid h k = cc
find-open x b q r (s ∷ t) (fit, apart, valid) h k = elim (Bool-cases (has_id x s)) [
  | inl hit ↦ ground arith
  | inr miss ↦
      let deep : find (has_id x) t ≡ some r = ground arith in
      let (far, _) = find-All (Apart s) (has_id x) r t deep apart in
      ground (
        arith,
        find-open x b q r t valid deep k,
        text_eq_iff s.base b,
        text_eq_iff s.quote q,
        text_eq_iff r.base b,
        text_eq_iff r.quote q,
        text_eq_iff r.base s.base,
        text_eq_iff r.quote s.quote,
      )
]
