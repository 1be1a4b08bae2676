-- ===== src/Repository/Latest.antt =====
-- GetLatestSuccess: the order of its rows.
use exchange_rate_quote_serv.Prelude.{
  Text, Bool, true, false, ◌&&◌, [], ◌∷◌, All, Option, none, some, ◌≡◌, ◌≢◌, ◌⊎◌, inl, inr, refl,
  sym, ap, arith, Bool-cases, Option-cases,
}
use mathlib.Core.Path.{subst}
use exchange_rate_quote_serv.Errors.{ok}
use exchange_rate_quote_serv.Repository.Table.{
  Time, Quote, Table, Postgres, has_pair, pad3, latest_where, newest, is_newer, is_success,
  select_latest,
}
use exchange_rate_quote_serv.Repository.Invariant.{IsFit, IsValid}
use exchange_rate_quote_serv.Repository.Methods.{up, get_latest_success}

abbrev pub In : Quote → Table → Type 0
In r [] = ⊥
In r (s ∷ t) = (r ≡ s) ⊎ In r t

-- Nothing that passes the test is newer than `r`.
abbrev pub NoneNewer : (Quote → Bool) → Quote → Table → Type 0
NoneNewer p r t = All (λ s. (p s && is_newer s.updated_at r.updated_at) ≡ false) t

not_newer_trans :
    (a b c : Option Time) → is_newer a b ≡ false → is_newer b c ≡ false → is_newer a c ≡ false
not_newer_trans a b c h k = ground arith

NoneNewer-weaken :
    (p : Quote → Bool) (r s : Quote) (t : Table)
    → NoneNewer p s t
    → is_newer s.updated_at r.updated_at ≡ false
    → NoneNewer p r t
NoneNewer-weaken p r s [] h k = tt
NoneNewer-weaken p r s (x ∷ t) (h, hs) k = (
  ground (arith, not_newer_trans x.updated_at s.updated_at r.updated_at),
  NoneNewer-weaken p r s t hs k,
)

none_pass : (p : Quote → Bool) (t : Table) → latest_where p t ≡ none → All (λ s. p s ≡ false) t
unfolding latest_where
none_pass p [] h = tt
none_pass p (s ∷ t) h = (ground arith, none_pass p t (ground arith))

NoneNewer-vacuous :
    (p : Quote → Bool) (r : Quote) (t : Table) → All (λ s. p s ≡ false) t → NoneNewer p r t
NoneNewer-vacuous p r [] h = tt
NoneNewer-vacuous p r (s ∷ t) (h, hs) = (ground arith, NoneNewer-vacuous p r t hs)

abbrev pub IsNewest : (Quote → Bool) → Quote → Table → Type 0
IsNewest p r t = In r t × (p r ≡ true) × NoneNewer p r t

newest-IsNewest :
    (p : Quote → Bool) (r s x : Quote) (t : Table)
    → p r ≡ true
    → IsNewest p s t
    → newest r (some s) ≡ x
    → IsNewest p x (r ∷ t)
newest-IsNewest p r s x t pr (at, ps, top) e =
    elim (Bool-cases (is_newer s.updated_at r.updated_at)) [
      | inl newer ↦
          let same : s ≡ x = ground arith in
          subst (λ y. IsNewest p y (r ∷ t)) same (inr at, ps, (ground arith, top))
      | inr older ↦
          let same : r ≡ x = ground arith in
          subst (λ y. IsNewest p y (r ∷ t)) same
            (inl refl, pr, (ground arith, NoneNewer-weaken p r s t top older))
    ]

is_newer_irrefl :
    (p : Quote → Bool) (r : Quote) → (p r && is_newer r.updated_at r.updated_at) ≡ false
is_newer_irrefl p r = ground arith

latest_where-IsNewest :
    (p : Quote → Bool) (t : Table) (x : Quote) → latest_where p t ≡ some x → IsNewest p x t
unfolding latest_where
latest_where-IsNewest p [] x h = cc
latest_where-IsNewest p (r ∷ t) x h = elim (Bool-cases (p r)) [
  | inl pr ↦ elim (Option-cases (latest_where p t)) [
    | inl alone ↦
        let same : r ≡ x = ground arith in
        subst (λ y. IsNewest p y (r ∷ t)) same
          (inl refl, pr, (is_newer_irrefl p r, NoneNewer-vacuous p r t (none_pass p t alone)))
    | inr (s, e) ↦ newest-IsNewest p r s x t pr (latest_where-IsNewest p t s e) (ground arith)
  ]
  | inr miss ↦
      let (at, px, top) = latest_where-IsNewest p t x (ground arith) in
      (inr at, px, (ground arith, top))
]

-- The rows that a client asks for.
abbrev pub is_success_of : Text → Text → Quote → Bool
is_success_of base quote r = has_pair (pad3 base) (pad3 quote) r && is_success r.status

pub In-All : (P : Quote → Type 0) (r : Quote) (t : Table) → In r t → All P t → P r
In-All P r [] m h = absurd m
In-All P r (s ∷ t) (inl e) (h, hs) = subst P (sym e) h
In-All P r (s ∷ t) (inr m) (h, hs) = In-All P r t m hs

pub IsValid-fits : (t : Table) → IsValid t → All IsFit t
IsValid-fits [] h = tt
IsValid-fits (r ∷ t) (fit, apart, valid) = (fit, IsValid-fits t valid)

-- The row of `GetLatestSuccess` by the tests and the order of the statement itself.
pub get_latest_success-chosen :
    (pg : Postgres) (base quote : Text) (t : Table)
    → IsValid t
    → (o : Option Quote) × (get_latest_success pg up base quote t ≡ ok o)
      × ((o ≡ none) × All (λ s. is_success_of base quote s ≡ false) t
          ⊎ ((r : Quote) × (o ≡ some r)
              × IsNewest (is_success_of base quote) r t
              × (r.price ≢ none)
              × (r.updated_at ≢ none)))
unfolding get_latest_success select_latest
get_latest_success-chosen pg base quote t valid =
    elim (Option-cases (latest_where (is_success_of base quote) t)) [
      | inl none_found ↦ (none, ap ok none_found, inl (refl, none_pass _ t none_found))
      | inr (r, e) ↦
          let (at, pr, top) = latest_where-IsNewest (is_success_of base quote) t r e in
          let fit = In-All IsFit r t at (IsValid-fits t valid) in
          (some r, ap ok e, inr (r, refl, (at, pr, top), ground arith, ground arith))
    ]
