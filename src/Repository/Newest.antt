-- ===== src/Repository/Newest.antt =====
-- GetLatestSuccess against the times of the rows.
use exchange_rate_quote_serv.Prelude.{
  Text, text_eq_iff, true, false, ◌&&◌, [], ◌∷◌, All, Option, none, some, ◌≡◌, ◌≢◌, ◌⊎◌, ◌≤◌, inl,
  inr, refl, arith, Bool-cases, Option-cases,
}
use exchange_rate_quote_serv.Errors.{ok}
use exchange_rate_quote_serv.Repository.Table.{
  Time, Status, Quote, Table, Postgres, has_pair, pad3, is_newer, is_success,
}
use exchange_rate_quote_serv.Repository.Invariant.{IsFit, IsValid}
use exchange_rate_quote_serv.Repository.Methods.{up, get_latest_success}
use exchange_rate_quote_serv.Repository.Latest.{
  In, NoneNewer, is_success_of, IsValid-fits, get_latest_success-chosen,
}

-- A SUCCESS row of the pair.
pub record IsSuccessOf (b q : Text) (r : Quote) : Type 0 where
  pub status : r.status ≡ Status.success
  pub base : r.base ≡ b
  pub quote : r.quote ≡ q

-- A row that is no SUCCESS row of the pair, or one whose time is not later.
abbrev pub IsBehind : Text → Text → Time → Quote → Type 0
IsBehind base quote time s =
    (¬ IsSuccessOf base quote s) ⊎ ((t : Time) × (s.updated_at ≡ some t) × (t ≤ time))

pub data LatestRow (base quote : Text) (t : Table) : Option Quote → Type 0 where
  no_row : All (λ s. ¬ IsSuccessOf base quote s) t → LatestRow base quote t none
  latest_row :
      (r : Quote) (price : Text) (time : Time)
      → In r t
      → IsSuccessOf base quote r
      → r.price ≡ some price
      → r.updated_at ≡ some time
      → All (IsBehind base quote time) t
      → LatestRow base quote t (some r)

is_success_iff :
    (s : Status)
    → (is_success s ≡ true → s ≡ Status.success) × (s ≡ Status.success → is_success s ≡ true)
is_success_iff s = (λ h. ground arith, λ h. ground arith)

present : {A : Type 0} (o : Option A) → o ≢ none → (a : A) × (o ≡ some a)
present none h = absurd (h refl)
present (some a) h = (a, refl)

not_newer : (a b : Time) → is_newer (some a) (some b) ≡ false → a ≤ b
not_newer a b h = ground arith

module _ (base quote : Text) (padded_base : pad3 base ≡ base)
    (padded_quote : pad3 quote ≡ quote) where
  passes : (s : Quote) → IsSuccessOf base quote s → is_success_of base quote s ≡ true
  unfolding has_pair
  passes s h = ground (
    arith,
    padded_base,
    padded_quote,
    h.status,
    h.base,
    h.quote,
    text_eq_iff s.base base,
    text_eq_iff s.quote quote,
    text_eq_iff s.base (pad3 base),
    text_eq_iff s.quote (pad3 quote),
  )

  passed : (s : Quote) → is_success_of base quote s ≡ true → IsSuccessOf base quote s
  unfolding has_pair
  passed s h = record {
    status = (is_success_iff s.status).0 (ground arith);
    base = ground (arith, padded_base, text_eq_iff s.base (pad3 base));
    quote = ground (arith, padded_quote, text_eq_iff s.quote (pad3 quote));
  }

  fails : (s : Quote) → is_success_of base quote s ≡ false → ¬ IsSuccessOf base quote s
  fails s miss h = let hit = passes s h in absurd (ground arith)

  All-fails :
      (t : Table)
      → All (λ s. is_success_of base quote s ≡ false) t
      → All (λ s. ¬ IsSuccessOf base quote s) t
  All-fails [] h = tt
  All-fails (s ∷ t) (h, hs) = (fails s h, All-fails t hs)

  timed : (s : Quote) → IsFit s → s.status ≡ Status.success → (t : Time) × (s.updated_at ≡ some t)
  timed s fit h = elim (Option-cases s.updated_at) [
    | inl missing ↦ absurd (ground arith)
    | inr (t, there) ↦ (t, there)
  ]

  IsBehind-one :
      (r s : Quote) (time : Time)
      → IsFit s
      → r.updated_at ≡ some time
      → (is_success_of base quote s && is_newer s.updated_at r.updated_at) ≡ false
      → IsBehind base quote time s
  IsBehind-one r s time fit at h = elim (Bool-cases (is_success_of base quote s)) [
    | inr miss ↦ inl (fails s miss)
    | inl hit ↦
        let (t, there) = timed s fit (passed s hit).status in
        inr (t, there, not_newer t time (ground (arith, hit, there, at, h)))
  ]

  behind :
      (r : Quote) (time : Time) (t : Table)
      → All IsFit t
      → r.updated_at ≡ some time
      → NoneNewer (is_success_of base quote) r t
      → All (IsBehind base quote time) t
  behind r time [] fits at h = tt
  behind r time (s ∷ t) (fit, fits) at (h, hs) =
      (IsBehind-one r s time fit at h, behind r time t fits at hs)

  -- Let both codes be ones that a CHAR(3) column keeps as they are, and the table be valid and
  -- reachable. `GetLatestSuccess` returns no row if the table has no SUCCESS row of the pair, and
  -- otherwise a SUCCESS row of the pair in the table, with a price and a time, such that no
  -- SUCCESS row of the pair has a later time.
  pub get_latest_success-LatestRow :
      (pg : Postgres) (t : Table)
      → IsValid t
      → (o : Option Quote) × (get_latest_success pg up base quote t ≡ ok o)
        × LatestRow base quote t o
  get_latest_success-LatestRow pg t valid =
      let (o, made, which) = get_latest_success-chosen pg base quote t valid in
      elim which [
        | inl (empty, misses) ↦ (none, rw empty at made, no_row (All-fails t misses))
        | inr (r, found, newest, priced, at) ↦
            let (price, has_price) = present r.price priced in
            let (time, has_time) = present r.updated_at at in
            (
              some r,
              rw found at made,
              latest_row r price time newest.0 (passed r newest.1) has_price has_time
                  (behind r time t (IsValid-fits t valid) has_time newest.2),
            )
      ]
