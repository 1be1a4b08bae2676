-- ===== src/Repository/Prices.antt =====
-- The prices of the table: what `MarkSuccess` stores and `GetLatestSuccess` finds.
use exchange_rate_quote_serv.Prelude.{
  Text, Bool, true, false, text_eq_iff, text_eq_refl, [], ◌∷◌, All, Option, some, ◌≡◌, ◌⊎◌, inl,
  inr, refl, sym, ap, ◌∙◌, arith, Option-cases,
}
use mathlib.Core.Path.{subst}
use exchange_rate_quote_serv.Errors.{Error, Result, ok}
use exchange_rate_quote_serv.Repository.Table.{
  Time, Status, Quote, Table, Postgres, has_id, find, succeed, can_succeed, update_success,
  is_success,
}
use exchange_rate_quote_serv.Repository.Invariant.{Apart, IsValid}
use exchange_rate_quote_serv.Repository.Methods.{
  Link, up, lost, unacknowledged, not_found_error, mark_success, get_latest_success,
}
use exchange_rate_quote_serv.Repository.Updates.{
  HasUpdated, changed, unchanged, AreOthersKept, mark_success-HasUpdated,
}
use exchange_rate_quote_serv.Repository.Latest.{In, get_latest_success-chosen}
use exchange_rate_quote_serv.Repository.Steps.{Reach}
use exchange_rate_quote_serv.Repository.History.{Reach-Keeps}

-- The row of `id` was RUNNING and is SUCCESS with the price; the other rows are the same.
pub record IsPriced (pg : Postgres) (now : Time) (id price : Text) (t t' : Table) : Type 0 where
  pub uuid : Text
  pub number : Text
  pub cast : pg.uuid id ≡ some uuid
  pub read : pg.numeric price ≡ some number
  pub before : Quote
  pub found : find (has_id uuid) t ≡ some before
  pub running : before.status ≡ Status.running
  pub done : find (has_id uuid) t' ≡ some (succeed now number before)
  pub others : AreOthersKept uuid t t'

can_succeed-eq : (s : Status) → can_succeed s ≡ true → s ≡ Status.running
can_succeed-eq s h = ground arith

updated_ok :
    (u : Text) (may : Status → Bool) (f : Quote → Quote) (e : Error) (t : Table)
    (res : Result (Unit {0})) (t' : Table)
    → HasUpdated u may f e t res t'
    → res ≡ ok tt
    → (r : Quote) × (find (has_id u) t ≡ some r)
      × (may r.status ≡ true)
      × (find (has_id u) t' ≡ some (f r))
      × AreOthersKept u t t'
updated_ok u may f e t res t' (changed r found m done after others) h = (r, found, m, after, others)
updated_ok u may f e t res t' (unchanged no_row failed same) h = absurd (ground arith)

mark_success_casts :
    (pg : Postgres) (link : Link) (now : Time) (id price : Text) (t : Table)
    → (mark_success pg link now id price t).0 ≡ ok tt
    → (u : Text) × (n : Text) × (link ≡ up) × (pg.uuid id ≡ some u) × (pg.numeric price ≡ some n)
unfolding mark_success update_success
mark_success_casts pg link now id price t h = elim (Option-cases (pg.uuid id)) [
  | inl bad ↦ absurd (ground arith)
  | inr (u, cast) ↦ elim (Option-cases (pg.numeric price)) [
    | inl bad ↦ absurd (ground arith)
    | inr (n, read) ↦ (u, n, ground arith, cast, read)
  ]
]

pub mark_success-IsPriced :
    (pg : Postgres) (link : Link) (now : Time) (id price : Text) (t : Table)
    → IsValid t
    → (mark_success pg link now id price t).0 ≡ ok tt
    → IsPriced pg now id price t (mark_success pg link now id price t).1
mark_success-IsPriced pg link now id price t valid h =
    let (u, n, live, cast, read) = mark_success_casts pg link now id price t h in
    let (r, found, m, after, others) =
      updated_ok u can_succeed (succeed now n) (not_found_error id) t
        (mark_success pg up now id price t).0 (mark_success pg up now id price t).1
        (mark_success-HasUpdated pg now id price u n t cast read valid) (rw live at h) in
    subst (λ l. IsPriced pg now id price t (mark_success pg l now id price t).1) (sym live)
      (record {
        uuid = u;
        number = n;
        cast = cast;
        read = read;
        before = r;
        found = found;
        running = can_succeed-eq r.status m;
        done = after;
        others = others;
      })

-- A SUCCESS row has the price, as the text that it is or as PostgreSQL prints it.
pub record HasPrice (pg : Postgres) (price : Text) (t : Table) : Type 0 where
  pub id : Text
  pub row : Quote
  pub found : find (has_id id) t ≡ some row
  pub finished : row.status ≡ Status.success
  pub same :
      (row.price ≡ some price) ⊎ ((n : Text) × (pg.numeric price ≡ some n) × (row.price ≡ some n))

other_miss : (r s : Quote) (t : Table) → All (Apart s) t → In r t → has_id r.id s ≡ false
unfolding has_id
other_miss r s [] h m = absurd m
other_miss r s (x ∷ t) (h, hs) (inl e) =
    rw e (ground (arith, h.0, text_eq_iff x.id s.id, text_eq_iff s.id x.id))
other_miss r s (x ∷ t) (h, hs) (inr m) = other_miss r s t hs m

find-In : (r : Quote) (t : Table) → IsValid t → In r t → find (has_id r.id) t ≡ some r
unfolding find has_id
find-In r [] valid m = absurd m
find-In r (s ∷ t) (fit, apart, valid) (inl e) = rw e (ground (arith, text_eq_refl s.id))
find-In r (s ∷ t) (fit, apart, valid) (inr m) =
    ground (arith, other_miss r s t apart m, find-In r t valid m)

is_success-eq : (s : Status) → is_success s ≡ true → s ≡ Status.success
is_success-eq s h = ground arith

link_up :
    (pg : Postgres) (link : Link) (b q : Text) (t : Table) (o : Option Quote)
    → get_latest_success pg link b q t ≡ ok o
    → get_latest_success pg up b q t ≡ ok o
unfolding get_latest_success
link_up pg up b q t o h = h
link_up pg (lost why) b q t o h = absurd (ground arith)
link_up pg (unacknowledged why) b q t o h = absurd (ground arith)

module _ {pg : Postgres} where
  pub Reach-HasPrice :
      {price : Text} {t t' : Table} → Reach pg t t' → HasPrice pg price t → HasPrice pg price t'
  Reach-HasPrice reach h =
      let (s, found, keeps) = Reach-Keeps h.id h.row h.found reach in
      let kept = keeps.final h.finished in
      record {
        id = h.id;
        row = h.row;
        found = found ∙ ap some kept;
        finished = h.finished;
        same = h.same;
      }

  pub mark_success-HasPrice :
      (link : Link) (now : Time) (id price : Text) (t : Table)
      → IsValid t
      → (mark_success pg link now id price t).0 ≡ ok tt
      → HasPrice pg price (mark_success pg link now id price t).1
  mark_success-HasPrice link now id price t valid h =
      let priced = mark_success-IsPriced pg link now id price t valid h in
      record {
        id = priced.uuid;
        row = succeed now priced.number priced.before;
        found = priced.done;
        finished = refl;
        same = inr (priced.number, priced.read, refl);
      }

  -- The row that `GetLatestSuccess` returns has its price.
  pub get_latest_success-HasPrice :
      (link : Link) (b q : Text) (t : Table) (r : Quote) (price : Text)
      → IsValid t
      → get_latest_success pg link b q t ≡ ok (some r)
      → r.price ≡ some price
      → HasPrice pg price t
  get_latest_success-HasPrice link b q t r price valid h priced =
      let (o, made, which) = get_latest_success-chosen pg b q t valid in
      let back = link_up pg link b q t (some r) h in
      elim which [
        | inl (empty, _) ↦ absurd (ground arith)
        | inr (s, found, newest, _, _) ↦
            let same : s ≡ r = ground arith in
            record {
              id = r.id;
              row = r;
              found = find-In r t valid (subst (λ x. In x t) same newest.0);
              finished = is_success-eq r.status (ground (arith, newest.1));
              same = inl priced;
            }
      ]
