-- ===== src/Repository/History.antt =====
-- One row of the table over time, and the life cycle of an update.
use exchange_rate_quote_serv.Prelude.{
  Text, Bool, true, false, [], ◌∷◌, some, ◌≡◌, ◌∙◌, refl, ap, arith,
}
use exchange_rate_quote_serv.Repository.Table.{
  Time, Status, Quote, Table, Postgres, find, update_where, insert_row, has_id, selects, start,
  succeed, fail, can_start, can_succeed, can_fail,
}
use exchange_rate_quote_serv.Repository.Invariant.{rewrite}
use exchange_rate_quote_serv.Repository.Steps.{
  Step, inserted, started, succeeded, failed, Reach, here, next,
}

-- The life cycle: FAILED returns to RUNNING when the queue retries the task.
abbrev pub may_become : Status → Status → Bool
may_become Status.pending Status.success = false
may_become Status.pending _ = true
may_become Status.running Status.pending = false
may_become Status.running _ = true
may_become Status.success Status.success = true
may_become Status.success _ = false
may_become Status.failed Status.failed = true
may_become Status.failed Status.running = true
may_become Status.failed _ = false

pub record Evolves (r s : Quote) : Type 0 where
  pub id : s.id ≡ r.id
  pub base : s.base ≡ r.base
  pub quote : s.quote ≡ r.quote
  pub requested_at : s.requested_at ≡ r.requested_at
  pub status : may_become r.status s.status ≡ true
  pub final : r.status ≡ Status.success → s ≡ r

pub find-insert_row :
    (p : Quote → Bool) (q r : Quote) (t : Table)
    → find p t ≡ some r
    → find p (insert_row q t) ≡ some r
unfolding find insert_row
find-insert_row p q r [] h = cc
find-insert_row p q r (s ∷ t) h = ground (arith, find-insert_row p q r t)

-- An UPDATE that keeps the ids.
module _ (hit : Quote → Bool) (f : Quote → Quote) (same : (r : Quote) → (f r).id ≡ r.id) where
  pub find-update_where :
      (u : Text) (r : Quote) (t : Table)
      → find (has_id u) t ≡ some r
      → find (has_id u) (update_where hit f t) ≡ some (rewrite hit f r)
  unfolding find update_where has_id
  find-update_where u r [] h = cc
  find-update_where u r (s ∷ t) h = ground (arith, same s, find-update_where u r t)

abbrev pub Persists : Text → Quote → Table → Type 0
Persists u r t = (s : Quote) × (find (has_id u) t ≡ some s) × Evolves r s

start-Evolves :
    (u : Text) (now : Time) (r : Quote) → Evolves r (rewrite (selects u can_start) (start now) r)
unfolding selects
start-Evolves u now r = ground arith

succeed-Evolves :
    (u n : Text) (now : Time) (r : Quote)
    → Evolves r (rewrite (selects u can_succeed) (succeed now n) r)
unfolding selects
succeed-Evolves u n now r = ground arith

fail-Evolves :
    (u msg : Text) (now : Time) (r : Quote)
    → Evolves r (rewrite (selects u can_fail) (fail now msg) r)
unfolding selects
fail-Evolves u msg now r = ground arith

Evolves-refl : (r : Quote) → Evolves r r
Evolves-refl r = ground arith

pub Step-Persists :
    {pg : Postgres} {t t' : Table} (u : Text) (r : Quote)
    → Step pg t t'
    → find (has_id u) t ≡ some r
    → Persists u r t'
Step-Persists {t = t} u r (inserted now id base quote v b q cast cb cq free fresh) h =
    (r, find-insert_row (has_id u) _ r t h, Evolves-refl r)
Step-Persists {t = t} u r (started now v free) h = (
  _,
  find-update_where (selects v can_start) (start now) (λ s. refl) u r t h,
  start-Evolves v now r,
)
Step-Persists {t = t} u r (succeeded now price v n number) h = (
  _,
  find-update_where (selects v can_succeed) (succeed now n) (λ s. refl) u r t h,
  succeed-Evolves v n now r,
)
Step-Persists {t = t} u r (failed now v msg) h = (
  _,
  find-update_where (selects v can_fail) (fail now msg) (λ s. refl) u r t h,
  fail-Evolves v msg now r,
)

-- What is left of `Evolves` over many steps.
pub record Keeps (r s : Quote) : Type 0 where
  pub id : s.id ≡ r.id
  pub base : s.base ≡ r.base
  pub quote : s.quote ≡ r.quote
  pub requested_at : s.requested_at ≡ r.requested_at
  pub final : r.status ≡ Status.success → s ≡ r

Keeps-Evolves : (r s s' : Quote) → Keeps r s → Evolves s s' → Keeps r s'
Keeps-Evolves r s s' k e = record {
  id = e.id ∙ k.id;
  base = e.base ∙ k.base;
  quote = e.quote ∙ k.quote;
  requested_at = e.requested_at ∙ k.requested_at;
  final = λ h. e.final (ap (λ x. x.status) (k.final h) ∙ h) ∙ k.final h;
}

pub Reach-Keeps :
    {pg : Postgres} {t t' : Table} (u : Text) (r : Quote)
    → find (has_id u) t ≡ some r
    → Reach pg t t'
    → (s : Quote) × (find (has_id u) t' ≡ some s) × Keeps r s
Reach-Keeps u r h here = (r, h, ground arith)
Reach-Keeps u r h (next reach step) =
    let (s, found, keeps) = Reach-Keeps u r h reach in
    let (s', found', evolves) = Step-Persists u s step found in
    (s', found', Keeps-Evolves r s s' keeps evolves)
