-- ===== src/Repository/Steps/Valid.antt =====
-- Validity and the steps of the table.
use exchange_rate_quote_serv.Prelude.{Text, refl, arith}
use exchange_rate_quote_serv.Repository.Table.{
  Time, Table, Postgres, succeed, fail, can_succeed, can_fail, update_where, selects,
}
use exchange_rate_quote_serv.Repository.Invariant.{IsValid, update_where-IsValid}
use exchange_rate_quote_serv.Repository.Invariant.Starting.{start-IsValid}
use exchange_rate_quote_serv.Repository.Invariant.Inserting.{insert-IsValid}
use exchange_rate_quote_serv.Repository.Steps.{
  Step, inserted, started, succeeded, failed, Reach, here, next,
}

succeed-IsValid :
    (now : Time) (u n : Text) (t : Table)
    → IsValid t
    → IsValid (update_where (selects u can_succeed) (succeed now n) t)
succeed-IsValid now u n t =
    update_where-IsValid u can_succeed (succeed now n) (λ r. (refl, refl, refl)) (λ r. refl)
      (λ r may fit. ground arith) t

fail-IsValid :
    (now : Time) (u msg : Text) (t : Table)
    → IsValid t
    → IsValid (update_where (selects u can_fail) (fail now msg) t)
fail-IsValid now u msg t =
    update_where-IsValid u can_fail (fail now msg) (λ r. (refl, refl, refl)) (λ r. refl)
      (λ r may fit. ground arith) t

pub Step-IsValid : {pg : Postgres} {t t' : Table} → Step pg t t' → IsValid t → IsValid t'
Step-IsValid {t = t} (inserted now id base quote u b q cast cb cq free fresh) valid =
    insert-IsValid now u b q t free fresh valid
Step-IsValid {t = t} (started now u free) valid = start-IsValid u now t free valid
Step-IsValid {t = t} (succeeded now price u n number) valid = succeed-IsValid now u n t valid
Step-IsValid {t = t} (failed now u msg) valid = fail-IsValid now u msg t valid

-- Whatever the handlers and the workers have done, in whatever order their statements ran.
pub Reach-IsValid : {pg : Postgres} {t t' : Table} → IsValid t → Reach pg t t' → IsValid t'
Reach-IsValid valid here = valid
Reach-IsValid valid (next r step) = Step-IsValid step (Reach-IsValid valid r)
