-- ===== src/System/Codes.antt =====
-- The supported currencies and the columns CHAR(3).
use exchange_rate_quote_serv.Prelude.{
  Text, text_eq, text_eq_iff, Bool, true, false, all, Option, none, some, ◌≡◌, refl, arith,
}
use exchange_rate_quote_serv.Prelude.Unicode.{trim_right}
use exchange_rate_quote_serv.Currency.{supported_currencies}
use exchange_rate_quote_serv.Currency.Accepted.{IsListed, any-text_eq, all-All}
use exchange_rate_quote_serv.Repository.Table.{char3}

is_kept : Text → Option Text → Bool
is_kept t none = false
is_kept t (some s) = text_eq s t

is_kept-eq : (t : Text) (o : Option Text) → is_kept t o ≡ true → o ≡ some t
unfolding is_kept
is_kept-eq t none h = cc
is_kept-eq t (some s) h = ground (arith, text_eq_iff s t)

listed_kept : all (λ t. is_kept t (char3 t)) supported_currencies ≡ true
unfolding is_kept char3 text_eq trim_right
listed_kept = refl

pub char3-listed : (t : Text) → IsListed t → char3 t ≡ some t
char3-listed t h = is_kept-eq t (char3 t) (
    any-text_eq (λ s. is_kept s (char3 s) ≡ true) t supported_currencies h
      (all-All (λ s. is_kept s (char3 s)) supported_currencies listed_kept))
