-- ===== src/Errors.antt =====
-- Go's `error` values as the service compares and prints them: the sentinels of
-- internal/service/quote_service_utils.go and validator.go, and all other errors by their text.
use exchange_rate_quote_serv.Prelude.{Text, codes, List, [], ◌∷◌, ◌++◌, ◌≡◌, ◌⊎◌, inl, inr, refl}

pub data Error : Type 0 where
  invalid_pair_format unsupported_currency invalid_update_id not_found : Error
  internal internal_queue : Error
  failure : Text → Error

-- `err.Error()`.
unfoldable pub error_text : Error → Text
error_text Error.invalid_pair_format = codes "invalid currency code format"
error_text Error.unsupported_currency = codes "unsupported currency"
error_text Error.invalid_update_id = codes "invalid update_id"
error_text Error.not_found = codes "not found"
error_text Error.internal = codes "internal error"
error_text Error.internal_queue = codes "internal queue error"
error_text (Error.failure t) = t

-- The texts of `errors.Join`, one to a line.
unfoldable pub join_lines : List Text → Text
join_lines [] = []
join_lines (t ∷ []) = t
join_lines (t ∷ u ∷ ts) = t ++ 10 ∷ join_lines (u ∷ ts)

pub data Result {ℓ} (A : Type ℓ) : Type ℓ where
  ok : (value : A) → Result A
  err : (reason : Error) → Result A

infixl 5 ◌>>=◌ ◌>>◌
-- `if err != nil { return err }` between two steps.
abbrev pub ◌>>=◌ {ℓ ℓ'} : {A : Type ℓ} {B : Type ℓ'} → Result A → (A → Result B) → Result B
err why >>= next = err why
ok value >>= next = next value

abbrev pub ◌>>◌ {ℓ} : {B : Type ℓ} → Result (Unit {0}) → Result B → Result B
first >> second = first >>= λ _. second

pub Result-cases {ℓ} :
    {A : Type ℓ} (r : Result A) → ((a : A) × (r ≡ ok a)) ⊎ ((e : Error) × (r ≡ err e))
Result-cases (ok a) = inl (a, refl)
Result-cases (err e) = inr (e, refl)
