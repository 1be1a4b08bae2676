-- ===== src/World.antt =====
-- What the service shares between requests, and all that it calls outside its own code. A
-- handler is a function from the state to its result and the new state. Every outside call takes
-- the next tick of `tick`, and its outcome may depend on the tick in any way.
use exchange_rate_quote_serv.Prelude.{ℕ, suc, Text, Bool, List, Option}
use exchange_rate_quote_serv.Errors.{Error, Result, ok, err}
use exchange_rate_quote_serv.Repository.Table.{Time, Table, Postgres}
use exchange_rate_quote_serv.Repository.Methods.{Link}

-- An element of a reply of Redis, of type `any`.
pub data Value : Type 0 where
  nil : Value
  str bytes : Text → Value
  number : ℕ → Value

-- `service.UpdateQuotePayload`
pub record UpdateQuotePayload : Type 0 where
  pub update_id : Text
  pub base : Text
  pub quote : Text

-- A task of the queue, as `AsynqEnqueuer` hands it over.
pub record Task : Type 0 where
  pub kind : Text
  pub payload : Text
  pub max_retry : ℕ
  pub timeout : ℕ

-- The bodies that the two providers decode; `F` is `float64`, and a map is its lookup.
pub record ErHostResponse (F : Type 0) : Type 0 where
  pub success : Bool
  pub source : Text
  pub quotes : Text → Option F

pub record FrankfurterResponse (F : Type 0) : Type 0 where
  pub amount : F
  pub base : Text
  pub date : Text
  pub rates : Text → Option F

-- What `http.NewRequestWithContext` and `Client.Do` come to.
pub data Reply : Type 0 where
  bad_request unreachable : Error → Reply
  answered : (status : ℕ) (body : Text) → Reply

-- `S` is the content of the Redis that caches, and `F` is `float64`.
pub record Env (S F : Type 0) : Type 0 where
  pub pg : Postgres
  pub db_link : ℕ → Link
  pub db_now : ℕ → Time
  pub now : ℕ → Time
  pub new_uuid : ℕ → Text
  pub parses_uuid : Text → Bool
  pub upper : ℕ → ℕ
  pub format_rfc3339 : Time → Text
  pub parse_rfc3339 : Text → Option Time
  pub parse_date : Text → Option Time
  pub hmget : ℕ → Text → S → Option (List Value)
  pub hset_expire : ℕ → Text → Text → Text → ℕ → S → Bool × S
  pub http_get : ℕ → Text → Reply
  pub decode_er_host : Text → Result (ErHostResponse F)
  pub decode_frankfurter : Text → Result (FrankfurterResponse F)
  pub format_float : F → Text
  pub enqueue : ℕ → Link
  pub marshal : UpdateQuotePayload → Result Text
  pub unmarshal : Text → Result UpdateQuotePayload

pub record World (S : Type 0) : Type 0 where
  pub rows : Table
  pub cache : S
  pub tasks : List Task
  pub tick : ℕ

abbrev pub Action : Type 0 → Type 0 → Type 0
Action S A = World S → Result A × World S

-- `if err != nil { return e }`
abbrev pub with_error : {A : Type 0} → Error → Result A → Result A
with_error e (ok a) = ok a
with_error e (err _) = err e

module _ {S A : Type 0} where
  abbrev pub pure : A → Action S A
  pure a w = (ok a, w)

  abbrev pub raise : Error → Action S A
  raise e w = (err e, w)

  abbrev pub lift : Result A → Action S A
  lift r w = (r, w)

  -- `a, err := m`, whose error the code looks at.
  abbrev pub attempt : Action S A → Action S (Result A)
  attempt m w = let (r, w') = m w in (ok r, w')

  abbrev pub or_error : Action S A → Error → Action S A
  or_error m e w = let (r, w') = m w in (with_error e r, w')

-- What follows a call: the next action, or the return of its error.
abbrev pub resume : {S A B : Type 0} → (A → Action S B) → Result A → World S → Result B × World S
resume f (ok a) w = f a w
resume f (err e) w = (err e, w)

infixl 5 ◌>>=◌ ◌>>◌
abbrev pub ◌>>=◌ : {S A B : Type 0} → Action S A → (A → Action S B) → Action S B
◌>>=◌ m f w = let (r, w') = m w in resume f r w'

abbrev pub ◌>>◌ : {S A B : Type 0} → Action S A → Action S B → Action S B
m >> k = m >>= λ _. k

module _ {S : Type 0} where
  abbrev pub advance : World S → World S
  advance w = record w { tick = suc w.tick }

  -- An outside call that reads the tick only.
  abbrev pub ask : {A : Type 0} → (ℕ → A) → Action S A
  ask f w = (ok (f w.tick), advance w)
