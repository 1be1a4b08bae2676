-- ===== src/Repository/Table/Rows.antt =====
-- The rows of the table, the tests of the statements on them, and what the constraints ask.
use exchange_rate_quote_serv.Prelude.{
  ℕ, ◌+◌, ◌-◌, suc, zero, Text, text_eq, Bool, true, false, not, ◌&&◌, List, [], ◌∷◌, ◌++◌, ◌==◌,
  leb, any, length, Option, none, some, if◌then◌else◌,
}
use exchange_rate_quote_serv.Prelude.Unicode.{trim_right}

-- Nanoseconds since the zero `time.Time`.
abbrev pub Time : Type 0
Time = ℕ

pub data Status : Type 0 where
  pending running success failed : Status

-- A row, which `scanQuote` copies into a `Quote` field by field.
pub record Quote : Type 0 where
  pub id : Text
  pub base : Text
  pub quote : Text
  pub price : Option Text
  pub status : Status
  pub error_msg : Option Text
  pub requested_at : Time
  pub updated_at : Option Time

abbrev pub Table : Type 0
Table = List Quote

-- Why PostgreSQL refuses a statement.
pub data Refusal : Type 0 where
  bad_uuid bad_numeric too_long duplicate_id duplicate_pair : Refusal

-- The casts of PostgreSQL: a UUID in its canonical spelling, and a price as NUMERIC(18,6) prints
-- it; `none` is an error. `message` is the text of an error.
pub record Postgres : Type 0 where
  pub uuid : Text → Option Text
  pub numeric : Text → Option Text
  pub message : Refusal → Text

abbrev is_blank : ℕ → Bool
is_blank c = c == 32

blanks : ℕ → Text
blanks zero = []
blanks (suc n) = 32 ∷ blanks n

-- A text as a value of type CHAR, which ignores blanks at the end and is padded to three.
unfoldable pub pad3 : Text → Text
unfolding blanks
pad3 t = let s = trim_right is_blank t in s ++ blanks (3 - length s)

-- The assignment to a column CHAR(3).
unfoldable pub char3 : Text → Option Text
unfolding pad3
char3 t = if leb (length (trim_right is_blank t)) 3 then some (pad3 t) else none

-- The predicate of the partial index `uniq_quotes_pair_pending`.
abbrev pub in_flight : Status → Bool
in_flight Status.pending = true
in_flight Status.running = true
in_flight _ = false

unfoldable pub has_pair : Text → Text → Quote → Bool
has_pair base quote r = text_eq r.base base && text_eq r.quote quote

unfoldable pub find : (Quote → Bool) → Table → Option Quote
find p [] = none
find p (r ∷ t) = let rest = find p t in if p r then some r else rest

unfoldable pub update_where : (Quote → Bool) → (Quote → Quote) → Table → Table
update_where p f [] = []
update_where p f (r ∷ t) = (if p r then f r else r) ∷ update_where p f t

unfoldable pub count_where : (Quote → Bool) → Table → ℕ
count_where p [] = 0
count_where p (r ∷ t) = (if p r then 1 else 0) + count_where p t

unfoldable pub insert_row : Quote → Table → Table
insert_row q [] = q ∷ []
insert_row q (r ∷ t) = r ∷ insert_row q t

abbrev pub new_row : Time → Text → Text → Text → Quote
new_row now id base quote = record {
  id = id;
  base = base;
  quote = quote;
  price = none;
  status = Status.pending;
  error_msg = none;
  requested_at = now;
  updated_at = none;
}

abbrev pub start : Time → Quote → Quote
start now r = record r { status = Status.running; updated_at = some now }

abbrev pub succeed : Time → Text → Quote → Quote
succeed now price r = record r {
  status = Status.success;
  price = some price;
  updated_at = some now;
}

abbrev pub fail : Time → Text → Quote → Quote
fail now msg r = record r {
  status = Status.failed;
  price = none;
  error_msg = some msg;
  updated_at = some now;
}

-- The status tests of the three UPDATE statements.
abbrev pub can_start : Status → Bool
can_start Status.pending = true
can_start Status.failed = true
can_start _ = false

abbrev pub can_succeed : Status → Bool
can_succeed Status.running = true
can_succeed _ = false

abbrev pub can_fail : Status → Bool
can_fail Status.pending = true
can_fail Status.running = true
can_fail _ = false

unfoldable pub has_id : Text → Quote → Bool
has_id id r = text_eq r.id id

-- `WHERE id = … AND status IN (…)`
unfoldable pub selects : Text → (Status → Bool) → Quote → Bool
unfolding has_id
selects id may r = has_id id r && may r.status

-- Another row in flight has the pair of `r`.
unfoldable pub is_rival : Quote → Quote → Bool
unfolding has_pair
is_rival r s = in_flight s.status && has_pair r.base r.quote s && not (text_eq r.id s.id)

-- A row that is to be put in flight has a rival: the partial index refuses the statement.
unfoldable pub collides : (Quote → Bool) → Table → Bool
unfolding is_rival
collides p t = any (λ r. p r && any (is_rival r) t) t
