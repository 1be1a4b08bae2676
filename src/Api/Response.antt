-- ===== src/Api/Response.antt =====
-- response.go, and the response writer of `net/http` as the list of calls that a handler makes.
use exchange_rate_quote_serv.Prelude.{ℕ, Text, codes, List, [], ◌∷◌, Option, none, some}

-- What the handlers encode as JSON or write as text: the Go values, before the encoder.
pub record QuoteResponse : Type 0 where
  pub update_id : Text
  pub base : Text
  pub quote : Text
  pub status : Text
  pub price : Option Text
  pub updated_at : Option Text
  pub error : Option Text

pub record LatestResponse : Type 0 where
  pub base : Text
  pub quote : Text
  pub price : Text
  pub updated_at : Text

pub data Body : Type 0 where
  error_response : Text → Body
  update_response : (update_id : Text) → Body
  quote_response : QuoteResponse → Body
  latest_response : LatestResponse → Body
  ready_response : (status : Text) → Body
  plain : Text → Body

-- A call of a method of `http.ResponseWriter`.
pub data Write : Type 0 where
  set_header : (name value : Text) → Write
  write_header : ℕ → Write
  write : Body → Write

abbrev pub Response : Type 0
Response = List Write

-- `writeJSON`
unfoldable pub write_json : ℕ → Body → Response
write_json status body =
    set_header (codes "Content-Type") (codes "application/json")
    ∷ write_header status
    ∷ write body
    ∷ []

unfoldable pub deref_str : Option Text → Text
deref_str none = []
deref_str (some s) = s

-- The status that the client receives: the first one that is written, and 200 if a body is
-- written before, or nothing at all.
unfoldable pub sent_status : Response → ℕ
sent_status [] = 200
sent_status (set_header _ _ ∷ ws) = sent_status ws
sent_status (write_header code ∷ ws) = code
sent_status (write _ ∷ ws) = 200

-- The first body that is written.
unfoldable pub sent_body : Response → Option Body
sent_body [] = none
sent_body (write b ∷ ws) = some b
sent_body (_ ∷ ws) = sent_body ws
