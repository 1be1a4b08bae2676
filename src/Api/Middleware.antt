-- ===== src/Api/Middleware.antt =====
-- internal/api/middleware/middleware.go: the request id, and the writer that keeps the status.
use exchange_rate_quote_serv.Prelude.{ℕ, ◌+◌, Text, codes, [], ◌∷◌, ◌==◌, if◌then◌else◌}
use exchange_rate_quote_serv.Api.Response.{Body, Write, set_header, write_header, write, Response}

abbrev pub header_request_id : Text
header_request_id = codes "X-Request-Id"

-- The id of a request: that of its header, or a new one.
unfoldable pub request_id : (header fresh : Text) → Text
request_id [] fresh = fresh
request_id (c ∷ s) fresh = c ∷ s

-- `RequestIDMiddleware`: the id goes into the context of the inner handler and into the header of
-- the response.
unfoldable pub request_id_middleware : (Text → Response) → (header fresh : Text) → Response
request_id_middleware next header fresh =
    let id = request_id header fresh in set_header header_request_id id ∷ next id

-- The fields of `responseWriter`.
pub record ResponseWriter : Type 0 where
  pub status : ℕ
  pub size : ℕ

-- One call of the wrapper, where `accepted` is the number of bytes that the inner writer took.
unfoldable pub writer_step : (Body → ℕ) → ResponseWriter → Write → ResponseWriter
writer_step accepted rw (set_header _ _) = rw
writer_step accepted rw (write_header code) = record rw { status = code }
writer_step accepted rw (write b) = record {
  status = (if rw.status == 0 then 200 else rw.status);
  size = rw.size + accepted b;
}

unfoldable pub writer_run : (Body → ℕ) → ResponseWriter → Response → ResponseWriter
unfolding writer_step
writer_run accepted rw [] = rw
writer_run accepted rw (c ∷ cs) = writer_run accepted (writer_step accepted rw c) cs

-- `RequestLoggingMiddleware`: the status of its log line.
unfoldable pub logged_status : (Body → ℕ) → Response → ℕ
unfolding writer_run
logged_status accepted response =
    let rw = writer_run accepted (record { status = 0; size = 0 }) response in
    if rw.status == 0 then 200 else rw.status
