-- ===== src/Tests/Fixtures.antt =====
-- A concrete environment: a cache that forgets nothing, a network that always answers, and codecs
-- as simple as the laws allow.
use exchange_rate_quote_serv.Prelude.{
  ℕ, ◌+◌, Text, codes, text_eq, text_eq_refl, true, List, [], ◌∷◌, Option, none, some, ◌==◌,
  if◌then◌else◌, ◌≡◌, refl, arith,
}
use exchange_rate_quote_serv.Prelude.Decimal.{decimal, value_from}
use exchange_rate_quote_serv.Prelude.Unicode.{IsCaseTable}
use exchange_rate_quote_serv.Errors.{Error, Result, ok, err}
use exchange_rate_quote_serv.Repository.Table.{Time, Postgres}
use exchange_rate_quote_serv.Repository.Methods.{up}
use exchange_rate_quote_serv.World.{Env, World, Value, str, nil, UpdateQuotePayload, answered}
use exchange_rate_quote_serv.Provider.Http.{RatesProvider, frankfurter_get_rate}
use exchange_rate_quote_serv.Provider.Cached.{CachedRatesProviderDecorator, cached_get_rate}
use exchange_rate_quote_serv.Provider.Facade.{facade_get_rate}
use exchange_rate_quote_serv.Provider.Quiet.{
  IsQuiet, frankfurter_get_rate-Quiet, cached_get_rate-Quiet, facade_get_rate-Quiet,
}
use exchange_rate_quote_serv.Service.Cache.{QuoteService}
use exchange_rate_quote_serv.Worker.{AsynqEnqueuer}
use exchange_rate_quote_serv.System.Requests.{MakesUuids}
use exchange_rate_quote_serv.System.Schedule.{RoundTrips}
use exchange_rate_quote_serv.System.Stores.{Remembers}

abbrev pub upper : ℕ → ℕ
upper c = if c == 0x131 then b'I' else if c == 0x17f then b'S' else c

pub upper-IsCaseTable : IsCaseTable upper
upper-IsCaseTable = record { dotless_i = refl; long_s = refl; others = λ c h. ground arith }

-- No text is refused but the empty one.
abbrev unless_empty : Text → Option Text
unless_empty [] = none
unless_empty (c ∷ s) = some (c ∷ s)

abbrev pub pg : Postgres
pg = record { uuid = unless_empty; numeric = unless_empty; message = λ _. codes "refused" }

-- Redis as a list of keys with the two fields.
abbrev pub Store : Type 0
Store = List (Text × Text × Text)

abbrev hmget : Text → Store → List Value
hmget key [] = nil ∷ nil ∷ []
hmget key ((k, price, ts) ∷ s) = if text_eq k key then str price ∷ str ts ∷ [] else hmget key s

abbrev write : Text → Text → Text → Result Text
write (a ∷ b ∷ c ∷ []) (d ∷ e ∷ f ∷ []) id = ok (a ∷ b ∷ c ∷ d ∷ e ∷ f ∷ id)
write _ _ id = err (Error.failure id)

abbrev marshal : UpdateQuotePayload → Result Text
marshal p = write p.base p.quote p.update_id

abbrev unmarshal : Text → Result UpdateQuotePayload
unmarshal (a ∷ b ∷ c ∷ d ∷ e ∷ f ∷ id) =
    ok (record { update_id = id; base = a ∷ b ∷ c ∷ []; quote = d ∷ e ∷ f ∷ [] })
unmarshal _ = err (Error.failure (codes "unexpected end of JSON input"))

abbrev pub env : Env Store ℕ
env = record {
  pg = pg;
  db_link = λ _. up;
  db_now = λ k. 50 + k;
  now = λ k. 100 + k;
  new_uuid = λ k. (b'a' + k) ∷ [];
  parses_uuid = λ _. true;
  upper = upper;
  format_rfc3339 = decimal;
  parse_rfc3339 = λ s. some (value_from 0 s);
  parse_date = λ _. none;
  hmget = λ _ key s. some (hmget key s);
  hset_expire = λ _ key price ts ttl s. (true, (key, price, ts) ∷ s);
  http_get = λ _ url. answered 200 url;
  decode_er_host = λ _. ok (record { success = true; source = []; quotes = λ _. some 2 });
  decode_frankfurter = λ _. ok (record { amount = 1; base = []; date = []; rates = λ _. some 3 });
  format_float = decimal;
  enqueue = λ _. up;
  marshal = marshal;
  unmarshal = unmarshal;
}

abbrev pub empty_world : World Store
empty_world = record { rows = []; cache = []; tasks = []; tick = 0 }

pub env-MakesUuids : MakesUuids env
env-MakesUuids = record { made = λ k. refl }

write_read :
    (b q id text : Text)
    → write b q id ≡ ok text
    → unmarshal text ≡ ok (record { update_id = id; base = b; quote = q })
write_read b q id text h = ground arith

pub env-RoundTrips : RoundTrips env
env-RoundTrips = record { back = λ p text h. write_read p.base p.quote p.update_id text h }

abbrev pub svc : QuoteService
svc = record { has_cache = true; latest_price_ttl = 600000000000 }

abbrev pub enqueuer : AsynqEnqueuer
enqueuer = record { max_retry = 3; timeout = 30 }

abbrev pub decorator : CachedRatesProviderDecorator
decorator = record { has_cache = true; ttl = 300000000000; provider_name = codes "frankfurter" }

abbrev pub frankfurter : RatesProvider Store
frankfurter =
    frankfurter_get_rate env (record { base_url = codes "https://f"; timeout = 5000000000 })

abbrev pub provider : RatesProvider Store
provider = cached_get_rate env decorator frankfurter

pub provider-IsQuiet : IsQuiet provider
provider-IsQuiet =
    cached_get_rate-Quiet env decorator frankfurter (frankfurter_get_rate-Quiet env _)

-- No provider at all: every call fails.
abbrev pub nobody : RatesProvider Store
nobody = facade_get_rate []

pub nobody-IsQuiet : IsQuiet nobody
nobody-IsQuiet = facade_get_rate-Quiet [] tt

pub read_back : (t : Time) → (t' : Time) × (env.parse_rfc3339 (env.format_rfc3339 t) ≡ some t')
read_back t = (value_from 0 (decimal t), refl)

hmget_last :
    (key price ts : Text) (s : Store)
    → some (hmget key ((key, price, ts) ∷ s)) ≡ some (str price ∷ str ts ∷ [])
hmget_last key price ts s = rw (text_eq_refl key)

pub env-Remembers : (w : World Store) → Remembers env svc provider w
env-Remembers w = record { back = λ key price ts k s h. rw h (hmget_last key price ts s) }
