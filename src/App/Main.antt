-- ===== src/App/Main.antt =====
-- cmd/app/main.go: the process from its start to its exit.
use exchange_rate_quote_serv.Prelude.{Text, codes, Option, none, some}
use exchange_rate_quote_serv.Errors.{Error, Result, ok, err}
use exchange_rate_quote_serv.Config.{Config}
use exchange_rate_quote_serv.App.Lifecycle.{App}

-- `log.Fatalf` and `Fatalw` end the process with the code 1, and the end of `main` with 0.
pub data Exit : Type 0 where
  fatal : (message : Text) → Error → Exit
  finished : Exit

abbrev pub run_app : Option Error → Exit
run_app none = finished
run_app (some e) = fatal (codes "Application error") e

abbrev pub with_app : (App → Option Error) → Result App → Exit
with_app run (err e) = fatal (codes "Failed to initialize app") e
with_app run (ok app) = run_app (run app)

abbrev pub with_logger : Result App → (App → Option Error) → Option Error → Exit
with_logger made run (some e) = fatal (codes "Failed to init logger") e
with_logger made run none = with_app run made

abbrev pub with_config :
    Option Error → (Config → Result App) → (App → Option Error) → Result Config → Exit
with_config logger new_app run (err e) = fatal (codes "Failed to load config") e
with_config logger new_app run (ok cfg) = with_logger (new_app cfg) run logger

-- `main`, with what `LoadConfig`, `zap.NewProduction`, `NewApp` and `Run` return.
unfoldable pub main :
    Result Config → Option Error → (Config → Result App) → (App → Option Error) → Exit
main loaded logger new_app run = with_config logger new_app run loaded
