-- ===== src/Tests/Migrating.antt =====
-- Two migrations, of which the second is applied in a later run.
use exchange_rate_quote_serv.Prelude.{
  Text, codes, inl, inr, text_eq, List, [], ◌∷◌, ◌++◌, All, none, ◌≡◌, true, false, refl,
}
use exchange_rate_quote_serv.Errors.{Error, ok, err}
use exchange_rate_quote_serv.Repository.Methods.{up}
use exchange_rate_quote_serv.Migrations.{
  Database, File, Server, run_migrations, ensure_migrations_table, is_applied, execute_migration,
  migrate_file, migrate_files,
}
use exchange_rate_quote_serv.Migrations.Laws.{IsConsistent, untouched, run_migrations-IsConsistent}
use exchange_rate_quote_serv.Migrations.Complete.{IsCovered, run_migrations-IsCovered}
use exchange_rate_quote_serv.Migrations.Again.{run_migrations-skips}

run : Unit {0}
unfolding run_migrations ensure_migrations_table is_applied execute_migration migrate_file
    migrate_files text_eq
run = tt

-- The schema as the scripts that have run.
abbrev server : Server (List Text)
server = record {
  link = λ _. up;
  exec = λ script s. ok (s ++ script ∷ []);
  refused = Error.failure (codes "refused");
}

abbrev fresh : Database (List Text)
fresh = record { versions = none; schema = []; tick = 0 }

abbrev files : List File
files =
    record {
      name = codes "001_init.sql";
      is_dir = false;
      content = ok (codes "CREATE TABLE quotes");
    }
    ∷ record { name = codes "old"; is_dir = true; content = err (Error.failure []) }
    ∷ record { name = codes "002_more.sql"; is_dir = false; content = ok (codes "CREATE INDEX") }
    ∷ []

run_migrations-IsConsistent_example :
    IsConsistent server files [] (run_migrations server (ok files) fresh).1
run_migrations-IsConsistent_example =
    run_migrations-IsConsistent server files [] (ok files) fresh
      (inl refl, (inr (inl refl), (inr (inr (inl refl)), tt))) untouched

run_migrations-IsCovered_example : All (IsCovered (run_migrations server (ok files) fresh).1) files
unfolding run
run_migrations-IsCovered_example = run_migrations-IsCovered server files fresh refl

abbrev migrated : Database (List Text)
migrated = (run_migrations server (ok files) fresh).1

run_migrations-skips_example :
    ((run_migrations server (ok files) migrated).0 ≡ ok tt)
    × (((run_migrations server (ok files) migrated).1.versions ≡ migrated.versions)
        × ((run_migrations server (ok files) migrated).1.schema ≡ migrated.schema))
unfolding run
run_migrations-skips_example =
    run_migrations-skips server (λ _. refl) files migrated
      (codes "001_init.sql" ∷ codes "002_more.sql" ∷ []) refl
      (run_migrations-IsCovered server files fresh refl)
