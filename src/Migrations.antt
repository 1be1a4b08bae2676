-- ===== src/Migrations.antt =====
-- internal/repository/migrations.go: the SQL files, each in a transaction of its own that also
-- records its name. `D` is all of the database but the table `schema_migrations`.
pub mod Laws
pub mod Complete
pub mod Again
use exchange_rate_quote_serv.Prelude.{
  ℕ, suc, Text, codes, text_eq, Bool, true, false, List, [], ◌∷◌, ◌++◌, any, Option, none, some,
  if◌then◌else◌,
}
use exchange_rate_quote_serv.Errors.{Error, error_text, Result, ok, err}
use exchange_rate_quote_serv.Repository.Methods.{Link, up, lost, unacknowledged}

-- `schema_migrations` is `none` before its creation; the names stand in the order of insertion.
pub record Database (D : Type 0) : Type 0 where
  pub versions : Option (List Text)
  pub schema : D
  pub tick : ℕ

-- An entry of the embedded folder.
pub record File : Type 0 where
  pub name : Text
  pub is_dir : Bool
  pub content : Result Text

abbrev pub Run : Type 0 → Type 0 → Type 0
Run D A = Database D → Result A × Database D

-- `link` is the outcome of each call, and `exec` runs a script, or refuses it and changes nothing.
pub record Server (D : Type 0) : Type 0 where
  pub link : ℕ → Link
  pub exec : Text → D → Result D
  pub refused : Error

-- `fmt.Errorf("<what>: %w", err)`
unfoldable pub because : Text → Error → Error
because what e = Error.failure (what ++ (codes ": " ++ error_text e))

abbrev pub names : Option (List Text) → List Text
names none = []
names (some vs) = vs

abbrev pub is_recorded : Text → Option (List Text) → Bool
is_recorded name vs = any (text_eq name) (names vs)

-- A query of a table that is not there is refused.
abbrev pub exists_version : Error → Text → Option (List Text) → Result Bool
exists_version refused name none = err refused
exists_version refused name (some vs) = ok (any (text_eq name) vs)

-- `INSERT INTO schema_migrations`, whose primary key is the name.
abbrev pub insert_version : Error → Text → Option (List Text) → Result (List Text)
insert_version refused name none = err refused
insert_version refused name (some vs) =
    if any (text_eq name) vs then err refused else ok (vs ++ name ∷ [])

abbrev pub wrap_error : {A : Type 0} → (Error → Error) → Result A → Result A
wrap_error wrap (ok a) = ok a
wrap_error wrap (err e) = err (wrap e)

module _ {D : Type 0} (server : Server D) where
  abbrev pub later : Database D → Database D
  later d = record d { tick = suc d.tick }

  -- One call whose work is `done`, or is lost.
  abbrev pub call :
      {A : Type 0}
      → (Error → Error)
      → Link
      → Result A × Database D
      → Database D
      → Result A × Database D
  call wrap up done d = done
  call wrap (lost why) done d = (err (wrap (Error.failure why)), d)
  call wrap (unacknowledged why) done d = (err (wrap (Error.failure why)), done.1)

  -- `ensureMigrationsTable`
  unfoldable pub ensure_migrations_table : Run D (Unit {0})
  ensure_migrations_table d =
      call (because (codes "create schema_migrations table")) (server.link d.tick)
        (ok tt, record (later d) { versions = some (names d.versions) }) (later d)

  -- `isApplied`
  unfoldable pub is_applied : Text → Run D Bool
  is_applied name d =
      call (because (codes "check migration " ++ name)) (server.link d.tick)
        (
          wrap_error (because (codes "check migration " ++ name))
              (exists_version server.refused name d.versions),
          later d,
        )
        (later d)

  abbrev pub broken : Link → Option Error
  broken up = none
  broken (lost why) = some (Error.failure why)
  broken (unacknowledged why) = some (Error.failure why)

  -- A statement of a transaction: whatever goes wrong, the transaction is rolled back.
  abbrev pub in_tx : {A B : Type 0} → Text → Link → Result A → Database D → (A → Run D B) → Run D B
  in_tx what link done before next d = elim (broken link) [
    | some e ↦ (err (because what e), before)
    | none ↦ elim done [ err e ↦ (err (because what e), before) | ok a ↦ next a d ]
  ]

  -- `tx.Commit`, which ends what the transaction has made of the database.
  abbrev pub commit : Text → Database D → Run D (Unit {0})
  commit name made d =
      call (because (codes "commit migration " ++ name)) (server.link d.tick) (ok tt, made)
        (later d)

  -- `executeMigration`: begin, the script, the record of its name, and the commit.
  unfoldable pub execute_migration : Text → Text → Run D (Unit {0})
  execute_migration name script d =
      let t = d.tick in
      let before = record d { tick = suc (suc (suc t)) } in
      in_tx (codes "begin transaction for migration " ++ name) (server.link t) (ok tt) before
        (λ (_ : Unit {0}).
          in_tx (codes "execute migration " ++ name) (server.link (suc t))
            (server.exec script d.schema) before
            (λ (s : D).
              in_tx (codes "record migration " ++ name) (server.link (suc (suc t)))
                (insert_version server.refused name d.versions) before
                (λ (vs : List Text).
                  commit name
                    (record d { versions = some vs; schema = s; tick = suc (suc (suc (suc t))) }))))
        before

  abbrev pub read_file : File → Result Text
  read_file f = elim f.content [
    | ok script ↦ ok script
    | err e ↦ err (because (codes "read migration file " ++ f.name) e)
  ]

  abbrev pub execute_read : File → Result Text → Run D (Unit {0})
  execute_read f (err e) d = (err e, d)
  execute_read f (ok script) d = execute_migration f.name script d

  -- The body of the loop behind `isApplied`.
  abbrev pub apply_missing : File → Result Bool → Run D (Unit {0})
  apply_missing f (err e) d = (err e, d)
  apply_missing f (ok true) d = (ok tt, d)
  apply_missing f (ok false) d = execute_read f (read_file f) d

  abbrev pub migrate_entry : Bool → File → Run D (Unit {0})
  migrate_entry true f d = (ok tt, d)
  migrate_entry false f d = let (r, d') = is_applied f.name d in apply_missing f r d'

  unfoldable pub migrate_file : File → Run D (Unit {0})
  migrate_file f d = migrate_entry f.is_dir f d

  -- What follows an entry: the next ones, unless there was an error.
  abbrev pub go_on : Run D (Unit {0}) → Result (Unit {0}) → Run D (Unit {0})
  go_on rest (err e) d = (err e, d)
  go_on rest (ok _) d = rest d

  -- The loop over the entries.
  unfoldable pub migrate_files : List File → Run D (Unit {0})
  migrate_files [] d = (ok tt, d)
  migrate_files (f ∷ fs) d = let (r, d') = migrate_file f d in go_on (migrate_files fs) r d'

  abbrev pub migrate_dir : Result (List File) → Run D (Unit {0})
  migrate_dir (err e) d = (err (because (codes "migrations read error") e), d)
  migrate_dir (ok files) d = migrate_files files d

  -- `RunMigrations`
  unfoldable pub run_migrations : Result (List File) → Run D (Unit {0})
  run_migrations dir d = let (r, d') = ensure_migrations_table d in go_on (migrate_dir dir) r d'
