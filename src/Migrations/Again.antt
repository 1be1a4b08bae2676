-- ===== src/Migrations/Again.antt =====
-- A run of the migrations over a database that has had one.
use exchange_rate_quote_serv.Prelude.{
  ℕ, Text, text_eq, Bool, true, false, List, [], ◌∷◌, any, All, some, ◌≡◌, ◌⊎◌, inl, inr, refl, sym,
  ◌∙◌, arith,
}
use mathlib.Core.Path.{subst}
use exchange_rate_quote_serv.Errors.{Result, ok, err}
use exchange_rate_quote_serv.Repository.Methods.{up}
use exchange_rate_quote_serv.Migrations.{
  Database, File, Server, names, ensure_migrations_table, is_applied, migrate_entry, migrate_file,
  go_on, migrate_files, run_migrations,
}
use exchange_rate_quote_serv.Migrations.Complete.{IsRecorded, IsCovered}

module _ {D : Type 0} (server : Server D) where
  -- Where every file is recorded and no call fails, a run applies nothing.
  module _ (links : (k : ℕ) → server.link k ≡ up) where
    SameTables : Database D → Database D → Type 0
    SameTables d d' = (d'.versions ≡ d.versions) × (d'.schema ≡ d.schema)

    entry_skips :
        (dir : Bool) (f : File) (d : Database D) (vs : List Text)
        → d.versions ≡ some vs
        → (dir ≡ true) ⊎ IsRecorded d f.name
        → ((migrate_entry server dir f d).0 ≡ ok tt) × SameTables d (migrate_entry server dir f d).1
    unfolding SameTables is_applied
    entry_skips true f d vs e h = (refl, (refl, refl))
    entry_skips false f d vs e (inl h) = cc
    entry_skips false f d vs e (inr h) = ground (arith, links d.tick)

    IsCovered-same :
        (fs : List File) (d d' : Database D)
        → SameTables d d'
        → All (IsCovered d) fs
        → All (IsCovered d') fs
    unfolding SameTables
    IsCovered-same fs d d' (ev, es) =
        subst
          (λ v. All (λ (f : File). (f.is_dir ≡ true) ⊎ (any (text_eq f.name) (names v) ≡ true)) fs)
          (sym ev)

    Skips : (Database D → Result (Unit {0}) × Database D) → Database D → Type 0
    Skips m d = ((m d).0 ≡ ok tt) × SameTables d (m d).1

    rest-Skips :
        (fs : List File) (r : Result (Unit {0})) (d e : Database D)
        → r ≡ ok tt
        → SameTables d e
        → Skips (migrate_files server fs) e
        → ((go_on server (migrate_files server fs) r e).0 ≡ ok tt)
          × SameTables d (go_on server (migrate_files server fs) r e).1
    unfolding SameTables Skips
    rest-Skips fs (err x) d e h kept k = cc
    rest-Skips fs (ok _) d e h (sv, ss) (done, (kv, ks)) = (done, (kv ∙ sv, ks ∙ ss))

    files_skip :
        (fs : List File) (d : Database D) (vs : List Text)
        → d.versions ≡ some vs
        → All (IsCovered d) fs
        → Skips (migrate_files server fs) d
    unfolding SameTables Skips migrate_files migrate_file
    files_skip [] d vs e h = (refl, (refl, refl))
    files_skip (f ∷ fs) d vs e (h, hs) =
        let (done, (sv, ss)) = entry_skips f.is_dir f d vs e h in
        let d' = (migrate_file server f d).1 in
        rest-Skips fs (migrate_file server f d).0 d d' done (sv, ss)
          (files_skip fs d' vs (sv ∙ e) (IsCovered-same fs d d' (sv, ss) hs))

    ensure-Skips :
        (d : Database D) (vs : List Text)
        → d.versions ≡ some vs
        → Skips (ensure_migrations_table server) d
    unfolding SameTables Skips ensure_migrations_table
    ensure-Skips d vs e = ground (arith, links d.tick)

    -- If no call fails and the table records every file of the folder, a run of the migrations
    -- returns no error and changes neither the records nor the rest of the database.
    pub run_migrations-skips :
        (fs : List File) (d : Database D) (vs : List Text)
        → d.versions ≡ some vs
        → All (IsCovered d) fs
        → ((run_migrations server (ok fs) d).0 ≡ ok tt)
          × (((run_migrations server (ok fs) d).1.versions ≡ d.versions)
              × ((run_migrations server (ok fs) d).1.schema ≡ d.schema))
    unfolding run_migrations SameTables Skips
    run_migrations-skips fs d vs e h =
        let (done, kept) = ensure-Skips d vs e in
        let d' = (ensure_migrations_table server d).1 in
        rest-Skips fs (ensure_migrations_table server d).0 d d' done kept
          (files_skip fs d' vs (kept.0 ∙ e) (IsCovered-same fs d d' kept h))
