-- ===== src/Migrations/Laws.antt =====
-- The database behind each step of internal/repository/migrations.go.
use exchange_rate_quote_serv.Prelude.{
  Text, text_eq, Bool, true, false, List, [], ◌∷◌, ◌++◌, any, All, some, ◌≡◌, ◌⊎◌, inl, inr, refl,
  sym, ap, ◌∙◌, arith,
}
use exchange_rate_quote_serv.Errors.{Result, ok, err}
use exchange_rate_quote_serv.Migrations.{
  Database, File, Server, Run, names, ensure_migrations_table, is_applied, execute_migration,
  execute_read, read_file, apply_missing, migrate_entry, migrate_file, go_on, migrate_files,
  migrate_dir, run_migrations,
}

abbrev pub Has : List File → File → Type 0
Has [] f = ⊥
Has (g ∷ gs) f = (f ≡ g) ⊎ Has gs f

-- The database is what the scripts of the recorded names have made of `start`, each run once;
-- the script of a name is the content of a file among `sources` that has this name.
pub data Applied {D : Type 0} (server : Server D) (sources : List File) (start : D)
    : List Text → D → Type 0 where
  untouched : Applied server sources start [] start
  and_then :
      {vs vs' : List Text} {s s' : D} (f : File) (script : Text)
      → Applied server sources start vs s
      → Has sources f
      → f.is_dir ≡ false
      → f.content ≡ ok script
      → any (text_eq f.name) vs ≡ false
      → server.exec script s ≡ ok s'
      → vs' ≡ vs ++ f.name ∷ []
      → Applied server sources start vs' s'

module _ {D : Type 0} (server : Server D) where
  abbrev pub IsConsistent : List File → D → Database D → Type 0
  IsConsistent sources start d = Applied server sources start (names d.versions) d.schema

  execute_effect :
      (name script : Text) (d : Database D)
      → let d' = (execute_migration server name script d).1 in
        ((d'.versions ≡ d.versions) × (d'.schema ≡ d.schema))
        ⊎ ((s : D) × (server.exec script d.schema ≡ ok s)
            × (any (text_eq name) (names d.versions) ≡ false)
            × (d'.versions ≡ some (names d.versions ++ name ∷ []))
            × (d'.schema ≡ s))
  unfolding execute_migration
  execute_effect name script d = ground arith

  pub is_applied_keeps :
      (name : Text) (d : Database D)
      → let d' = (is_applied server name d).1 in (d'.versions ≡ d.versions) × (d'.schema ≡ d.schema)
  unfolding is_applied
  is_applied_keeps name d = ground arith

  -- What an entry may do: nothing to the two parts, or record the file's name and run its script.
  pub data Extends (f : File) (d d' : Database D) : Type 0 where
    same : d'.versions ≡ d.versions → d'.schema ≡ d.schema → Extends f d d'
    more :
        (script : Text) {s : D}
        → f.is_dir ≡ false
        → f.content ≡ ok script
        → server.exec script d.schema ≡ ok s
        → any (text_eq f.name) (names d.versions) ≡ false
        → d'.versions ≡ some (names d.versions ++ f.name ∷ [])
        → d'.schema ≡ s
        → Extends f d d'

  Extends-IsConsistent :
      {f : File} {d d' : Database D} (sources : List File) (start : D)
      → Has sources f
      → Extends f d d'
      → IsConsistent sources start d
      → IsConsistent sources start d'
  Extends-IsConsistent sources start known (same ev es) h = rw (ev, es) h
  Extends-IsConsistent {f = f} sources start known (more script file read ran fresh ev es) h =
      rw (ev, es) (and_then f script h known file read fresh ran refl)

  execute-Extends :
      (f : File) (script : Text) (d : Database D)
      → f.is_dir ≡ false
      → f.content ≡ ok script
      → Extends f d (execute_migration server f.name script d).1
  execute-Extends f script d file read = elim (execute_effect f.name script d) [
    | inl (ev, es) ↦ same ev es
    | inr (s, ran, fresh, ev, es) ↦ more script file read ran fresh ev es
  ]

  content_read : (f : File) (script : Text) → read_file server f ≡ ok script → f.content ≡ ok script
  content_read f script h = ground arith

  read-Extends :
      (f : File) (r : Result Text) (d : Database D)
      → f.is_dir ≡ false
      → read_file server f ≡ r
      → Extends f d (execute_read server f r d).1
  read-Extends f (err e) d file h = same refl refl
  read-Extends f (ok script) d file h = execute-Extends f script d file (content_read f script h)

  missing-Extends :
      (f : File) (applied : Result Bool) (d : Database D)
      → f.is_dir ≡ false
      → Extends f d (apply_missing server f applied d).1
  missing-Extends f (err e) d file = same refl refl
  missing-Extends f (ok true) d file = same refl refl
  missing-Extends f (ok false) d file = read-Extends f (read_file server f) d file refl

  -- A step from a database with the same two parts.
  Extends-from :
      {f : File} {d e d' : Database D}
      → e.versions ≡ d.versions
      → e.schema ≡ d.schema
      → Extends f e d'
      → Extends f d d'
  Extends-from ev es (same fv fs) = same (fv ∙ ev) (fs ∙ es)
  Extends-from {d = d} ev es (more script file read ran fresh fv fs) =
      more script file read (ap (server.exec script) (sym es) ∙ ran) (rw ev at fresh) (rw ev at fv)
        fs

  entry-Extends :
      (dir : Bool) (f : File) (d : Database D)
      → f.is_dir ≡ dir
      → Extends f d (migrate_entry server dir f d).1
  entry-Extends true f d file = same refl refl
  entry-Extends false f d file =
      let (ev, es) = is_applied_keeps f.name d in
      Extends-from ev es
        (missing-Extends f (is_applied server f.name d).0 (is_applied server f.name d).1 file)

  pub file-Extends : (f : File) (d : Database D) → Extends f d (migrate_file server f d).1
  unfolding migrate_file
  file-Extends f d = entry-Extends f.is_dir f d refl

  module _ (sources : List File) (start : D) where
    go_on-IsConsistent :
        (rest : Run D (Unit {0})) (r : Result (Unit {0})) (d : Database D)
        → ((e : Database D) → IsConsistent sources start e → IsConsistent sources start (rest e).1)
        → IsConsistent sources start d
        → IsConsistent sources start (go_on server rest r d).1
    go_on-IsConsistent rest (err e) d keep h = h
    go_on-IsConsistent rest (ok _) d keep h = keep d h

    files-IsConsistent :
        (fs : List File) (d : Database D)
        → All (Has sources) fs
        → IsConsistent sources start d
        → IsConsistent sources start (migrate_files server fs d).1
    unfolding migrate_files
    files-IsConsistent [] d known h = h
    files-IsConsistent (f ∷ fs) d (here, known) h =
        go_on-IsConsistent (migrate_files server fs) (migrate_file server f d).0
          (migrate_file server f d).1 (λ e k. files-IsConsistent fs e known k)
          (Extends-IsConsistent sources start here (file-Extends f d) h)

    -- The entries of the folder, where it can be read, are among the sources.
    abbrev pub AreKnown : Result (List File) → Type 0
    AreKnown (err e) = Unit
    AreKnown (ok fs) = All (Has sources) fs

    dir-IsConsistent :
        (dir : Result (List File)) (d : Database D)
        → AreKnown dir
        → IsConsistent sources start d
        → IsConsistent sources start (migrate_dir server dir d).1
    dir-IsConsistent (err e) d known h = h
    dir-IsConsistent (ok fs) d known h = files-IsConsistent fs d known h

    pub ensure_keeps :
        (d : Database D)
        → let d' = (ensure_migrations_table server d).1 in
          (names d'.versions ≡ names d.versions) × (d'.schema ≡ d.schema)
    unfolding ensure_migrations_table
    ensure_keeps d = ground arith

    -- Let the entries of the folder be among given source files. If the database is what their
    -- scripts, one for each recorded name and of a file of that name, have made of its start,
    -- each run once and in the order of the records, then it is so again behind a run of the
    -- migrations, whichever call fails and wherever the run ends.
    pub run_migrations-IsConsistent :
        (dir : Result (List File)) (d : Database D)
        → AreKnown dir
        → IsConsistent sources start d
        → IsConsistent sources start (run_migrations server dir d).1
    unfolding run_migrations
    run_migrations-IsConsistent dir d known h =
        let (ev, es) = ensure_keeps d in
        go_on-IsConsistent (migrate_dir server dir) (ensure_migrations_table server d).0
          (ensure_migrations_table server d).1 (λ e k. dir-IsConsistent dir e known k)
          (rw (ev, es) h)
