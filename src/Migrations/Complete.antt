-- ===== src/Migrations/Complete.antt =====
-- The records of a run of internal/repository/migrations.go.
use exchange_rate_quote_serv.Prelude.{
  Text, text_eq, text_eq_refl, Bool, true, false, List, [], ◌∷◌, ◌++◌, any, All, ◌≡◌, ◌⊎◌, inl, inr,
  refl, arith, Bool-cases,
}
use exchange_rate_quote_serv.Errors.{Result, ok, err}
use exchange_rate_quote_serv.Migrations.{
  Database, File, Server, Run, names, ensure_migrations_table, is_applied, execute_migration,
  execute_read, read_file, apply_missing, migrate_entry, migrate_file, go_on, migrate_files,
  migrate_dir, run_migrations,
}
use exchange_rate_quote_serv.Migrations.Laws.{Extends, same, more, file-Extends}

any-append_left : (p : Text → Bool) (xs ys : List Text) → any p xs ≡ true → any p (xs ++ ys) ≡ true
any-append_left p [] ys h = cc
any-append_left p (x ∷ xs) ys h = ground (arith, any-append_left p xs ys)

any-append_last :
    (p : Text → Bool) (xs : List Text) (y : Text) → p y ≡ true → any p (xs ++ y ∷ []) ≡ true
any-append_last p [] y h = ground arith
any-append_last p (x ∷ xs) y h = ground (arith, any-append_last p xs y)

module _ {D : Type 0} where
  abbrev pub IsRecorded : Database D → Text → Type 0
  IsRecorded d name = any (text_eq name) (names d.versions) ≡ true

  -- Every entry that is a file is recorded.
  abbrev pub IsCovered : Database D → File → Type 0
  IsCovered d f = (f.is_dir ≡ true) ⊎ IsRecorded d f.name

  module _ (server : Server D) where
    Extends-IsRecorded :
        {f : File} {d d' : Database D} (name : Text)
        → Extends server f d d'
        → IsRecorded d name
        → IsRecorded d' name
    Extends-IsRecorded name (same ev es) h = rw ev h
    Extends-IsRecorded {f = f} {d = d} name (more script file read ran fresh ev es) h =
        rw ev (any-append_left (text_eq name) (names d.versions) (f.name ∷ []) h)

    execute_records :
        (name script : Text) (d : Database D)
        → (execute_migration server name script d).0 ≡ ok tt
        → IsRecorded (execute_migration server name script d).1 name
    unfolding execute_migration
    execute_records name script d h =
        ground (arith, any-append_last (text_eq name) (names d.versions) name, text_eq_refl name)

    read_records :
        (f : File) (r : Result Text) (d : Database D)
        → (execute_read server f r d).0 ≡ ok tt
        → IsRecorded (execute_read server f r d).1 f.name
    read_records f (err e) d h = cc
    read_records f (ok script) d h = execute_records f.name script d h

    missing_records :
        (f : File) (r : Result Bool) (d : Database D)
        → (r ≡ ok true → IsRecorded d f.name)
        → (apply_missing server f r d).0 ≡ ok tt
        → IsRecorded (apply_missing server f r d).1 f.name
    missing_records f (err e) d k h = cc
    missing_records f (ok true) d k h = k refl
    missing_records f (ok false) d k h = read_records f (read_file server f) d h

    applied-IsRecorded :
        (name : Text) (d : Database D)
        → (is_applied server name d).0 ≡ ok true
        → IsRecorded (is_applied server name d).1 name
    unfolding is_applied
    applied-IsRecorded name d h = ground arith

    entry_records :
        (dir : Bool) (f : File) (d : Database D)
        → dir ≡ false
        → (migrate_entry server dir f d).0 ≡ ok tt
        → IsRecorded (migrate_entry server dir f d).1 f.name
    entry_records true f d e h = cc
    entry_records false f d e h =
        missing_records f (is_applied server f.name d).0 (is_applied server f.name d).1
          (applied-IsRecorded f.name d) h

    file_records :
        (f : File) (d : Database D)
        → (migrate_file server f d).0 ≡ ok tt
        → IsCovered (migrate_file server f d).1 f
    unfolding migrate_file
    file_records f d h = elim (Bool-cases f.is_dir) [
      | inl dir ↦ inl dir
      | inr file ↦ inr (entry_records f.is_dir f d file h)
    ]

    Grows : Database D → Database D → Type 0
    Grows d d' = (name : Text) → IsRecorded d name → IsRecorded d' name

    Grows-IsCovered : (d d' : Database D) (f : File) → Grows d d' → IsCovered d f → IsCovered d' f
    unfolding Grows
    Grows-IsCovered d d' f h (inl dir) = inl dir
    Grows-IsCovered d d' f h (inr there) = inr (h f.name there)

    go_on-Grows :
        (d : Database D) (rest : Run D (Unit {0})) (r : Result (Unit {0})) (d' : Database D)
        → Grows d d'
        → ((e : Database D) → Grows e (rest e).1)
        → Grows d (go_on server rest r d').1
    unfolding Grows
    go_on-Grows d rest (err e) d' h k = h
    go_on-Grows d rest (ok _) d' h k = λ name there. k d' name (h name there)

    files-Grows : (fs : List File) (d : Database D) → Grows d (migrate_files server fs d).1
    unfolding migrate_files Grows
    files-Grows [] d = λ name there. there
    files-Grows (f ∷ fs) d =
        go_on-Grows d (migrate_files server fs) (migrate_file server f d).0
          (migrate_file server f d).1 (λ name. Extends-IsRecorded name (file-Extends server f d))
          (files-Grows fs)

    rest_covers :
        (f : File) (fs : List File) (r : Result (Unit {0})) (d : Database D)
        → (r ≡ ok tt → IsCovered d f)
        → ((migrate_files server fs d).0 ≡ ok tt → All (IsCovered (migrate_files server fs d).1) fs)
        → (go_on server (migrate_files server fs) r d).0 ≡ ok tt
        → All (IsCovered (go_on server (migrate_files server fs) r d).1) (f ∷ fs)
    rest_covers f fs (err e) d k rest h = cc
    rest_covers f fs (ok _) d k rest h = (Grows-IsCovered d _ f (files-Grows fs d) (k refl), rest h)

    files_cover :
        (fs : List File) (d : Database D)
        → (migrate_files server fs d).0 ≡ ok tt
        → All (IsCovered (migrate_files server fs d).1) fs
    unfolding migrate_files
    files_cover [] d h = tt
    files_cover (f ∷ fs) d h =
        rest_covers f fs (migrate_file server f d).0 (migrate_file server f d).1 (file_records f d)
          (files_cover fs (migrate_file server f d).1) h

    after_table :
        (fs : List File) (r : Result (Unit {0})) (d : Database D)
        → (go_on server (migrate_dir server (ok fs)) r d).0 ≡ ok tt
        → All (IsCovered (go_on server (migrate_dir server (ok fs)) r d).1) fs
    after_table fs (err e) d h = cc
    after_table fs (ok _) d h = files_cover fs d h

    -- A run of the migrations that returns no error leaves the name of every file of the folder
    -- recorded.
    pub run_migrations-IsCovered :
        (fs : List File) (d : Database D)
        → (run_migrations server (ok fs) d).0 ≡ ok tt
        → All (IsCovered (run_migrations server (ok fs) d).1) fs
    unfolding run_migrations
    run_migrations-IsCovered fs d h =
        after_table fs (ensure_migrations_table server d).0 (ensure_migrations_table server d).1 h
