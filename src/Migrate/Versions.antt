-- ===== src/Migrate/Versions.antt =====
-- What `MigrateFile` of internal/migrate/yaml/migrator.go leaves of a file.
use controlai.Prelude.{
  ℤ, pos_part, ◌-ℤ◌, leb_ℤ, ◌≡◌, ◌≢◌, ◌⊎◌, inl, inr, refl, sym, ◌∙◌, String, Option, none, some,
  Bool-cases, eq_refl, eq_iff, arith,
}
use controlai.Files.Attempts.{Attempt, done, failed, answer, continue, required, ◌>>=◌}
use controlai.Files.Disk.{
  FileError, Fault, works, fails, cut_short, next_fault, Disk, DiskOp, read_file, write_file,
  writing, reading, content_at-put_content,
}
use controlai.Files.Atomic.{suffix_differs}
use controlai.Files.Frames.{Leaves, file, bind-Leaves, write_file-Leaves}
use controlai.Migrate.Migrator.{
  Yaml, convert, print_failed, parse_failed, schema_version, backup_path, file_result, on_file,
  apply_from, migrate_document, migrate_file,
}

module _ (y : Yaml) (path : String) where
  backup_differs : backup_path path ≢ path
  backup_differs = suffix_differs path ".bak" (omega arith)

  file_result-file :
      {A : Type 0} (p : String) (out : Attempt FileError A × Disk)
      → file p (file_result y out).1 ≡ file p out.1
  file_result-file p (done a, d) = refl
  file_result-file p (failed e, d) = refl

  -- The original text, in the file or beside it.
  abbrev pub Kept : String → Disk → Type 0
  Kept raw d = (file path d ≡ some raw) ⊎ (file (backup_path path) d ≡ some raw)

  on_file-Leaves :
      {A : Type 0} (p : String) (m : DiskOp A) → Leaves (file p) m → Leaves (file p) (on_file y m)
  on_file-Leaves p m l d = file_result-file p (m d) ∙ l d

  convert-Leaves :
      (current target : ℤ) (m : y.Document)
      → Leaves (file (backup_path path)) (convert y path current target m)
  convert-Leaves current target m =
      let bak = file (backup_path path) in
      bind-Leaves bak (answer (apply_from y (pos_part (target -ℤ current)) current m)) _ (λ d. refl)
        (λ m'.
          bind-Leaves bak (answer (required print_failed (y.print m'))) _ (λ d. refl)
            (λ out.
              bind-Leaves bak (on_file y (write_file path out)) _
                (on_file-Leaves (backup_path path) (write_file path out)
                  (write_file-Leaves (backup_path path) path out (λ e. backup_differs (sym e))))
                (λ u d. refl)))

  module _ (raw : String) (target : ℤ) where
    backed_up :
        (current : ℤ) (m : y.Document) (f : Fault) (d : Disk)
        → file path d ≡ some raw
        → Kept raw
            (continue
              (file_result y (writing (backup_path path) raw f d))
              (λ _. convert y path current target m)).1
    backed_up current m works d h = inr (
        convert-Leaves current target m _
        ∙ content_at-put_content (backup_path path) (backup_path path) raw d.files
        ∙ rw (eq_refl (backup_path path)) refl)
    backed_up current m fails d h = inl h
    backed_up current m (cut_short part) d h = inl (
        ground (
          arith,
          content_at-put_content (backup_path path) path part d.files,
          eq_iff (backup_path path) path,
          backup_differs,
          h,
        ))

    migrate_document-Kept :
        (m : y.Document) (d : Disk)
        → file path d ≡ some raw
        → Kept raw (migrate_document y path target raw m d).1
    unfolding write_file
    migrate_document-Kept m d h =
        elim (Bool-cases (leb_ℤ target (schema_version (y.version_of m)))) [
          | inl e ↦ rw e (inl h)
          | inr e ↦ rw e (backed_up (schema_version (y.version_of m)) m (next_fault d.faults) d h)
        ]

    parsed-Kept :
        (o : Option y.Document) (d : Disk)
        → file path d ≡ some raw
        → Kept raw (continue (required parse_failed o, d) (migrate_document y path target raw)).1
    parsed-Kept none d h = inl h
    parsed-Kept (some m) d h = migrate_document-Kept m d h

    read-Kept :
        (f : Fault) (d : Disk)
        → file path d ≡ some raw
        → Kept raw
            (continue (file_result y (reading (some raw) f d)) (λ r.
              ◌>>=◌
                (answer (required parse_failed (y.parse r)))
                (migrate_document y path target r))).1
    read-Kept works d h = parsed-Kept (y.parse raw) _ h
    read-Kept fails d h = inl h
    read-Kept (cut_short part) d h = inl h

    -- Whatever the file system, the YAML library and the transforms do, `MigrateFile` never loses a file: its
    -- text is afterwards in the file or, whole, in the backup beside it.
    pub migrate_file-Kept :
        (d : Disk) → file path d ≡ some raw → Kept raw (migrate_file y path target d).1
    unfolding migrate_file read_file
    migrate_file-Kept d h = rw h (read-Kept (next_fault d.faults) d h)
