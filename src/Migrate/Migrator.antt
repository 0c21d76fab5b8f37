-- ===== src/Migrate/Migrator.antt =====
-- `MigrateFile`, `WalkAndMigrate` and `CheckSchemaVersions` of internal/migrate/yaml/migrator.go. The YAML
-- library and the registered transforms are outside: `Yaml` has them.
use Prim.Native.String.{◌++◌ as append}
use controlai.Prelude.{
  ℕ, zero, suc, ℤ, pos, pos_part, ◌-ℤ◌, leb_ℤ, ltb_ℤ, next_ℤ, String, ◌==◌, Bool, true, false, ◌||◌,
  Option, none, some, List, [], ◌∷◌, if◌then◌else◌,
}
use controlai.Files.Attempts.{
  Attempt, done, failed, Op, pure, answer, and_then, required, ◌>>=◌, ◌>>◌,
}
use controlai.Files.Disk.{FileError, Disk, DiskOp, read_file, write_file}

-- What `m["schema_version"]` may hold; a floating-point number as its whole part.
pub data Version : Type 0 where
  missing not_a_number : Version
  number : ℤ → Version

pub record Yaml : Type 1 where
  -- `map[string]any`.
  pub Document : Type 0
  pub parse : String → Option Document
  pub print : Document → Option String
  pub version_of : Document → Version
  -- `m["schema_version"] = v`.
  pub set_version : ℤ → Document → Document
  -- `registry[v]`, and a transform's answer, `none` for its error.
  pub registry : ℤ → Option (Document → Option Document)

pub data MigrateError : Type 0 where
  file_error : FileError → MigrateError
  parse_failed print_failed : MigrateError
  no_migration transform_failed : ℤ → MigrateError

-- `schemaVersion` with its error dropped: 0 where there is none.
unfoldable pub schema_version : Version → ℤ
schema_version missing = pos 0
schema_version not_a_number = pos 0
schema_version (number n) = n

abbrev pub backup_path : String → String
backup_path p = append p ".bak"

module _ (y : Yaml) where
  abbrev pub MigrateOp : Type 0 → Type 0
  MigrateOp A = Op Disk MigrateError A

  abbrev pub file_result : {A : Type 0} → Attempt FileError A × Disk → Attempt MigrateError A × Disk
  file_result (done a, d) = (done a, d)
  file_result (failed e, d) = (failed (file_error e), d)

  abbrev pub on_file : {A : Type 0} → DiskOp A → MigrateOp A
  on_file m d = file_result (m d)

  abbrev pub transformed : ℤ → Option y.Document → Attempt MigrateError y.Document
  transformed v none = failed (transform_failed v)
  transformed v (some m) = done (y.set_version (next_ℤ v) m)

  abbrev pub apply_one :
      ℤ → Option (y.Document → Option y.Document) → y.Document → Attempt MigrateError y.Document
  apply_one v none m = failed (no_migration v)
  apply_one v (some f) m = transformed v (f m)

  -- The loop from the version `v` on, over `steps` versions.
  unfoldable pub apply_from : ℕ → ℤ → y.Document → Attempt MigrateError y.Document
  apply_from zero v m = done m
  apply_from (suc steps) v m =
      and_then (apply_one v (y.registry v) m) (λ m'. apply_from steps (next_ℤ v) m')

  -- What follows the backup.
  abbrev pub convert : String → ℤ → ℤ → y.Document → MigrateOp Bool
  convert path current target m = do
    m' ← answer (apply_from (pos_part (target -ℤ current)) current m)
    out ← answer (required print_failed (y.print m'))
    on_file (write_file path out)
    pure true

  abbrev pub migrate_from : String → String → ℤ → ℤ → y.Document → MigrateOp Bool
  migrate_from path raw current target m = do
    on_file (write_file (backup_path path) raw)
    convert path current target m

  abbrev pub migrate_document : String → ℤ → String → y.Document → MigrateOp Bool
  migrate_document path target raw m =
      let current = schema_version (y.version_of m) in
      if leb_ℤ target current then pure false else migrate_from path raw current target m

  -- `MigrateFile`: whether the file was migrated.
  unfoldable pub migrate_file : String → ℤ → MigrateOp Bool
  unfolding apply_from schema_version
  migrate_file path target = do
    raw ← on_file (read_file path)
    m ← answer (required parse_failed (y.parse raw))
    migrate_document path target raw m

  -- Whether a file that is not to be changed has a version below the target.
  abbrev pub is_behind : String → ℤ → MigrateOp Bool
  is_behind path target = do
    raw ← on_file (read_file path)
    m ← answer (required parse_failed (y.parse raw))
    pure (ltb_ℤ (schema_version (y.version_of m)) target)

  abbrev pub keep_if : String → Bool → List String → List String
  keep_if path true rest = path ∷ rest
  keep_if path false rest = rest

  abbrev pub is_configuration : (String → String) → String → Bool
  is_configuration base_name path = base_name path == "tenant.yaml" || base_name path == "site.yaml"

  abbrev pub visit : ℤ → Bool → String → MigrateOp Bool
  visit target true path = is_behind path target
  visit target false path = migrate_file path target

  -- The files that were changed, with how the walk ended.
  abbrev pub Walked : Type 0
  Walked = (List String × Attempt MigrateError (Unit {0})) × Disk

  abbrev pub with_file : String → Bool → Walked → Walked
  with_file path did ((paths, end), d) = ((keep_if path did paths, end), d)

  -- The first error ends the walk.
  abbrev pub after_visit : String → (Disk → Walked) → Attempt MigrateError Bool × Disk → Walked
  after_visit path next (failed e, d) = (([], failed e), d)
  after_visit path next (done did, d) = with_file path did (next d)

  -- `WalkAndMigrate` over the files in the order of `filepath.WalkDir`, `base_name` being `filepath.Base`.
  unfoldable pub walk_and_migrate : (String → String) → List String → ℤ → Bool → Disk → Walked
  unfolding migrate_file schema_version
  walk_and_migrate base_name [] target dry_run d = (([], done tt), d)
  walk_and_migrate base_name (path ∷ rest) target dry_run d =
      let next = walk_and_migrate base_name rest target dry_run in
      if is_configuration base_name path
      then after_visit path next (visit target dry_run path d)
      else next d

  -- What `CheckSchemaVersions` says of one file.
  pub data Offence : Type 0 where
    unreadable : FileError → Offence
    unparsable : Offence
    too_new : ℤ → Offence

  abbrev pub judge_document : ℤ → Option y.Document → Option Offence
  judge_document most none = some unparsable
  judge_document most (some m) =
      if ltb_ℤ most (schema_version (y.version_of m))
      then some (too_new (schema_version (y.version_of m)))
      else none

  abbrev pub judge_text : ℤ → Attempt FileError String → Option Offence
  judge_text most (failed e) = some (unreadable e)
  judge_text most (done raw) = judge_document most (y.parse raw)

  abbrev pub add_offender :
      String → Option Offence → List (String × Offence) → List (String × Offence)
  add_offender path none rest = rest
  add_offender path (some o) rest = (path, o) ∷ rest

  -- `CheckSchemaVersions`: the offenders; no offender is a nil error.
  unfoldable pub check_schema_versions :
      (String → String) → List String → ℤ → Disk → List (String × Offence) × Disk
  unfolding schema_version
  check_schema_versions base_name [] most d = ([], d)
  check_schema_versions base_name (path ∷ rest) most d =
      let (text, d') = read_file path d in
      let (more, d'') =
        check_schema_versions base_name rest most
          (if is_configuration base_name path then d' else d) in
      (
        if is_configuration base_name path
            then add_offender path (judge_text most text) more
            else more,
        d'',
      )
