-- ===== src/Backup/Dumps.antt =====
-- internal/backup/pgdump.go: `Run`, `List`, `prune` and the systemd units. The directory of a tenant's dumps
-- is the list of its entries; the names stand for the paths, which have the directory in front. `faults`
-- says, call by call, whether the file system fails.
use controlai.Prelude.{
  ℕ, String, ◌==◌, Bool, true, false, not, ◌&&◌, List, [], ◌∷◌, map, select, any, length, path,
  concat, ltb, text_before, has_suffix, if◌then◌else◌,
}
use controlai.Store.Tables.Statements.{order_by}
use controlai.Files.Attempts.{Attempt, done, failed, Op, ◌>>=◌, continue}
use controlai.Files.Disk.{FileError, not_exist, io_error}

pub record Entry : Type 0 where
  pub name : String
  pub is_dir : Bool

pub record Dir : Type 0 where
  pub entries : List Entry
  pub faults : List Bool

abbrev pub keep_count : ℕ
keep_count = 7

-- `!e.IsDir() && strings.HasSuffix(e.Name(), ".sql.gz")`.
abbrev pub is_dump : Entry → Bool
is_dump e = not e.is_dir && has_suffix e.name ".sql.gz"

abbrev pub name_of : Entry → String
name_of e = e.name

-- The names of the dumps, sorted: the oldest first, as a name is a day.
unfoldable pub dumps : List Entry → List String
dumps entries = order_by text_before (map name_of (select is_dump entries))

abbrev pub DirOp : Type 0 → Type 0
DirOp A = Op Dir FileError A

abbrev pub fails_next : List Bool → Bool
fails_next [] = false
fails_next (f ∷ rest) = f

abbrev pub later : List Bool → List Bool
later [] = []
later (f ∷ rest) = rest

abbrev pub with_entries : List Entry → Dir → Dir
with_entries es d = record { entries = es; faults = later d.faults }

-- `os.ReadDir`.
unfoldable pub read_dir : DirOp (List Entry)
read_dir d =
    (if fails_next d.faults then failed io_error else done d.entries, with_entries d.entries d)

abbrev pub without_name : String → List Entry → List Entry
without_name n es = select (λ e. not (n == e.name)) es

-- `os.Remove`.
abbrev pub removed : Bool → Bool → String → Dir → Attempt FileError (Unit {0}) × Dir
removed true there n d = (failed io_error, with_entries d.entries d)
removed false false n d = (failed not_exist, with_entries d.entries d)
removed false true n d = (done tt, with_entries (without_name n d.entries) d)

unfoldable pub remove : String → DirOp (Unit {0})
remove n d = removed (fails_next d.faults) (any (λ e. n == e.name) d.entries) n d

-- `err != nil && !os.IsNotExist(err)`.
abbrev pub unless_gone : Attempt FileError (Unit {0}) × Dir → Attempt FileError (Unit {0}) × Dir
unless_gone (done u, d) = (done u, d)
unless_gone (failed not_exist, d) = (done tt, d)
unless_gone (failed io_error, d) = (failed io_error, d)

-- The loop of `prune`.
unfoldable pub prune_loop : ℕ → List String → DirOp (Unit {0})
unfolding remove
prune_loop keep [] d = (done tt, d)
prune_loop keep (f ∷ rest) d =
    if ltb keep (length (f ∷ rest))
    then continue (unless_gone (remove f d)) (λ _. prune_loop keep rest)
    else (done tt, d)

-- `prune`.
unfoldable pub prune : ℕ → DirOp (Unit {0})
unfolding read_dir dumps prune_loop
prune keep = do entries ← read_dir; prune_loop keep (dumps entries)

-- `List` of the names; a directory that is not there has none.
abbrev pub listed : Attempt FileError (List Entry) → Attempt FileError (List String)
listed (done es) = done (dumps es)
listed (failed not_exist) = done []
listed (failed io_error) = failed io_error

unfoldable pub list_dumps : Attempt FileError (List Entry) → Attempt FileError (List String)
unfolding dumps
list_dumps found = listed found

-- `backupRoot` and `tenantComposeFile`.
unfoldable pub backup_root : String → String
backup_root root = if root == "" then "/var/backups/controlai" else root

unfoldable pub tenant_compose_file : String → String → String
tenant_compose_file data_dir tid =
    path (data_dir ∷ "tenants" ∷ tid ∷ "tsdb" ∷ "docker-compose.yml" ∷ [])

-- `SystemdTimerUnit`.
unfoldable pub systemd_timer_unit : String → String
systemd_timer_unit tid = concat (
    "[Unit]\nDescription=controlai daily backup for " ∷ tid
    ∷ "\nAfter=controlai.service\n\n[Timer]\nOnCalendar=*-*-* 02:00:00 UTC\nPersistent=true\n"
    ∷ "Unit=controlai-backup@" ∷ tid ∷ ".service\n\n[Install]\nWantedBy=timers.target\n" ∷ [])

pub data DumpError : Type 0 where
  no_compose_file dir_failed start_failed open_failed copy_failed gzip_failed close_failed :
      DumpError
  dump_failed rename_failed : DumpError

-- The steps of `Run` outside the repository, each with whether it succeeds: the compose file and the
-- directory; `docker compose exec … pg_dump` with its exit; the temporary file of an archive, its
-- compressed text and its rename. `dir_of` and `put_dir` read and set a directory of the world.
pub record Dumping : Type 1 where
  pub World : Type 0
  pub stat : World → String → Bool × World
  pub make_dir : World → String → Bool × World
  pub start : World → String → String → Bool × World
  pub create : World → String → Bool × World
  pub copy : World → String → Bool × World
  pub close_gzip : World → String → Bool × World
  pub close_file : World → String → Bool × World
  pub wait_exit : World → Bool × World
  pub rename_file : World → String → String → Bool × World
  pub kill : World → World
  pub remove_file : World → String → World
  pub dir_of : World → String → Dir
  pub put_dir : World → String → Dir → World

module _ (o : Dumping) where
  abbrev pub Ran : Type 0
  Ran = Attempt DumpError String × o.World

  -- `if err != nil { clean up; return }`, and what follows a success.
  abbrev pub or_stop : DumpError → (o.World → o.World) → (o.World → Ran) → Bool × o.World → Ran
  or_stop e clean next (false, w) = (failed e, clean w)
  or_stop e clean next (true, w) = next w

  abbrev pub temporary_of : String → String
  temporary_of out = concat (out ∷ ".tmp" ∷ [])

  abbrev pub drop_temporary : String → o.World → o.World
  drop_temporary out w = o.remove_file w (temporary_of out)

  -- An error of `prune` is a line of the log.
  abbrev pub prune_dir : String → o.World → o.World
  prune_dir dir w = o.put_dir w dir (prune keep_count (o.dir_of w dir)).1

  -- From the start of the dump to the rename; `out` is the archive.
  abbrev pub archive : String → String → o.World → Ran
  archive dir out w =
      or_stop open_failed o.kill
        (λ w1.
          or_stop copy_failed (λ v. drop_temporary out (o.kill v))
            (λ w2.
              or_stop gzip_failed (drop_temporary out)
                (λ w3.
                  or_stop close_failed (drop_temporary out)
                    (λ w4.
                      or_stop dump_failed (drop_temporary out)
                        (λ w5.
                          or_stop rename_failed (drop_temporary out)
                            (λ w6. (done out, prune_dir dir w6))
                            (o.rename_file w5 (temporary_of out) out))
                        (o.wait_exit w4))
                    (o.close_file w3 (temporary_of out)))
                (o.close_gzip w2 (temporary_of out)))
            (o.copy w1 (temporary_of out)))
        (o.create w (temporary_of out))

  -- `Run`; `stamp` is the day, as `20060102`.
  unfoldable pub run_backup : String → String → String → String → o.World → Ran
  unfolding backup_root tenant_compose_file
  run_backup root data_dir stamp tid w =
      let dir = path (backup_root root ∷ tid ∷ []) in
      let compose = tenant_compose_file data_dir tid in
      or_stop no_compose_file (λ v. v)
        (λ w1.
          or_stop dir_failed (λ v. v)
            (λ w2.
              or_stop start_failed (λ v. v)
                (archive dir (path (dir ∷ concat (stamp ∷ ".sql.gz" ∷ []) ∷ [])))
                (o.start w2 (concat (tid ∷ "-tsdb" ∷ [])) compose))
            (o.make_dir w1 dir))
        (o.stat w compose)
