-- ===== src/Examples/Outside.antt =====
-- Polling, migrations, pruning, updates, compose calls and the map of desired states at concrete inputs.
use controlai.Prelude.{
  pos, ℕ, ◌+◌, ◌≤◌, length, String, ◌==◌, true, false, ◌≡◌, refl, none, some, List, [], ◌∷◌, leb,
  arith, if◌then◌else◌,
}
use controlai.Config.Slugs.{validate_project_id_http, is_project_char}
use controlai.Files.Disk.{Disk, works, cut_short}
use controlai.Store.Query.{ok}
use controlai.Store.RoundTrips.{quiet}
use controlai.Store.Tenants.{get_tenant, scan_tenant}
use controlai.Store.DesiredMap.{Call, put, get, Refines, answers, answers-Refines, view}
use controlai.Migrate.Migrator.{Yaml, number, migrate_file}
use controlai.Migrate.Versions.{Kept, migrate_file-Kept}
use controlai.Backup.Dumps.{Entry, Dir, prune}
use controlai.Backup.Pruning.{AreDumps, Pruned, prune-Pruned}
use controlai.Daemon.Applying.{ContainerState, Waiting, poll_convergence}
use controlai.Daemon.Polling.{Ended, poll_convergence-Ended}
use controlai.Daemon.Rendering.{Renderer}
use controlai.Daemon.TenantHandlers.{acceptable_project}
use controlai.Daemon.Updates.{both, updating, with_retention, handle_update_tenant-keeps_half}
use controlai.Runner.Compose.{
  Calls, no_calls, count, take_out, lock_project, acquire_slot, Reachable, at_start, locks,
  acquires,
}
use controlai.Runner.Exclusion.{running-Exclusive}
use controlai.Examples.Fixtures.{acme, wanted, one_tenant, faulty_db}

abbrev calls : List Call
calls = put wanted ∷ get "tnt_acme-tsdb" ∷ get "other" ∷ []

desired_map_example : Refines (view one_tenant) calls (answers calls faulty_db)
desired_map_example = answers-Refines (view one_tenant) calls faulty_db (λ j. refl)

-- A clock that each wait moves by two, and a container that starts at the time 6.
abbrev broker_at : ℕ → ContainerState
broker_at now = record { name = "broker"; state = if leb 6 now then "running" else "created" }

abbrev clock : Waiting
clock = record {
  World = ℕ;
  now = λ w. w;
  list = λ w p. (some (broker_at w ∷ []), w);
  wait = λ w. (false, w + 2);
}

polling_example : Ended clock "p" 10 (poll_convergence clock 20 true "p" 10 1)
polling_example =
    poll_convergence-Ended clock (λ w p. omega arith) (λ w. omega arith) "p" 10 19 1 (omega arith)

-- Documents are texts; the version is 1 until a text is set to a newer one.
abbrev plain : Yaml
plain = record {
  Document = String;
  parse = λ s. some s;
  print = λ m. some m;
  version_of = λ m. number (if m == "new" then pos 2 else pos 1);
  set_version = λ v m. "new";
  registry = λ v. some (λ m. some m);
}

-- The disk is full when the migrated text is written.
abbrev full : Disk
full = record { files = ("/tenant.yaml", "old") ∷ []; faults = works ∷ works ∷ cut_short "n" ∷ [] }

migrate_example : Kept plain "/tenant.yaml" "old" (migrate_file plain "/tenant.yaml" (pos 2) full).1
migrate_example = migrate_file-Kept plain "/tenant.yaml" "old" (pos 2) full refl

abbrev dump_of : String → Entry
dump_of name = record { name = name; is_dir = false }

abbrev week : Dir
week = record {
  entries = dump_of "20250102.sql.gz" ∷ dump_of "20250101.sql.gz" ∷ dump_of "notes" ∷ [];
  faults = [];
}

prune_example :
    (names : List String) × AreDumps names week.entries × Pruned 1 names week.entries (prune 1 week)
prune_example = prune-Pruned 1 week refl

abbrev blank : Renderer
blank = record {
  World = List String;
  render_tenant_tsdb = λ ctx c. some [];
  render_site = λ ctx. some [];
  render_traefik_dynamic = λ ctx. some [];
  write_results = λ w dir rs. (true, dir ∷ w);
}

abbrev same_text : String → String
same_text s = s

bad_project : acceptable_project "not an id!" ≡ false
unfolding validate_project_id_http is_project_char
bad_project = refl

half_example :
    ((updating blank same_text "/data" true true
        (λ tid w. w)
        none
        "a"
        "b"
        "tnt_acme"
        (both "30d" "not an id!")
        (quiet 9 one_tenant)
        []).0.0.status
      ≡ 400)
    × ((updating blank same_text "/data" true true
          (λ tid w. w)
          none
          "a"
          "b"
          "tnt_acme"
          (both "30d" "not an id!")
          (quiet 9 one_tenant)
          []).1.1
        ≡ [])
    × ((get_tenant "tnt_acme"
          (updating blank same_text "/data" true true
            (λ tid w. w)
            none
            "a"
            "b"
            "tnt_acme"
            (both "30d" "not an id!")
            (quiet 9 one_tenant)
            []).1.0).0
        ≡ ok (scan_tenant (with_retention "30d" 9 acme)))
half_example =
    handle_update_tenant-keeps_half blank same_text "/data" true true (λ tid w. w) none "a" "b"
      "tnt_acme" "30d" "not an id!" acme 9 one_tenant [] refl refl refl bad_project

-- The command of one project runs, and a call of another waits for the semaphore.
abbrev one_running : Calls
one_running = record {
  locked = "b" ∷ "a" ∷ [];
  taken = 1;
  waiting = "b" ∷ [];
  running = "a" ∷ [];
  leaving = [];
}

abbrev two_running : Calls
two_running = record {
  locked = "b" ∷ "a" ∷ [];
  taken = 2;
  waiting = [];
  running = "b" ∷ "a" ∷ [];
  leaving = [];
}

abbrev a_locked : Calls
a_locked = record { locked = "a" ∷ []; taken = 0; waiting = "a" ∷ []; running = []; leaving = [] }

abbrev a_running : Calls
a_running = record { locked = "a" ∷ []; taken = 1; waiting = []; running = "a" ∷ []; leaving = [] }

two_running-Reachable : Reachable two_running
unfolding lock_project acquire_slot take_out
two_running-Reachable =
    acquires {s = one_running} "b"
      (locks {s = a_running} "b"
        (acquires {s = a_locked} "a" (locks {s = no_calls} "a" at_start refl) refl) refl)
      refl

-- The mutex of a project whose command runs is not to be had.
locked_out : lock_project "a" two_running ≡ none
unfolding lock_project
locked_out = refl

exclusive_example :
    ((p : String) → count p two_running.running ≤ 1)
    × (length two_running.running ≤ 15)
    × (two_running.taken ≡ length two_running.running)
exclusive_example = running-Exclusive two_running two_running-Reachable
