-- ===== src/Store/States.antt =====
-- internal/store/sqlite/store.go: the methods on `desired_state` and `actual_state_cache`.
use controlai.Prelude.{
  text_before, ℕ, String, Bool, ◌&&◌, List, ◌==◌, any, find_first, if◌then◌else◌,
}
use controlai.Store.Tables.Statements.{insert, update, order_by, lookup, upsert}
use controlai.Store.Rows.{DesiredStateRow, FileHashRow}
use controlai.Store.Query.{ok, Query, Statement, run}
use controlai.Store.Tenants.{found}

abbrev pub project_of : DesiredStateRow → String
project_of d = d.project_id

-- ON CONFLICT(project_id) DO UPDATE SET state, config_hash, updated_at.
abbrev pub merge_desired : DesiredStateRow → DesiredStateRow → DesiredStateRow
merge_desired old new = record old {
  state = new.state;
  config_hash = new.config_hash;
  updated_at = new.updated_at;
}

abbrev pub stamp_desired : ℕ → DesiredStateRow → DesiredStateRow
stamp_desired now d = record d { updated_at = now }

unfoldable pub put_desired : DesiredStateRow → Statement Unit
put_desired d now t = (
  ok tt,
  record t {
    desired_state = upsert project_of merge_desired (stamp_desired now d) t.desired_state;
  },
)

unfoldable pub upsert_desired_state : DesiredStateRow → Query Unit
upsert_desired_state d = run (put_desired d)

unfoldable pub select_desired : String → Statement DesiredStateRow
select_desired project_id now t = (found (λ d. d) (lookup project_of project_id t.desired_state), t)

unfoldable pub get_desired_state : String → Query DesiredStateRow
get_desired_state project_id = run (select_desired project_id)

abbrev by_project : DesiredStateRow → DesiredStateRow → Bool
by_project a b = text_before a.project_id b.project_id

unfoldable pub select_all_desired : Statement (List DesiredStateRow)
select_all_desired now t = (ok (order_by by_project t.desired_state), t)

unfoldable pub list_desired_states : Query (List DesiredStateRow)
list_desired_states = run select_all_desired

-- PRIMARY KEY (project_id, file_path).
abbrev pub is_file : String → String → FileHashRow → Bool
is_file project_id file_path r = r.project_id == project_id && r.file_path == file_path

unfoldable pub put_file_hash : String → String → String → Statement Unit
put_file_hash project_id file_path hash now t =
    let row : FileHashRow = record {
      project_id = project_id;
      file_path = file_path;
      content_hash = hash;
      updated_at = now;
    } in
    (
      ok tt,
      record t {
        actual_state_cache =
            if any (is_file project_id file_path) t.actual_state_cache
            then update (is_file project_id file_path)
                (λ r. record r { content_hash = hash; updated_at = now }) t.actual_state_cache
            else insert row t.actual_state_cache;
      },
    )

unfoldable pub upsert_file_hash : String → String → String → Query Unit
upsert_file_hash project_id file_path hash = run (put_file_hash project_id file_path hash)

unfoldable pub select_file_hash : String → String → Statement String
select_file_hash project_id file_path now t = (
  found (λ r. r.content_hash) (find_first (is_file project_id file_path) t.actual_state_cache),
  t,
)

unfoldable pub get_file_hash : String → String → Query String
get_file_hash project_id file_path = run (select_file_hash project_id file_path)

unfoldable pub upsert_combined_hash : String → String → Query Unit
upsert_combined_hash project_id hash = upsert_file_hash project_id "_combined" hash

unfoldable pub get_combined_hash : String → Query String
get_combined_hash project_id = get_file_hash project_id "_combined"
