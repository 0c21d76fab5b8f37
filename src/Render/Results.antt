-- ===== src/Render/Results.antt =====
-- internal/render/render.go: `RenderResult`, `WriteResults` and the names of the Traefik files.
use controlai.Prelude.{String, String_set, List, [], ◌∷◌, map, path, concat}
use controlai.Files.Attempts.{pure, ◌>>◌}
use controlai.Files.Disk.{DiskOp, mkdir_all, write_file, rename}
use controlai.Files.Atomic.{temporary}

pub record RenderResult : Type 0 where
  pub rel_path : String
  pub content : String
  pub hash : String

-- `filepath.Join(baseDir, r.RelPath)`.
abbrev pub target_of : String → RenderResult → String
target_of base r = path (base ∷ r.rel_path ∷ [])

-- One round of the loop of `WriteResults`; `dir` is `filepath.Dir`.
unfoldable pub write_result : (String → String) → String → RenderResult → DiskOp (Unit {0})
write_result dir base r = do
  mkdir_all (dir (target_of base r))
  write_file (temporary (target_of base r)) r.content
  rename (temporary (target_of base r)) (target_of base r)

-- `WriteResults`.
unfoldable pub write_results : (String → String) → String → List RenderResult → DiskOp (Unit {0})
unfolding write_result
write_results dir base [] = pure tt
write_results dir base (r ∷ rs) = do write_result dir base r; write_results dir base rs

-- `RenderTraefikDynamicForSite`: the names of the rendered files; `base_name` is `filepath.Base`.
abbrev pub prefixed : (String → String) → String → RenderResult → RenderResult
prefixed base_name prefix r = record r { rel_path = concat (prefix ∷ base_name r.rel_path ∷ []) }

unfoldable pub traefik_dynamic_for_site :
    (String → String) → String → String → List RenderResult → List RenderResult
traefik_dynamic_for_site base_name tenant_id site_id results =
    map (prefixed base_name (concat (tenant_id ∷ "-" ∷ site_id ∷ "-" ∷ []))) results

pub RenderResult_set : IsSet RenderResult
RenderResult_set = hlevel String_set
