-- ===== src/Examples/Writing.antt =====
-- Rendered files at concrete inputs.
use mathlib.Core.List.Perm
use controlai.Prelude.{◌≡◌, refl, String, some, [], ◌∷◌}
use controlai.Files.Disk.{Disk, works, cut_short}
use controlai.Pki.Frames.{texts-differ}
use controlai.Render.Results.{RenderResult, write_results}
use controlai.Render.Writing.{HasWritten, write_results-HasWritten}
use controlai.Daemon.Rendering.{compute_combined_hash}
use controlai.Daemon.Hashes.{compute_combined_hash-Perm}

abbrev compose : RenderResult
compose = record { rel_path = "docker-compose.yml"; content = "services"; hash = "1" }

abbrev acl : RenderResult
acl = record { rel_path = "acl"; content = "deny"; hash = "2" }

abbrev one_dir : String → String
one_dir p = "/site"

-- The disk is full in the middle of the second file.
abbrev filling : Disk
filling = record {
  files = ("/site/acl", "allow") ∷ [];
  faults = works ∷ works ∷ works ∷ works ∷ cut_short "de" ∷ [];
}

writes_example :
    HasWritten "/site" "/site/acl"
      (compose ∷ acl ∷ [])
      (some "allow")
      (write_results one_dir "/site" (compose ∷ acl ∷ []) filling)
writes_example =
    write_results-HasWritten one_dir "/site" "/site/acl" (compose ∷ acl ∷ []) filling
      (texts-differ _ _ refl, (texts-differ _ _ refl, tt))

abbrev same_text : String → String
same_text s = s

combined_hash_example :
    compute_combined_hash same_text (compose ∷ acl ∷ [])
    ≡ compute_combined_hash same_text (acl ∷ compose ∷ [])
combined_hash_example =
    compute_combined_hash-Perm same_text (compose ∷ acl ∷ []) (acl ∷ compose ∷ [])
      (refl, (refl, tt)) (Perm.swap acl compose [])
