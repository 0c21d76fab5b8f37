-- ===== src/Examples/Records.antt =====
-- The store's theorems at tables with one tenant and its site.
use controlai.Prelude.{ℕ, String, true, not, ◌&&◌, ◌≡◌, refl, if◌then◌else◌, List, [], ◌∷◌, ◌==◌}
use controlai.Store.Tables.Statements.{has}
use controlai.Store.Rows.{Tables}
use controlai.Store.Query.{ok, err, duplicate}
use controlai.Store.Tenants.{
  tenant_id_of, scan_tenant, new_tenant, create_tenant, get_tenant, delete_tenant,
}
use controlai.Store.Sites.{delete_site}
use controlai.Store.States.{upsert_file_hash, get_file_hash}
use controlai.Store.Tokens.{new_token, create_token, lookup_token, revoke_token}
use controlai.Store.Integrity.Predicate.{IsSound}
use controlai.Store.Integrity.Operations.{
  Operation, create_tenant_op, delete_tenant_op, create_site_op, upsert_desired_state_op,
  perform_all, perform_all-IsSound,
}
use controlai.Store.Purges.{HasNoTenant, HasNoSite, HasRecords}
use controlai.Store.Deletions.{
  Settled, delete_tenant-atomic, delete_site-atomic, delete_tenant-succeeds,
}
use controlai.Store.RoundTrips.{quiet, get_tenant-create_tenant}
use controlai.Store.FileHashes.{get_file_hash-upsert}
use controlai.Store.TokenLife.{lookup_token-create_token, lookup_token-revoke_token, without}
use controlai.Examples.Fixtures.{
  plant, wanted, new_row, one_tenant, one_tenant-IsSound, one_tenant_db, faulty_db,
}

-- A stand-in for SHA-256.
abbrev hash : String → String
hash s = s

abbrev history : List (ℕ × Operation)
history =
    (11, create_tenant_op new_row)
    ∷ (12, delete_tenant_op "tnt_acme" true)
    ∷ (13, create_site_op plant)
    ∷ (14, upsert_desired_state_op wanted)
    ∷ []

perform_all_example : IsSound (perform_all hash history faulty_db).tables
perform_all_example = perform_all-IsSound hash history faulty_db one_tenant-IsSound

delete_tenant_example :
    Settled (HasNoTenant "tnt_acme") faulty_db (delete_tenant "tnt_acme" true faulty_db)
    × HasRecords [] [] (delete_tenant "tnt_acme" true faulty_db).1.tables
delete_tenant_example = delete_tenant-atomic "tnt_acme" faulty_db one_tenant-IsSound

delete_site_example :
    Settled (HasNoSite "ste_plant") one_tenant_db (delete_site "ste_plant" true one_tenant_db)
    × HasRecords [] [] (delete_site "ste_plant" true one_tenant_db).1.tables
delete_site_example = delete_site-atomic "ste_plant" one_tenant_db one_tenant-IsSound

delete_succeeds_example : (delete_tenant "tnt_acme" true one_tenant_db).0 ≡ ok tt
delete_succeeds_example = delete_tenant-succeeds "tnt_acme" 10 one_tenant

create_tenant_example :
    ((create_tenant new_row (quiet 9 one_tenant)).0
      ≡ (if has tenant_id_of new_row.id one_tenant.tenants then err duplicate else ok tt))
    × ((get_tenant "tnt_beta" (create_tenant new_row (quiet 9 one_tenant)).1).0 ≡ (
        if not (has tenant_id_of new_row.id one_tenant.tenants) && new_row.id == "tnt_beta"
        then ok (scan_tenant (new_tenant new_row 9))
        else (get_tenant "tnt_beta" (quiet 9 one_tenant)).0))
create_tenant_example = get_tenant-create_tenant new_row "tnt_beta" 9 one_tenant

file_hash_example :
    (get_file_hash "p" "b" (upsert_file_hash "p" "a" "abc" (quiet 9 one_tenant)).1).0 ≡ (
      if "p" == "p" && "a" == "b" then ok "abc" else (get_file_hash "p" "b" (quiet 9 one_tenant)).0)
file_hash_example = get_file_hash-upsert "p" "a" "p" "b" "abc" 9 one_tenant

token_example :
    (lookup_token hash "secret" (create_token hash "secret" "1" "ci" (quiet 9 one_tenant)).1).0
    ≡ ok (record (new_token hash "secret" "1" "ci") { created_at = 9 })
token_example = lookup_token-create_token hash "secret" "1" "ci" 9 one_tenant refl refl

abbrev with_token : Tables
with_token = record one_tenant {
  auth_tokens = record (new_token hash "secret" "1" "ci") { created_at = 9 } ∷ [];
}

revoked_example :
    (lookup_token hash "secret" (revoke_token "1" (quiet 9 with_token)).1).0
    ≡ without "1" (lookup_token hash "secret" (quiet 9 with_token)).0
revoked_example = lookup_token-revoke_token hash "secret" "1" 9 with_token
