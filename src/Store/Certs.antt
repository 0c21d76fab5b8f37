-- ===== src/Store/Certs.antt =====
-- internal/store/sqlite/store.go: certificate authorities and issued certificates. The UUID that
-- `StoreCert` draws for a row with no id, and the cutoff of `ListExpiringCerts`, are arguments.
use controlai.Prelude.{
  ℕ, String, Bool, true, false, not, ◌&&◌, ◌||◌, none, some, List, ◌==◌, leb, length, select,
  if◌then◌else◌,
}
use controlai.Store.Tables.Statements.{insert, update, order_by, has, lookup, upsert}
use controlai.Store.Rows.{CaCertRow, CertRow}
use controlai.Store.Query.{
  unique_constraint, foreign_key_constraint, wrapped, ok, err, Query, Statement, run, ◌>>=◌,
}
use controlai.Store.Tenants.{as_duplicate, found, require_rows}
use controlai.Store.Sites.{site_id_of}

abbrev pub ca_site : CaCertRow → String
ca_site r = r.site_id

abbrev pub merge_ca : CaCertRow → CaCertRow → CaCertRow
merge_ca old new = record new { site_id = old.site_id; created_at = old.created_at }

unfoldable pub put_ca : CaCertRow → Statement Unit
put_ca r now t =
    if has site_id_of r.site_id t.sites
    then (ok tt, record t { cas = upsert ca_site merge_ca (record r { created_at = now }) t.cas })
    else (err (wrapped foreign_key_constraint), t)

unfoldable pub store_ca_cert : CaCertRow → Query Unit
store_ca_cert r = run (put_ca r)

unfoldable pub select_ca : String → Statement CaCertRow
select_ca site_id now t = (found (λ r. r) (lookup ca_site site_id t.cas), t)

unfoldable pub get_ca_cert : String → Query CaCertRow
get_ca_cert site_id = run (select_ca site_id)

abbrev pub cert_id_of : CertRow → String
cert_id_of r = r.id

abbrev pub fingerprint_of : CertRow → String
fingerprint_of r = r.fingerprint

abbrev pub with_id : String → CertRow → CertRow
with_id uuid r = record r { id = if r.id == "" then uuid else r.id }

abbrev pub new_cert : CertRow → ℕ → CertRow
new_cert r now = record r { revoked = false; revoked_at = none; created_at = now }

unfoldable pub insert_cert : CertRow → Statement Unit
insert_cert r now t =
    if has cert_id_of r.id t.certs || has fingerprint_of r.fingerprint t.certs
    then (err (wrapped unique_constraint), t)
    else if has site_id_of r.site_id t.sites
    then (ok tt, record t { certs = insert (new_cert r now) t.certs })
    else (err (wrapped foreign_key_constraint), t)

unfoldable pub store_cert : String → CertRow → Query Unit
store_cert uuid r db = as_duplicate (run (insert_cert (with_id uuid r)) db)

unfoldable pub select_cert : String → Statement CertRow
select_cert fingerprint now t = (found (λ r. r) (lookup fingerprint_of fingerprint t.certs), t)

unfoldable pub get_cert_by_fingerprint : String → Query CertRow
get_cert_by_fingerprint fingerprint = run (select_cert fingerprint)

abbrev newest_first : CertRow → CertRow → Bool
newest_first a b = leb b.created_at a.created_at

unfoldable pub select_certs_of : String → String → Statement (List CertRow)
select_certs_of site_id kind now t = (
  ok (
      order_by newest_first (
        select (λ r. r.site_id == site_id && (not r.revoked && (kind == "" || r.kind == kind)))
          t.certs)),
  t,
)

unfoldable pub list_certs_by_site : String → String → Query (List CertRow)
list_certs_by_site site_id kind = run (select_certs_of site_id kind)

-- UPDATE certs SET revoked=1 WHERE fingerprint=? AND revoked=0.
abbrev pub is_live_cert : String → CertRow → Bool
is_live_cert fingerprint r = r.fingerprint == fingerprint && not r.revoked

unfoldable pub revoke_certs : String → Statement ℕ
revoke_certs fingerprint now t = (
  ok (length (select (is_live_cert fingerprint) t.certs)),
  record t {
    certs =
        update (is_live_cert fingerprint) (λ r. record r { revoked = true; revoked_at = some now })
          t.certs;
  },
)

unfoldable pub revoke_cert : String → Query Unit
revoke_cert fingerprint = do n ← run (revoke_certs fingerprint); require_rows n

unfoldable pub select_expiring : ℕ → Statement (List CertRow)
select_expiring cutoff now t = (
  ok (
      order_by (λ a b. leb a.not_after b.not_after)
        (select (λ r. not r.revoked && leb r.not_after cutoff) t.certs)),
  t,
)

unfoldable pub list_expiring_certs : ℕ → Query (List CertRow)
list_expiring_certs cutoff = run (select_expiring cutoff)
