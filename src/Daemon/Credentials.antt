-- ===== src/Daemon/Credentials.antt =====
-- When the secrets of internal/daemon/provision.go stay the same, and when they do not.
use controlai.Prelude.{ℕ, String, eq_refl, true, some, [], ◌∷◌, ◌≡◌, refl, Option-cases, inl, inr}
use controlai.Store.Tables.Statements.{lookup, has}
use controlai.Store.Tables.Lookups.{lookup-upsert}
use controlai.Store.Rows.{TsdbCreds, EmqxApiKey, Tables}
use controlai.Store.Query.{ok, run}
use controlai.Store.RoundTrips.{quiet}
use controlai.Store.Tenants.{tenant_id_of}
use controlai.Store.Sites.{site_id_of}
use controlai.Store.Secrets.{
  creds_tenant, merge_creds, put_creds, upsert_tsdb_creds, select_creds, get_tsdb_creds, key_site,
  merge_key, put_emqx_key, upsert_emqx_key, select_emqx_key, get_emqx_key,
}
use controlai.Daemon.Provision.{new_creds, ensure_tsdb_creds, new_key, ensure_emqx_key}

-- For a tenant that is there and where no statement fails, `ensureTSDBCreds` answers credentials, and
-- calling it again, with whatever random texts, answers the same ones.
pub ensure_tsdb_creds-again :
    (p q p' q' tid : String) (now : ℕ) (t : Tables)
    → has tenant_id_of tid t.tenants ≡ true
    → (c : TsdbCreds) × ((ensure_tsdb_creds p q tid (quiet now t)).0 ≡ ok c)
      × ((ensure_tsdb_creds p' q' tid (ensure_tsdb_creds p q tid (quiet now t)).1).0 ≡ ok c)
unfolding ensure_tsdb_creds get_tsdb_creds select_creds upsert_tsdb_creds put_creds run
ensure_tsdb_creds-again p q p' q' tid now t h =
    elim (Option-cases (lookup creds_tenant tid t.tsdb_credentials)) [
      | inl e ↦ (
        new_creds p q tid,
        rw (e, h) refl,
        rw (e, h)
            (rw
              (
                lookup-upsert creds_tenant merge_creds (λ s r. refl) (new_creds p q tid) tid
                    t.tsdb_credentials,
                e,
                eq_refl tid,
              )
              refl),
      )
      | inr (c, e) ↦ (c, rw e refl, rw e (rw e refl))
    ]

-- For a site that is there and where no statement fails, `ensureEMQXKey` answers a key, and calling it
-- again, with whatever random text, answers the same one.
pub ensure_emqx_key-again :
    (secret secret' sid : String) (now : ℕ) (t : Tables)
    → has site_id_of sid t.sites ≡ true
    → (k : EmqxApiKey) × ((ensure_emqx_key secret sid (quiet now t)).0 ≡ ok k)
      × ((ensure_emqx_key secret' sid (ensure_emqx_key secret sid (quiet now t)).1).0 ≡ ok k)
unfolding ensure_emqx_key get_emqx_key select_emqx_key upsert_emqx_key put_emqx_key run
ensure_emqx_key-again secret secret' sid now t h =
    elim (Option-cases (lookup key_site sid t.emqx_api_keys)) [
      | inl e ↦ (
        new_key secret sid,
        rw (e, h) refl,
        rw (e, h)
            (rw
              (
                lookup-upsert key_site merge_key (λ s r. refl) (new_key secret sid) sid
                    t.emqx_api_keys,
                e,
                eq_refl sid,
              )
              refl),
      )
      | inr (k, e) ↦ (k, rw e refl, rw e (rw e refl))
    ]

-- For a tenant that is there with credentials: if the driver fails the read, and nothing after it,
-- `ensureTSDBCreds` puts new passwords in their place.
pub ensure_tsdb_creds-replaces :
    (p q tid : String) (c : TsdbCreds) (now : ℕ) (t : Tables)
    → has tenant_id_of tid t.tenants ≡ true
    → lookup creds_tenant tid t.tsdb_credentials ≡ some c
    → (get_tsdb_creds tid
        (ensure_tsdb_creds p q tid (record { tables = t; now = now; faults = true ∷ [] })).1).0
      ≡ ok (record c { superuser_pass = p; ingest_pass = q })
unfolding ensure_tsdb_creds get_tsdb_creds select_creds upsert_tsdb_creds put_creds run
ensure_tsdb_creds-replaces p q tid c now t h e = rw h (
    rw
      (
        lookup-upsert creds_tenant merge_creds (λ s r. refl) (new_creds p q tid) tid
            t.tsdb_credentials,
        e,
        eq_refl tid,
      )
      refl)
