-- ===== src/Store/Secrets.antt =====
-- internal/store/sqlite/store.go: TSDB credentials, settings and EMQX keys.
use controlai.Prelude.{String, if◌then◌else◌}
use controlai.Store.Tables.Statements.{has, lookup, upsert}
use controlai.Store.Rows.{TsdbCreds, Setting, EmqxApiKey}
use controlai.Store.Query.{foreign_key_constraint, wrapped, ok, err, Query, Statement, run}
use controlai.Store.Tenants.{tenant_id_of, found}
use controlai.Store.Sites.{site_id_of}

abbrev pub creds_tenant : TsdbCreds → String
creds_tenant c = c.tenant_id

-- ON CONFLICT the names stay and the two passwords change.
abbrev pub merge_creds : TsdbCreds → TsdbCreds → TsdbCreds
merge_creds old new = record old {
  superuser_pass = new.superuser_pass;
  ingest_pass = new.ingest_pass;
}

unfoldable pub put_creds : TsdbCreds → Statement Unit
put_creds c now t =
    if has tenant_id_of c.tenant_id t.tenants
    then (
      ok tt,
      record t { tsdb_credentials = upsert creds_tenant merge_creds c t.tsdb_credentials },
    )
    else (err (wrapped foreign_key_constraint), t)

unfoldable pub upsert_tsdb_creds : TsdbCreds → Query Unit
upsert_tsdb_creds c = run (put_creds c)

unfoldable pub select_creds : String → Statement TsdbCreds
select_creds tenant_id now t =
    (found (λ c. c) (lookup creds_tenant tenant_id t.tsdb_credentials), t)

unfoldable pub get_tsdb_creds : String → Query TsdbCreds
get_tsdb_creds tenant_id = run (select_creds tenant_id)

abbrev pub setting_name : Setting → String
setting_name s = s.name

abbrev pub merge_setting : Setting → Setting → Setting
merge_setting old new = record old { value = new.value }

unfoldable pub select_setting : String → Statement String
select_setting name now t = (found (λ s. s.value) (lookup setting_name name t.settings), t)

unfoldable pub get_setting : String → Query String
get_setting name = run (select_setting name)

unfoldable pub put_setting : String → String → Statement Unit
put_setting name value now t = (
  ok tt,
  record t {
    settings = upsert setting_name merge_setting (record { name = name; value = value }) t.settings;
  },
)

unfoldable pub set_setting : String → String → Query Unit
set_setting name value = run (put_setting name value)

abbrev pub key_site : EmqxApiKey → String
key_site k = k.site_id

abbrev pub merge_key : EmqxApiKey → EmqxApiKey → EmqxApiKey
merge_key old new = record old { key_id = new.key_id; key_secret = new.key_secret }

unfoldable pub put_emqx_key : EmqxApiKey → Statement Unit
put_emqx_key k now t =
    if has site_id_of k.site_id t.sites
    then (ok tt, record t { emqx_api_keys = upsert key_site merge_key k t.emqx_api_keys })
    else (err (wrapped foreign_key_constraint), t)

unfoldable pub upsert_emqx_key : EmqxApiKey → Query Unit
upsert_emqx_key k = run (put_emqx_key k)

unfoldable pub select_emqx_key : String → Statement EmqxApiKey
select_emqx_key site_id now t = (found (λ k. k) (lookup key_site site_id t.emqx_api_keys), t)

unfoldable pub get_emqx_key : String → Query EmqxApiKey
get_emqx_key site_id = run (select_emqx_key site_id)
