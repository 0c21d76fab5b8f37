-- ===== src/Daemon/Provision.antt =====
-- internal/daemon/provision.go: `ensureTSDBCreds` and `ensureEMQXKey`. The random texts are arguments.
use controlai.Prelude.{String, concat, [], ◌∷◌}
use controlai.Store.Rows.{TsdbCreds, EmqxApiKey}
use controlai.Store.Query.{Result, ok, err, Db, Query, pure, ◌>>◌}
use controlai.Store.Secrets.{get_tsdb_creds, upsert_tsdb_creds, get_emqx_key, upsert_emqx_key}

abbrev pub new_creds : String → String → String → TsdbCreds
new_creds superuser_pass ingest_pass tenant_id = record {
  tenant_id = tenant_id;
  superuser_name = "controlai_admin";
  superuser_pass = superuser_pass;
  ingest_name = "controlai_ingest";
  ingest_pass = ingest_pass;
}

-- `if err == nil { return … }`: every error counts as absence.
abbrev pub or_new_creds : TsdbCreds → Result TsdbCreds × Db → Result TsdbCreds × Db
or_new_creds c (ok creds, db) = (ok creds, db)
or_new_creds c (err e, db) = (upsert_tsdb_creds c >> pure c) db

unfoldable pub ensure_tsdb_creds : String → String → String → Query TsdbCreds
ensure_tsdb_creds superuser_pass ingest_pass tenant_id db =
    or_new_creds (new_creds superuser_pass ingest_pass tenant_id) (get_tsdb_creds tenant_id db)

abbrev pub new_key : String → String → EmqxApiKey
new_key secret site_id = record {
  site_id = site_id;
  key_id = concat ("controlai-" ∷ site_id ∷ []);
  key_secret = secret;
}

abbrev pub or_new_key : EmqxApiKey → Result EmqxApiKey × Db → Result EmqxApiKey × Db
or_new_key k (ok key, db) = (ok key, db)
or_new_key k (err e, db) = (upsert_emqx_key k >> pure k) db

unfoldable pub ensure_emqx_key : String → String → Query EmqxApiKey
ensure_emqx_key secret site_id db = or_new_key (new_key secret site_id) (get_emqx_key site_id db)
