-- ===== src/Store/Integrity/Operations.antt =====
-- Sequences of the store's operations.
use controlai.Prelude.{
  ℕ, String, Bool, true, false, List, [], ◌∷◌, ◌≡◌, refl, ◌==◌, ◌&&◌, Bool-cases, inl, inr,
}
use controlai.Store.Rows.{
  TenantRow, SiteRow, DesiredStateRow, Event, TsdbCreds, CaCertRow, CertRow, EmqxApiKey,
}
use controlai.Store.Query.{
  Result, ok, err, wrapped, unique_constraint, foreign_key_constraint, io_failure, not_found,
  duplicate, Db, Query, pure, ◌>>=◌,
}
use controlai.Store.Keeps.{Keeps, pure-Keeps, run-Keeps, bind-Keeps, then-Keeps, transaction-Keeps}
use controlai.Store.Tenants.{
  as_duplicate, require_rows, ignore_rows, create_tenant, update_tenant_project_id,
  update_tenant_status, update_tenant_retention, delete_tenant, delete_desired_of_tenant,
  delete_desired_project,
}
use controlai.Store.Sites.{
  create_site, update_site_status, update_site, delete_site, delete_desired_of_site,
  set_codec_and_direction,
}
use controlai.Store.States.{upsert_desired_state, upsert_file_hash, upsert_combined_hash}
use controlai.Store.Audit.{emit}
use controlai.Store.Tokens.{create_token, revoke_token}
use controlai.Store.Secrets.{upsert_tsdb_creds, set_setting, upsert_emqx_key}
use controlai.Store.Certs.{store_ca_cert, store_cert, with_id, revoke_cert}
use controlai.Store.Integrity.Predicate.{IsSound}
use controlai.Store.Integrity.Statements.{
  insert_tenant-IsSound, update_tenants-IsSound, delete_desired-IsSound, delete_sites-IsSound,
  delete_tenants-IsSound, insert_site-IsSound, update_sites-IsSound,
}
use controlai.Store.Integrity.States.{
  put_desired-IsSound, put_file_hash-IsSound, insert_event-IsSound, insert_token-IsSound,
  revoke_tokens-IsSound, put_creds-IsSound, put_setting-IsSound, put_emqx_key-IsSound,
  put_ca-IsSound, insert_cert-IsSound, revoke_certs-IsSound,
}

abbrev Safe : {A : Type 0} → Query A → Type 0
Safe q = Keeps IsSound q

as_duplicate-tables : {A : Type 0} (x : Result A × Db) → (as_duplicate x).1 ≡ x.1
as_duplicate-tables (ok a, db) = refl
as_duplicate-tables (err not_found, db) = refl
as_duplicate-tables (err duplicate, db) = refl
as_duplicate-tables (err (wrapped unique_constraint), db) = refl
as_duplicate-tables (err (wrapped foreign_key_constraint), db) = refl
as_duplicate-tables (err (wrapped io_failure), db) = refl

as_duplicate-IsSound : {A : Type 0} (q : Query A) → Safe q → Safe (λ db. as_duplicate (q db))
as_duplicate-IsSound q k = record { at = λ db h. rw (as_duplicate-tables (q db)) (k.at db h) }

-- `RowsAffected` reads nothing and writes nothing.
require_rows-IsSound : (n : ℕ) → Safe (require_rows n)
require_rows-IsSound n = record { at = λ db h. h }

ignore_rows-IsSound : (n : ℕ) → Safe (ignore_rows n)
ignore_rows-IsSound n = record { at = λ db h. h }

-- The methods of `Store` that write, with their arguments.
pub data Operation : Type 0 where
  create_tenant_op : TenantRow → Operation
  update_tenant_project_id_op : String → String → Operation
  update_tenant_status_op : String → String → Operation
  update_tenant_retention_op : String → String → Operation
  delete_tenant_op : String → Bool → Operation
  create_site_op : SiteRow → Operation
  update_site_status_op : String → String → Operation
  update_site_op : String → String → String → Operation
  delete_site_op : String → Bool → Operation
  upsert_desired_state_op : DesiredStateRow → Operation
  upsert_file_hash_op : String → String → String → Operation
  upsert_combined_hash_op : String → String → Operation
  emit_op : Event → Operation
  create_token_op : String → String → String → Operation
  revoke_token_op : String → Operation
  upsert_tsdb_creds_op : TsdbCreds → Operation
  set_setting_op : String → String → Operation
  store_ca_cert_op : CaCertRow → Operation
  store_cert_op : String → CertRow → Operation
  revoke_cert_op : String → Operation
  upsert_emqx_key_op : EmqxApiKey → Operation

abbrev discard : {A : Type 0} → A → Query Unit
discard a = pure tt

module _ (sha256_hex : String → String) where
  pub perform : Operation → Query Unit
  perform (create_tenant_op r) = create_tenant r
  perform (update_tenant_project_id_op id p) = update_tenant_project_id id p
  perform (update_tenant_status_op id s) = update_tenant_status id s
  perform (update_tenant_retention_op id r) = update_tenant_retention id r
  perform (delete_tenant_op id purge) = delete_tenant id purge
  perform (create_site_op s) = create_site s
  perform (update_site_status_op id s) = update_site_status id s
  perform (update_site_op id c d) = update_site id c d
  perform (delete_site_op id purge) = delete_site id purge
  perform (upsert_desired_state_op d) = upsert_desired_state d
  perform (upsert_file_hash_op p f h) = upsert_file_hash p f h
  perform (upsert_combined_hash_op p h) = upsert_combined_hash p h
  perform (emit_op ev) = emit ev
  perform (create_token_op raw id name) = create_token sha256_hex raw id name >>= discard
  perform (revoke_token_op id) = revoke_token id
  perform (upsert_tsdb_creds_op c) = upsert_tsdb_creds c
  perform (set_setting_op n v) = set_setting n v
  perform (store_ca_cert_op r) = store_ca_cert r
  perform (store_cert_op uuid r) = store_cert uuid r
  perform (revoke_cert_op fp) = revoke_cert fp
  perform (upsert_emqx_key_op k) = upsert_emqx_key k

  -- One operation after the other, at whatever times; an error does not stop the next one.
  pub perform_all : List (ℕ × Operation) → Db → Db
  unfolding perform
  perform_all [] db = db
  perform_all ((now, op) ∷ rest) db = perform_all rest (perform op (record db { now = now })).1

  delete_tenant-IsSound : (id : String) (purge : Bool) → Safe (delete_tenant id purge)
  unfolding delete_tenant delete_desired_of_tenant delete_desired_project update_tenant_status
  delete_tenant-IsSound id true = transaction-Keeps _ (
      then-Keeps _ _ (run-Keeps _ (delete_desired-IsSound _)) (
        then-Keeps _ _ (run-Keeps _ (delete_desired-IsSound _)) (
          then-Keeps _ _ (run-Keeps _ (delete_sites-IsSound _))
            (run-Keeps _ (delete_tenants-IsSound id)))))
  delete_tenant-IsSound id false =
      bind-Keeps _ _ (run-Keeps _ (update_tenants-IsSound id _ (λ r. refl))) ignore_rows-IsSound

  delete_site-IsSound : (id : String) (purge : Bool) → Safe (delete_site id purge)
  unfolding delete_site delete_desired_of_site update_site_status
  delete_site-IsSound id true = transaction-Keeps _ (
      then-Keeps _ _ (run-Keeps _ (delete_desired-IsSound _))
        (run-Keeps _ (delete_sites-IsSound _)))
  delete_site-IsSound id false =
      bind-Keeps _ _ (run-Keeps _ (update_sites-IsSound id _ (λ s. refl) (λ s. refl)))
        ignore_rows-IsSound

  update_site-IsSound : (id codec direction : String) → Safe (update_site id codec direction)
  unfolding update_site
  update_site-IsSound id codec direction = elim (Bool-cases (codec == "" && direction == "")) [
    | inl e ↦ rw e (pure-Keeps tt)
    | inr e ↦ rw e (
        bind-Keeps _ _
          (run-Keeps _ (
            update_sites-IsSound id (set_codec_and_direction codec direction) (λ s. refl)
              (λ s. refl)))
          require_rows-IsSound)
  ]

  perform-IsSound : (op : Operation) → Safe (perform op)
  unfolding perform create_tenant update_tenant_project_id update_tenant_status
      update_tenant_retention create_site update_site_status upsert_desired_state upsert_file_hash
      upsert_combined_hash emit create_token revoke_token upsert_tsdb_creds set_setting
      store_ca_cert store_cert revoke_cert upsert_emqx_key
  perform-IsSound (create_tenant_op r) =
      as_duplicate-IsSound _ (run-Keeps _ (insert_tenant-IsSound r))
  perform-IsSound (update_tenant_project_id_op id p) =
      bind-Keeps _ _ (run-Keeps _ (update_tenants-IsSound id _ (λ r. refl))) require_rows-IsSound
  perform-IsSound (update_tenant_status_op id s) =
      bind-Keeps _ _ (run-Keeps _ (update_tenants-IsSound id _ (λ r. refl))) ignore_rows-IsSound
  perform-IsSound (update_tenant_retention_op id r) =
      bind-Keeps _ _ (run-Keeps _ (update_tenants-IsSound id _ (λ r. refl))) require_rows-IsSound
  perform-IsSound (delete_tenant_op id purge) = delete_tenant-IsSound id purge
  perform-IsSound (create_site_op s) = as_duplicate-IsSound _ (run-Keeps _ (insert_site-IsSound s))
  perform-IsSound (update_site_status_op id s) =
      bind-Keeps _ _ (run-Keeps _ (update_sites-IsSound id _ (λ s. refl) (λ s. refl)))
        ignore_rows-IsSound
  perform-IsSound (update_site_op id c d) = update_site-IsSound id c d
  perform-IsSound (delete_site_op id purge) = delete_site-IsSound id purge
  perform-IsSound (upsert_desired_state_op d) = run-Keeps _ (put_desired-IsSound d)
  perform-IsSound (upsert_file_hash_op p f h) = run-Keeps _ (put_file_hash-IsSound p f h)
  perform-IsSound (upsert_combined_hash_op p h) = run-Keeps _ (put_file_hash-IsSound p _ h)
  perform-IsSound (emit_op ev) = run-Keeps _ (insert_event-IsSound ev)
  perform-IsSound (create_token_op raw id name) =
      bind-Keeps _ _ (then-Keeps _ _ (run-Keeps _ (insert_token-IsSound _)) (pure-Keeps _))
        (λ _. pure-Keeps tt)
  perform-IsSound (revoke_token_op id) =
      bind-Keeps _ _ (run-Keeps _ (revoke_tokens-IsSound id)) require_rows-IsSound
  perform-IsSound (upsert_tsdb_creds_op c) = run-Keeps _ (put_creds-IsSound c)
  perform-IsSound (set_setting_op n v) = run-Keeps _ (put_setting-IsSound n v)
  perform-IsSound (store_ca_cert_op r) = run-Keeps _ (put_ca-IsSound r)
  perform-IsSound (store_cert_op uuid r) =
      as_duplicate-IsSound _ (run-Keeps _ (insert_cert-IsSound (with_id uuid r)))
  perform-IsSound (revoke_cert_op fp) =
      bind-Keeps _ _ (run-Keeps _ (revoke_certs-IsSound fp)) require_rows-IsSound
  perform-IsSound (upsert_emqx_key_op k) = run-Keeps _ (put_emqx_key-IsSound k)

  -- From tables with unique keys and no dangling reference, any sequence of the store's writing
  -- methods, at any times and with any pattern of failing statements, ends in such tables.
  pub perform_all-IsSound :
      (ops : List (ℕ × Operation)) (db : Db)
      → IsSound db.tables
      → IsSound (perform_all ops db).tables
  unfolding perform_all
  perform_all-IsSound [] db h = h
  perform_all-IsSound ((now, op) ∷ rest) db h =
      perform_all-IsSound rest (perform op (record db { now = now })).1
        ((perform-IsSound op).at (record db { now = now }) h)
