-- ===== src/Store/Integrity/States.antt =====
-- The statements on the states, the audit events, the tokens and the secrets keep the integrity.
use controlai.Prelude.{
  String, Bool, any, ◌≡◌, refl, ◌==◌, some, true, false, not, ◌&&◌, ◌||◌, arith, Bool-cases, inl,
  inr,
}
use controlai.Store.Tables.Keys.{insert-Unique, update-Unique, upsert-Unique}
use controlai.Store.Tables.Statements.{has}
use controlai.Store.Tables.References.{
  insert_child-References, update_child-References, upsert_child-References,
}
use controlai.Store.Rows.{
  DesiredStateRow, Event, TokenRow, TsdbCreds, CaCertRow, CertRow, EmqxApiKey,
}
use controlai.Store.Tenants.{tenant_id_of}
use controlai.Store.Sites.{site_id_of}
use controlai.Store.States.{
  project_of, merge_desired, stamp_desired, put_desired, is_file, put_file_hash,
}
use controlai.Store.Audit.{stored_event, insert_event}
use controlai.Store.Tokens.{token_id_of, hash_of, insert_token, revoke_tokens}
use controlai.Store.Secrets.{
  creds_tenant, setting_name, key_site, merge_creds, put_creds, merge_setting, put_setting,
  merge_key, put_emqx_key,
}
use controlai.Store.Certs.{
  ca_site, cert_id_of, fingerprint_of, merge_ca, put_ca, new_cert, insert_cert, is_live_cert,
  revoke_certs,
}
use controlai.Store.Integrity.Keys.{insert-UniqueFiles, update-UniqueFiles, insert-UniqueEvents}
use controlai.Store.Integrity.Predicate.{Sound, cert_site}

both_false : (a b : Bool) → (a || b) ≡ false → (a ≡ false) × (b ≡ false)
both_false a b h = ground arith

pub put_desired-IsSound : (d : DesiredStateRow) → Sound (λ now t. (put_desired d now t).1)
unfolding put_desired
put_desired-IsSound d now t h = assumption (
    upsert-Unique project_of merge_desired (λ s r. refl) (stamp_desired now d) t.desired_state
      h.desired_keys)

pub put_file_hash-IsSound :
    (project_id file_path hash : String)
    → Sound (λ now t. (put_file_hash project_id file_path hash now t).1)
unfolding put_file_hash
put_file_hash-IsSound project_id file_path hash now t h =
    elim (Bool-cases (any (is_file project_id file_path) t.actual_state_cache)) [
      | inl e ↦ rw e (
          assumption (
            update-UniqueFiles (is_file project_id file_path)
              (λ r. record r { content_hash = hash; updated_at = now }) (λ r. (refl, refl))
              t.actual_state_cache h.file_keys))
      | inr e ↦ rw e (
          assumption (
            insert-UniqueFiles
              (record {
                project_id = project_id;
                file_path = file_path;
                content_hash = hash;
                updated_at = now;
              })
              t.actual_state_cache e h.file_keys))
    ]

pub insert_event-IsSound : (ev : Event) → Sound (λ now t. (insert_event ev now t).1)
unfolding insert_event
insert_event-IsSound ev now t h =
    assumption
      (insert-UniqueEvents (stored_event ev t.next_event_id now) t.audit_events h.event_keys)

pub insert_token-IsSound : (r : TokenRow) → Sound (λ now t. (insert_token r now t).1)
unfolding insert_token
insert_token-IsSound r now t h =
    elim (Bool-cases (has token_id_of r.id t.auth_tokens || has hash_of r.hash t.auth_tokens)) [
      | inl e ↦ rw e h
      | inr e ↦ rw e (
          assumption (
            insert-Unique token_id_of (record r { created_at = now }) t.auth_tokens
                (both_false (has token_id_of r.id t.auth_tokens) (has hash_of r.hash t.auth_tokens)
                  e).0
                h.token_keys,
            insert-Unique hash_of (record r { created_at = now }) t.auth_tokens
                (both_false (has token_id_of r.id t.auth_tokens) (has hash_of r.hash t.auth_tokens)
                  e).1
                h.token_hashes,
          ))
    ]

pub revoke_tokens-IsSound : (id : String) → Sound (λ now t. (revoke_tokens id now t).1)
unfolding revoke_tokens
revoke_tokens-IsSound id now t h =
    let p : TokenRow → Bool = λ r. r.id == id && not r.revoked in
    let f : TokenRow → TokenRow = λ r. record r { revoked = true; revoked_at = some now } in
    assumption (
      update-Unique token_id_of p f (λ r. refl) t.auth_tokens h.token_keys,
      update-Unique hash_of p f (λ r. refl) t.auth_tokens h.token_hashes,
    )

pub put_creds-IsSound : (c : TsdbCreds) → Sound (λ now t. (put_creds c now t).1)
unfolding put_creds
put_creds-IsSound c now t h = elim (Bool-cases (has tenant_id_of c.tenant_id t.tenants)) [
  | inr e ↦ rw e h
  | inl e ↦ rw e (
      assumption (
        upsert-Unique creds_tenant merge_creds (λ s r. refl) c t.tsdb_credentials h.creds_keys,
        upsert_child-References creds_tenant tenant_id_of creds_tenant merge_creds (λ s r. refl) c
            t.tenants t.tsdb_credentials e h.creds_tenants,
      ))
]

pub put_setting-IsSound : (name value : String) → Sound (λ now t. (put_setting name value now t).1)
unfolding put_setting
put_setting-IsSound name value now t h = assumption (
    upsert-Unique setting_name merge_setting (λ s r. refl) (record { name = name; value = value })
      t.settings h.setting_keys)

pub put_emqx_key-IsSound : (k : EmqxApiKey) → Sound (λ now t. (put_emqx_key k now t).1)
unfolding put_emqx_key
put_emqx_key-IsSound k now t h = elim (Bool-cases (has site_id_of k.site_id t.sites)) [
  | inr e ↦ rw e h
  | inl e ↦ rw e (
      assumption (
        upsert-Unique key_site merge_key (λ s r. refl) k t.emqx_api_keys h.emqx_keys,
        upsert_child-References key_site site_id_of key_site merge_key (λ s r. refl) k t.sites
            t.emqx_api_keys e h.emqx_sites,
      ))
]

pub put_ca-IsSound : (r : CaCertRow) → Sound (λ now t. (put_ca r now t).1)
unfolding put_ca
put_ca-IsSound r now t h = elim (Bool-cases (has site_id_of r.site_id t.sites)) [
  | inr e ↦ rw e h
  | inl e ↦ rw e (
      assumption (
        upsert-Unique ca_site merge_ca (λ s r. refl) (record r { created_at = now }) t.cas
            h.ca_keys,
        upsert_child-References ca_site site_id_of ca_site merge_ca (λ s r. refl)
            (record r { created_at = now }) t.sites t.cas e h.ca_sites,
      ))
]

pub insert_cert-IsSound : (r : CertRow) → Sound (λ now t. (insert_cert r now t).1)
unfolding insert_cert
insert_cert-IsSound r now t h =
    elim (Bool-cases (has cert_id_of r.id t.certs || has fingerprint_of r.fingerprint t.certs)) [
      | inl e ↦ rw e h
      | inr e ↦ elim (Bool-cases (has site_id_of r.site_id t.sites)) [
        | inr f ↦ rw (e, f) h
        | inl f ↦
            rw (e, f)
              (assumption (
                insert-Unique cert_id_of (new_cert r now) t.certs
                    (both_false (has cert_id_of r.id t.certs)
                      (has fingerprint_of r.fingerprint t.certs) e).0
                    h.cert_keys,
                insert-Unique fingerprint_of (new_cert r now) t.certs
                    (both_false (has cert_id_of r.id t.certs)
                      (has fingerprint_of r.fingerprint t.certs) e).1
                    h.fingerprints,
                insert_child-References cert_site site_id_of (new_cert r now) t.sites t.certs f
                    h.cert_sites,
              ))
      ]
    ]

pub revoke_certs-IsSound : (fp : String) → Sound (λ now t. (revoke_certs fp now t).1)
unfolding revoke_certs
revoke_certs-IsSound fp now t h =
    let f : CertRow → CertRow = λ r. record r { revoked = true; revoked_at = some now } in
    assumption (
      update-Unique cert_id_of (is_live_cert fp) f (λ r. refl) t.certs h.cert_keys,
      update-Unique fingerprint_of (is_live_cert fp) f (λ r. refl) t.certs h.fingerprints,
      update_child-References cert_site site_id_of (is_live_cert fp) f (λ r. refl) t.sites t.certs
          h.cert_sites,
    )
