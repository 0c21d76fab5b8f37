-- ===== src/Store/Integrity/Statements.antt =====
-- The statements on the tenants and the sites keep the integrity.
use controlai.Prelude.{String, Bool, ◌≡◌, ◌==◌, any, select, Bool-cases, inl, inr}
use controlai.Store.Tables.Keys.{insert-Unique, update-Unique, delete-Unique}
use controlai.Store.Tables.Statements.{has, delete}
use controlai.Store.Tables.References.{
  insert_parent-References, update_parent-References, insert_child-References,
  update_child-References, delete_child-References, restrict-References, cascade-References,
  cascade-Unique,
}
use controlai.Store.Rows.{TenantRecord, TenantRow, SiteRow, DesiredStateRow}
use controlai.Store.Tenants.{
  tenant_id_of, new_tenant, insert_tenant, update_tenants, delete_sites, delete_tenants,
}
use controlai.Store.Sites.{site_id_of, new_site, insert_site, update_sites}
use controlai.Store.States.{project_of}
use controlai.Store.Secrets.{creds_tenant, key_site}
use controlai.Store.Certs.{ca_site, cert_id_of, fingerprint_of}
use controlai.Store.Integrity.Predicate.{Sound, site_tenant, cert_site}

pub insert_tenant-IsSound : (r : TenantRow) → Sound (λ now t. (insert_tenant r now t).1)
unfolding insert_tenant
insert_tenant-IsSound r now t h = elim (Bool-cases (has tenant_id_of r.id t.tenants)) [
  | inl e ↦ rw e h
  | inr e ↦ rw e (
      assumption (
        insert-Unique tenant_id_of (new_tenant r now) t.tenants e h.tenant_keys,
        insert_parent-References site_tenant tenant_id_of (new_tenant r now) t.tenants t.sites
            h.site_tenants,
        insert_parent-References _ tenant_id_of (new_tenant r now) t.tenants t.tsdb_credentials
            h.creds_tenants,
      ))
]

pub update_tenants-IsSound :
    (id : String) (f : TenantRecord → TenantRecord)
    → ((r : TenantRecord) → (f r).id ≡ r.id)
    → Sound (λ now t. (update_tenants id f now t).1)
unfolding update_tenants
update_tenants-IsSound id f keep now t h = assumption (
  update-Unique tenant_id_of (λ r. r.id == id) (λ r. record (f r) { updated_at = now }) keep
      t.tenants h.tenant_keys,
  update_parent-References site_tenant tenant_id_of (λ r. r.id == id)
      (λ r. record (f r) { updated_at = now }) keep t.tenants t.sites h.site_tenants,
  update_parent-References creds_tenant tenant_id_of (λ r. r.id == id)
      (λ r. record (f r) { updated_at = now }) keep t.tenants t.tsdb_credentials h.creds_tenants,
)

pub delete_desired-IsSound :
    (p : DesiredStateRow → Bool)
    → Sound (λ now t. record t { desired_state = delete p t.desired_state })
delete_desired-IsSound p now t h =
    assumption (delete-Unique project_of p t.desired_state h.desired_keys)

pub delete_sites-IsSound : (p : SiteRow → Bool) → Sound (λ now t. (delete_sites p now t).1)
unfolding delete_sites
delete_sites-IsSound p now t h = assumption (
  delete-Unique site_id_of p t.sites h.site_keys,
  cascade-Unique ca_site site_id_of ca_site p t.sites t.cas h.ca_keys,
  cascade-Unique cert_site site_id_of cert_id_of p t.sites t.certs h.cert_keys,
  cascade-Unique cert_site site_id_of fingerprint_of p t.sites t.certs h.fingerprints,
  cascade-Unique key_site site_id_of key_site p t.sites t.emqx_api_keys h.emqx_keys,
  delete_child-References site_tenant tenant_id_of p t.tenants t.sites h.site_tenants,
  cascade-References ca_site site_id_of p t.sites t.cas h.ca_sites,
  cascade-References cert_site site_id_of p t.sites t.certs h.cert_sites,
  cascade-References key_site site_id_of p t.sites t.emqx_api_keys h.emqx_sites,
)

pub delete_tenants-IsSound : (id : String) → Sound (λ now t. (delete_tenants id now t).1)
unfolding delete_tenants
delete_tenants-IsSound id now t h =
    elim (Bool-cases
      (any (λ s. has tenant_id_of (site_tenant s) (select (λ r. r.id == id) t.tenants)) t.sites)) [
        | inl e ↦ rw e h
        | inr e ↦ rw e (
            assumption (
              delete-Unique tenant_id_of (λ r. r.id == id) t.tenants h.tenant_keys,
              cascade-Unique creds_tenant tenant_id_of creds_tenant (λ r. r.id == id) t.tenants
                  t.tsdb_credentials h.creds_keys,
              restrict-References site_tenant tenant_id_of (λ r. r.id == id) t.tenants t.sites e
                  h.site_tenants,
              cascade-References creds_tenant tenant_id_of (λ r. r.id == id) t.tenants
                  t.tsdb_credentials h.creds_tenants,
            ))
      ]

pub insert_site-IsSound : (s : SiteRow) → Sound (λ now t. (insert_site s now t).1)
unfolding insert_site
insert_site-IsSound s now t h = elim (Bool-cases (has site_id_of s.id t.sites)) [
  | inl e ↦ rw e h
  | inr e ↦ elim (Bool-cases (has tenant_id_of s.tenant_id t.tenants)) [
    | inr f ↦ rw (e, f) h
    | inl f ↦
        rw (e, f)
          (assumption (
            insert-Unique site_id_of (new_site s now) t.sites e h.site_keys,
            insert_child-References site_tenant tenant_id_of (new_site s now) t.tenants t.sites f
                h.site_tenants,
            insert_parent-References ca_site site_id_of (new_site s now) t.sites t.cas h.ca_sites,
            insert_parent-References cert_site site_id_of (new_site s now) t.sites t.certs
                h.cert_sites,
            insert_parent-References key_site site_id_of (new_site s now) t.sites t.emqx_api_keys
                h.emqx_sites,
          ))
  ]
]

pub update_sites-IsSound :
    (id : String) (f : SiteRow → SiteRow)
    → ((s : SiteRow) → (f s).id ≡ s.id)
    → ((s : SiteRow) → (f s).tenant_id ≡ s.tenant_id)
    → Sound (λ now t. (update_sites id f now t).1)
unfolding update_sites
update_sites-IsSound id f keep keep_tenant now t h =
    let g : SiteRow → SiteRow = λ s. record (f s) { updated_at = now } in
    let p : SiteRow → Bool = λ s. s.id == id in
    assumption (
      update-Unique site_id_of p g keep t.sites h.site_keys,
      update_child-References site_tenant tenant_id_of p g keep_tenant t.tenants t.sites
          h.site_tenants,
      update_parent-References ca_site site_id_of p g keep t.sites t.cas h.ca_sites,
      update_parent-References cert_site site_id_of p g keep t.sites t.certs h.cert_sites,
      update_parent-References key_site site_id_of p g keep t.sites t.emqx_api_keys h.emqx_sites,
    )
