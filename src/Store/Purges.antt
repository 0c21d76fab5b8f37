-- ===== src/Store/Purges.antt =====
-- What `DeleteTenant` and `DeleteSite` leave behind when they purge.
use controlai.Prelude.{
  ℕ, String, Bool, true, false, false≢true, ◌≡◌, refl, sym, ◌∙◌, eq_iff, List, [], ◌∷◌, ◌==◌, any,
  select, concat, arith, Bool-cases, inl, inr,
}
use mathlib.Core.Path.{subst}
use controlai.Store.Tables.Statements.{delete, has}
use controlai.Store.Tables.Keys.{any-delete}
use controlai.Store.Tables.References.{References}
use controlai.Store.Rows.{FileHashRow, Event, Tables}
use controlai.Store.Triples.{Triple, Holds, run-Triple, then-Triple, transaction-Triple}
use controlai.Store.Keeps.{Keeps, run-Keeps, then-Keeps, transaction-Keeps}
use controlai.Store.Tenants.{
  tenant_id_of, purge_tenant, delete_desired_of_tenant, delete_desired_project, delete_sites,
  delete_tenants,
}
use controlai.Store.Sites.{site_id_of, purge_site, delete_desired_of_site}
use controlai.Store.Secrets.{creds_tenant, key_site}
use controlai.Store.Certs.{ca_site}
use controlai.Store.Integrity.Predicate.{IsSound, site_tenant, cert_site}
use controlai.Store.Integrity.Statements.{
  delete_desired-IsSound, delete_sites-IsSound, delete_tenants-IsSound,
}

any-delete_other :
    {R : Type 0} (p q : R → Bool) (rows : List R)
    → any p rows ≡ false
    → any p (delete q rows) ≡ false
any-delete_other p q [] h = refl
any-delete_other p q (r ∷ rows) h = ground (arith, any-delete_other p q rows)

-- A reference to a row that is not there.
no_reference :
    {C P : Type 0} (fk : C → String) (key : P → String) (k : String) (cs : List C) (ps : List P)
    → References fk key cs ps
    → has key k ps ≡ false
    → any (λ c. fk c == k) cs ≡ false
no_reference fk key k [] ps r h = refl
no_reference fk key k (c ∷ cs) ps r h = elim (Bool-cases (fk c == k)) [
  | inl e ↦
      absurd (
        false≢true
          (sym h ∙ subst (λ (j : String). has key j ps ≡ true) ((eq_iff (fk c) k).0 e) r.0))
  | inr e ↦ rw e (no_reference fk key k cs ps r.1 h)
]

-- The tenant is not registered: no tenant, no site, no desired state stored under its identifier or for
-- its TSDB project, and no TSDB credentials. Audit events, hashes of files, and desired states stored
-- under no tenant are not spoken of.
pub record HasNoTenant (id : String) (t : Tables) : Type 0 where
  pub no_tenant : has tenant_id_of id t.tenants ≡ false
  pub no_sites : any (λ s. site_tenant s == id) t.sites ≡ false
  pub no_desired : any (λ d. d.tenant_id == id) t.desired_state ≡ false
  pub no_tsdb_project :
      any (λ d. d.project_id == concat (id ∷ "-tsdb" ∷ [])) t.desired_state ≡ false
  pub no_creds : any (λ c. creds_tenant c == id) t.tsdb_credentials ≡ false

-- The site is not registered: no site, no desired state stored under its identifier, no CA, certificate or
-- EMQX key. Audit events, hashes of files, and desired states stored under no site are not spoken of.
pub record HasNoSite (id : String) (t : Tables) : Type 0 where
  pub no_site : has site_id_of id t.sites ≡ false
  pub no_desired : any (λ d. d.site_id == id) t.desired_state ≡ false
  pub no_ca : any (λ c. ca_site c == id) t.cas ≡ false
  pub no_certs : any (λ c. cert_site c == id) t.certs ≡ false
  pub no_emqx_key : any (λ k. key_site k == id) t.emqx_api_keys ≡ false

-- The audit events and the hashes of files are as given.
abbrev pub HasRecords : List Event → List FileHashRow → Tables → Type 0
HasRecords events hashes t = (t.audit_events ≡ events) × (t.actual_state_cache ≡ hashes)

delete_tenants-HasRecords :
    (events : List Event) (hashes : List FileHashRow) (id : String) (now : ℕ) (t : Tables)
    → HasRecords events hashes t
    → HasRecords events hashes (delete_tenants id now t).1
unfolding delete_tenants
delete_tenants-HasRecords events hashes id now t h =
    elim (Bool-cases
      (any (λ s. has tenant_id_of (site_tenant s) (select (λ r. r.id == id) t.tenants)) t.sites)) [
        | inl e ↦ rw e h
        | inr e ↦ rw e h
      ]

pub purge_tenant-HasRecords :
    (events : List Event) (hashes : List FileHashRow) (id : String)
    → Keeps (HasRecords events hashes) (purge_tenant id)
unfolding purge_tenant delete_desired_of_tenant delete_desired_project delete_sites
purge_tenant-HasRecords events hashes id = transaction-Keeps _ (
    then-Keeps _ _ (run-Keeps _ (λ now t h. h)) (
      then-Keeps _ _ (run-Keeps _ (λ now t h. h)) (
        then-Keeps _ _ (run-Keeps _ (λ now t h. h))
          (run-Keeps _ (delete_tenants-HasRecords events hashes id)))))

pub purge_site-HasRecords :
    (events : List Event) (hashes : List FileHashRow) (id : String)
    → Keeps (HasRecords events hashes) (purge_site id)
unfolding purge_site delete_desired_of_site delete_sites
purge_site-HasRecords events hashes id =
    transaction-Keeps _ (then-Keeps _ _ (run-Keeps _ (λ now t h. h)) (run-Keeps _ (λ now t h. h)))

module _ (id : String) where
  abbrev NoDesired : Tables → Type 0
  NoDesired t = IsSound t × (any (λ d. d.tenant_id == id) t.desired_state ≡ false)

  abbrev NoProject : Tables → Type 0
  NoProject t =
      NoDesired t × (any (λ d. d.project_id == concat (id ∷ "-tsdb" ∷ [])) t.desired_state ≡ false)

  abbrev NoSites : Tables → Type 0
  NoSites t = NoProject t × (any (λ s. site_tenant s == id) t.sites ≡ false)

  last_step : (now : ℕ) (t : Tables) → NoSites t → Holds (HasNoTenant id) (delete_tenants id now t)
  unfolding delete_tenants
  last_step now t h =
      elim (Bool-cases (
        any (λ s. has tenant_id_of (site_tenant s) (select (λ r. r.id == id) t.tenants)) t.sites)) [
          | inl e ↦ rw e tt
          | inr e ↦
              let sound : IsSound (delete_tenants id now t).1 =
                delete_tenants-IsSound id now t h.0.0.0 in
              let gone = any-delete (λ r. tenant_id_of r == id) t.tenants in
              rw e (record {
                no_tenant = gone;
                no_sites = h.1;
                no_desired = h.0.0.1;
                no_tsdb_project = h.0.1;
                no_creds =
                    no_reference creds_tenant tenant_id_of id _ _ (rw e at sound).creds_tenants
                      gone;
              })
        ]

  pub purge_tenant-Triple : Triple IsSound (HasNoTenant id) (purge_tenant id)
  unfolding purge_tenant delete_desired_of_tenant delete_desired_project delete_sites
  purge_tenant-Triple = transaction-Triple _ (
      then-Triple {Q = NoDesired} _ _
        (run-Triple _ (λ now t h.
          (delete_desired-IsSound _ now t h, any-delete (λ d. d.tenant_id == id) t.desired_state)))
        (then-Triple {Q = NoProject} _ _
          (run-Triple _ (λ now t h. (
            (
              delete_desired-IsSound _ now t h.0,
              any-delete_other (λ d. d.tenant_id == id) _ t.desired_state h.1,
            ),
            any-delete (λ d. d.project_id == concat (id ∷ "-tsdb" ∷ [])) t.desired_state,
          )))
          (then-Triple {Q = NoSites} _ _
            (run-Triple _ (λ now t h. (
              ((delete_sites-IsSound _ now t h.0.0, h.0.1), h.1),
              any-delete (λ s. site_tenant s == id) t.sites,
            )))
            (run-Triple _ last_step))))

  abbrev NoSiteDesired : Tables → Type 0
  NoSiteDesired t = IsSound t × (any (λ d. d.site_id == id) t.desired_state ≡ false)

  last_site_step :
      (now : ℕ) (t : Tables)
      → NoSiteDesired t
      → Holds (HasNoSite id) (delete_sites (λ s. s.id == id) now t)
  unfolding delete_sites
  last_site_step now t h =
      let sound = delete_sites-IsSound (λ s. s.id == id) now t h.0 in
      let gone = any-delete (λ s. site_id_of s == id) t.sites in
      record {
        no_site = gone;
        no_desired = h.1;
        no_ca = no_reference ca_site site_id_of id _ _ sound.ca_sites gone;
        no_certs = no_reference cert_site site_id_of id _ _ sound.cert_sites gone;
        no_emqx_key = no_reference key_site site_id_of id _ _ sound.emqx_sites gone;
      }

  pub purge_site-Triple : Triple IsSound (HasNoSite id) (purge_site id)
  unfolding purge_site delete_desired_of_site
  purge_site-Triple = transaction-Triple _ (
      then-Triple {Q = NoSiteDesired} _ _
        (run-Triple _ (λ now t h.
          (delete_desired-IsSound _ now t h, any-delete (λ d. d.site_id == id) t.desired_state)))
        (run-Triple _ last_site_step))
