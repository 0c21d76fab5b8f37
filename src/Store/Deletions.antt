-- ===== src/Store/Deletions.antt =====
-- The answers of `DeleteTenant` and `DeleteSite` with purge.
use controlai.Prelude.{
  ℕ, String, true, false, ◌≡◌, refl, ◌⊎◌, inl, inr, List, [], ◌∷◌, ◌==◌, eq_iff, any, select, arith,
}
use controlai.Store.Tables.Statements.{delete, has}
use controlai.Store.Tables.Keys.{any-delete}
use controlai.Store.Rows.{Tables}
use controlai.Store.Query.{StoreError, Result, ok, err, Db, run, transaction}
use controlai.Store.Triples.{Holds, After, transaction-restores}
use controlai.Store.Tenants.{
  tenant_id_of, delete_tenant, purge_tenant, delete_desired_of_tenant, delete_desired_project,
  delete_sites, delete_tenants,
}
use controlai.Store.Sites.{delete_site, purge_site}
use controlai.Store.Integrity.Predicate.{IsSound, site_tenant}
use controlai.Store.Purges.{
  HasNoTenant, HasNoSite, HasRecords, purge_tenant-Triple, purge_site-Triple,
  purge_tenant-HasRecords, purge_site-HasRecords,
}

-- The two ways in which a transaction that establishes Q can end.
abbrev pub Settled : (Tables → Type 0) → Db → Result (Unit {0}) × Db → Type 0
Settled Q db x =
    (x.0 ≡ ok tt) × Q x.1.tables ⊎ ((e : StoreError) × (x.0 ≡ err e) × (x.1.tables ≡ db.tables))

settle :
    (Q : Tables → Type 0) (db : Db) (x : Result (Unit {0}) × Db)
    → Holds (After Q) x
    → ((e : StoreError) → x.0 ≡ err e → x.1.tables ≡ db.tables)
    → Settled Q db x
settle Q db (ok u, db') h restore = inl (refl, h)
settle Q db (err e, db') h restore = inr (e, refl, restore e refl)

-- A purge of a tenant on sound tables either answers without an error, and then there is no tenant with
-- its identifier, no site of it, no desired state stored under its tenant_id or for its TSDB project, and
-- no TSDB credentials of it; or it answers with an error, and then every table is as it was. The audit
-- events and the hashes of files are as they were in both cases.
pub delete_tenant-atomic :
    (id : String) (db : Db)
    → IsSound db.tables
    → Settled (HasNoTenant id) db (delete_tenant id true db)
      × HasRecords db.tables.audit_events db.tables.actual_state_cache
          (delete_tenant id true db).1.tables
unfolding delete_tenant purge_tenant
delete_tenant-atomic id db h = (
  settle (HasNoTenant id) db (delete_tenant id true db) ((purge_tenant-Triple id).at db h)
      (transaction-restores _ db),
  (purge_tenant-HasRecords db.tables.audit_events db.tables.actual_state_cache id).at db
      (refl, refl),
)

-- A purge of a site on sound tables either answers without an error, and then there is no site with its
-- identifier, no desired state stored under its site_id, and no CA, certificate or EMQX key of it; or it
-- answers with an error, and then every table is as it was. The audit events and the hashes of files are
-- as they were in both cases.
pub delete_site-atomic :
    (id : String) (db : Db)
    → IsSound db.tables
    → Settled (HasNoSite id) db (delete_site id true db)
      × HasRecords db.tables.audit_events db.tables.actual_state_cache
          (delete_site id true db).1.tables
unfolding delete_site purge_site
delete_site-atomic id db h = (
  settle (HasNoSite id) db (delete_site id true db) ((purge_site-Triple id).at db h)
      (transaction-restores _ db),
  (purge_site-HasRecords db.tables.audit_events db.tables.actual_state_cache id).at db (refl, refl),
)

-- The foreign key of sites restricts the deletion of a tenant, and a purge removes the sites first.
select_key :
    {R : Type 0} (key : R → String) (k j : String) (rows : List R)
    → has key k (select (λ r. key r == j) rows) ≡ true
    → (k == j) ≡ true
select_key key k j [] h = cc
select_key key k j (r ∷ rows) h =
    ground (arith, select_key key k j rows, eq_iff (key r) j, eq_iff (key r) k, eq_iff k j)

unrestricted :
    {C P : Type 0} (fk : C → String) (key : P → String) (id : String) (ps : List P) (cs : List C)
    → any (λ c. fk c == id) cs ≡ false
    → any (λ c. has key (fk c) (select (λ r. key r == id) ps)) cs ≡ false
unrestricted fk key id ps [] h = refl
unrestricted fk key id ps (c ∷ cs) h =
    ground (arith, select_key key (fk c) id ps, unrestricted fk key id ps cs)

-- Where no statement fails, a purge of a tenant answers without an error, however many sites it has.
pub delete_tenant-succeeds :
    (id : String) (now : ℕ) (t : Tables)
    → (delete_tenant id true (record { tables = t; now = now; faults = [] })).0 ≡ ok tt
unfolding delete_tenant purge_tenant delete_desired_of_tenant delete_desired_project delete_sites
    delete_tenants run transaction
delete_tenant-succeeds id now t = rw (
    unrestricted site_tenant tenant_id_of id t.tenants (delete (λ s. site_tenant s == id) t.sites)
      (any-delete (λ s. site_tenant s == id) t.sites))
