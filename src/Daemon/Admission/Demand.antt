-- ===== src/Daemon/Admission/Demand.antt =====
-- What the admission check compares with the allowance.
use controlai.Prelude.{
  text_before, ℕ, suc, ◌+◌, ◌*◌, ◌≡◌, refl, ◌∙◌, ap, String, ℤ, Bool, true, ◌||◌, Option, none,
  some, List, [], ◌∷◌, ◌++◌, ◌==◌, map, any, select, length, arith, if◌then◌else◌, leb, sub_ℕ,
  Bool-cases, inl, inr,
}
use controlai.Capacity.Profiles.{Profile}
use controlai.Capacity.Predictions.{SitePlan, TenantPlan, usable_mb, max_allowed_mb}
use controlai.Capacity.Costs.{
  plan_profile, site_cost, sites_cost, tenant_cost, plan_cost, unknown_site, unknown_in,
  predict-eq-sum,
}
use controlai.Store.Tables.Statements.{order_by, place, has}
use controlai.Store.Rows.{TenantRecord, TenantRow, SiteRow, Tables}
use controlai.Store.Query.{run}
use controlai.Store.RoundTrips.{quiet}
use controlai.Store.Tenants.{tenant_id_of, scan_tenant, list_tenants, select_tenants}
use controlai.Store.Sites.{list_all_sites, select_all_sites}
use controlai.Daemon.Admission.{
  AdmissionError, capacity_exceeded, ProposedSite, proposed_plan, bare_plan, start_plans,
  append_site, is_known, check_memory, build_plan, admission_check,
}

cost-start_plans : (ts : List TenantRow) → plan_cost (start_plans ts).0 ≡ 350 * length ts
unfolding start_plans
cost-start_plans [] = refl
cost-start_plans (t ∷ ts) = omega (arith, cost-start_plans ts)

known-start_plans : (ts : List TenantRow) → unknown_in (start_plans ts).0 ≡ none
unfolding start_plans unknown_in unknown_site
known-start_plans [] = refl
known-start_plans (t ∷ ts) = known-start_plans ts

ids-start_plans :
    (id : String) (ts : List TenantRow)
    → any (λ p. p.tenant_id == id) (start_plans ts).0 ≡ is_known id ts
unfolding start_plans
ids-start_plans id [] = refl
ids-start_plans id (t ∷ ts) = ground (arith, ids-start_plans id ts)

sites_cost-append :
    (s : SitePlan) (l : List SitePlan) → sites_cost (l ++ s ∷ []) ≡ sites_cost l + site_cost s
sites_cost-append s [] = omega arith
sites_cost-append s (x ∷ l) = omega (arith, sites_cost-append s l)

plan_cost-append :
    (q : TenantPlan) (ps : List TenantPlan)
    → plan_cost (ps ++ q ∷ []) ≡ plan_cost ps + tenant_cost q
plan_cost-append q [] = omega arith
plan_cost-append q (p ∷ ps) = omega (arith, plan_cost-append q ps)

cost-append_site :
    (id : String) (s : SitePlan) (ps : List TenantPlan)
    → plan_cost (append_site id s ps)
      ≡ plan_cost ps + (if any (λ p. p.tenant_id == id) ps then site_cost s else 0)
unfolding append_site
cost-append_site id s [] = refl
cost-append_site id s (p ∷ ps) = elim (Bool-cases (p.tenant_id == id)) [
  | inl e ↦ rw e (omega (arith, sites_cost-append s p.sites))
  | inr e ↦ rw e (omega (arith, cost-append_site id s ps))
]

known-append :
    (tid : String) (s : SitePlan) (p : Profile) (l : List SitePlan)
    → plan_profile s ≡ some p
    → unknown_site tid l ≡ none
    → unknown_site tid (l ++ s ∷ []) ≡ none
unfolding unknown_site
known-append tid s p [] e h = ground arith
known-append tid s p (x ∷ l) e h = ground (arith, known-append tid s p l)

known_plan-append :
    (q : TenantPlan) (ps : List TenantPlan)
    → unknown_in ps ≡ none
    → unknown_site q.tenant_id q.sites ≡ none
    → unknown_in (ps ++ q ∷ []) ≡ none
unfolding unknown_in
known_plan-append q [] h e = ground arith
known_plan-append q (p ∷ ps) h e = ground (arith, known_plan-append q ps)

known-append_site :
    (id : String) (s : SitePlan) (p : Profile) (ps : List TenantPlan)
    → plan_profile s ≡ some p
    → unknown_in ps ≡ none
    → unknown_in (append_site id s ps) ≡ none
unfolding append_site unknown_in
known-append_site id s p [] e h = refl
known-append_site id s p (q ∷ ps) e h =
    ground (arith, known-append q.tenant_id s p q.sites, known-append_site id s p ps)

-- The rows of `ListTenants` are those of the table.
length-place :
    (before : TenantRecord → TenantRecord → Bool) (r : TenantRecord) (l : List TenantRecord)
    → length (place before r l) ≡ suc (length l)
unfolding place
length-place before r [] = refl
length-place before r (x ∷ l) = ground (arith, length-place before r l)

length-order_by :
    (before : TenantRecord → TenantRecord → Bool) (l : List TenantRecord)
    → length (order_by before l) ≡ length l
unfolding order_by
length-order_by before [] = refl
length-order_by before (x ∷ l) =
    length-place before x (order_by before l) ∙ ap suc (length-order_by before l)

any-place :
    (before : TenantRecord → TenantRecord → Bool) (p : TenantRecord → Bool) (r : TenantRecord)
    (l : List TenantRecord)
    → any p (place before r l) ≡ (p r || any p l)
unfolding place
any-place before p r [] = refl
any-place before p r (x ∷ l) = ground (arith, any-place before p r l)

any-order_by :
    (before : TenantRecord → TenantRecord → Bool) (p : TenantRecord → Bool) (l : List TenantRecord)
    → any p (order_by before l) ≡ any p l
unfolding order_by
any-order_by before p [] = refl
any-order_by before p (x ∷ l) =
    ground (arith, any-place before p x (order_by before l), any-order_by before p l)

select-true : (l : List TenantRecord) → select (λ _. true) l ≡ l
select-true [] = refl
select-true (x ∷ l) = ap (λ (r : List TenantRecord). x ∷ r) (select-true l)

length-scan : (l : List TenantRecord) → length (map scan_tenant l) ≡ length l
length-scan [] = refl
length-scan (x ∷ l) = ap suc (length-scan l)

known-scan :
    (id : String) (l : List TenantRecord) → is_known id (map scan_tenant l) ≡ has tenant_id_of id l
known-scan id [] = refl
known-scan id (x ∷ l) = ground (arith, known-scan id l)

-- The predicted memory of the new site, and none where there is none.
abbrev pub new_cost : Option ProposedSite → ℕ
new_cost none = 0
new_cost (some s) = site_cost (proposed_plan s)

abbrev pub HasProfile : Option ProposedSite → Type 0
HasProfile none = Unit
HasProfile (some s) = (p : Profile) × (plan_profile (proposed_plan s) ≡ some p)

-- The tenants that the check counts: those of the registry, and the new one.
abbrev pub counted : ℕ → Bool → ℕ
counted n known = if known then n else n + 1

cost-build_plan :
    (ts : List TenantRow) (sites : List SiteRow) (id : String) (new : Option ProposedSite)
    → plan_cost (build_plan ts sites id new).0
      ≡ 350 * counted (length ts) (is_known id ts) + new_cost new
unfolding build_plan
cost-build_plan ts sites id none = elim (Bool-cases (is_known id ts)) [
  | inl e ↦ rw e (omega (arith, cost-start_plans ts))
  | inr e ↦
      rw e (omega (arith, cost-start_plans ts, plan_cost-append (bare_plan id) (start_plans ts).0))
]
cost-build_plan ts sites id (some s) = elim (Bool-cases (is_known id ts)) [
  | inl e ↦ rw e (
      rw (cost-append_site id (proposed_plan s) (start_plans ts).0, ids-start_plans id ts, e)
        (omega (arith, cost-start_plans ts)))
  | inr e ↦ rw e (
      omega (
        arith,
        cost-start_plans ts,
        plan_cost-append (record { tenant_id = id; sites = proposed_plan s ∷ [] })
            (start_plans ts).0,
      ))
]

known-build_plan :
    (ts : List TenantRow) (sites : List SiteRow) (id : String) (new : Option ProposedSite)
    → HasProfile new
    → unknown_in (build_plan ts sites id new).0 ≡ none
unfolding build_plan
known-build_plan ts sites id none h = elim (Bool-cases (is_known id ts)) [
  | inl e ↦ rw e (known-start_plans ts)
  | inr e ↦ rw e (
      known_plan-append (bare_plan id) (start_plans ts).0 (known-start_plans ts)
        (unfold unknown_site in refl))
]
known-build_plan ts sites id (some s) h = elim (Bool-cases (is_known id ts)) [
  | inl e ↦
      rw e
        (known-append_site id (proposed_plan s) h.0 (start_plans ts).0 h.1 (known-start_plans ts))
  | inr e ↦ rw e (
      known_plan-append (record { tenant_id = id; sites = proposed_plan s ∷ [] }) (start_plans ts).0
        (known-start_plans ts)
        (known-append id (proposed_plan s) h.0 [] h.1 (unfold unknown_site in refl)))
]

abbrev pub judged : ℕ → ℕ → Option AdmissionError
judged demand allowed =
    if leb demand allowed
    then none
    else some (capacity_exceeded demand allowed (sub_ℕ allowed demand))

judged-build_plan :
    (kb : ℤ) (ts : List TenantRow) (sites : List SiteRow) (id : String) (new : Option ProposedSite)
    → HasProfile new
    → check_memory (some kb) (build_plan ts sites id new).0
      ≡ judged
          (350 * counted (length ts) (is_known id ts) + new_cost new)
          (max_allowed_mb (usable_mb kb))
judged-build_plan kb ts sites id new h = rw (
  predict-eq-sum (build_plan ts sites id new).0 kb,
  known-build_plan ts sites id new h,
  cost-build_plan ts sites id new,
)

-- On a registry of any content, where no statement fails, with the memory known and a profile for the new site, the check
-- compares the allowance with 350 MB for each tenant, the new one included, plus the new site's
-- profile. The sites that the registry holds have no part in it.
pub admission_check-eq-tenants :
    (kb : ℤ) (id : String) (new : Option ProposedSite) (now : ℕ) (t : Tables)
    → HasProfile new
    → (admission_check (some kb) id new (quiet now t)).0
      ≡ judged
          (350 * counted (length t.tenants) (has tenant_id_of id t.tenants) + new_cost new)
          (max_allowed_mb (usable_mb kb))
unfolding admission_check list_tenants list_all_sites select_tenants select_all_sites run
admission_check-eq-tenants kb id new now t h =
    judged-build_plan kb _ _ id new h
    ∙ ap (λ (n : ℕ). judged (350 * n + new_cost new) (max_allowed_mb (usable_mb kb)))
        (rw (
          length-scan (order_by (λ a b. text_before a.id b.id) (select (λ _. true) t.tenants)),
          known-scan id (order_by (λ a b. text_before a.id b.id) (select (λ _. true) t.tenants)),
          length-order_by (λ a b. text_before a.id b.id) (select (λ _. true) t.tenants),
          any-order_by (λ a b. text_before a.id b.id) (λ r. tenant_id_of r == id)
              (select (λ _. true) t.tenants),
          select-true t.tenants,
        ))
