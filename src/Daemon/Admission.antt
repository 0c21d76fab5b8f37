-- ===== src/Daemon/Admission.antt =====
-- internal/daemon/server.go: `admissionCheck`. `seenTenants` maps an identifier to a plan of its own; the
-- slice `plan` holds copies of these plans, made while they had no sites, and later appends to the
-- plans of the map do not reach the copies.
pub mod Demand
use controlai.Prelude.{
  ℕ, ◌+◌, ◌*◌, suc, ◌≡◌, refl, String, ℤ, Bool, true, false, Option, none, some, List, [], ◌∷◌,
  ◌++◌, ◌==◌, map, any, length, arith, if◌then◌else◌, sub_ℕ,
}
use controlai.Capacity.Predictions.{SitePlan, TenantPlan, Prediction, PredictError, predict}
use controlai.Capacity.Predictions
use controlai.Store.Rows.{TenantRow, SiteRow}
use controlai.Store.Query.{StoreError, Result, ok, err, Db}
use controlai.Store.Tenants.{list_tenants}
use controlai.Store.Sites.{list_all_sites}

pub data AdmissionError : Type 0 where
  store_failed : StoreError → AdmissionError
  meminfo_failed : AdmissionError
  prediction_failed : PredictError → AdmissionError
  capacity_exceeded : ℕ → ℕ → ℤ → AdmissionError

-- What the handlers give: the kind of broker, the tier and the direction of the new site.
pub record ProposedSite : Type 0 where
  pub broker_kind : String
  pub throughput : String
  pub direction : String

abbrev pub site_plan_of : SiteRow → SitePlan
site_plan_of s = record {
  site_id = s.id;
  broker_kind = s.broker_kind;
  tier = s.throughput;
  direction = s.direction;
}

abbrev pub proposed_plan : ProposedSite → SitePlan
proposed_plan s = record {
  site_id = "proposed";
  broker_kind = s.broker_kind;
  tier = s.throughput;
  direction = s.direction;
}

abbrev pub bare_plan : String → TenantPlan
bare_plan id = record { tenant_id = id; sites = [] }

-- The first loop: the slice of copies and the map of plans, in the order of the tenants.
unfoldable pub start_plans : List TenantRow → List TenantPlan × List TenantPlan
start_plans [] = ([], [])
start_plans (t ∷ rest) =
    let (plan, seen) = start_plans rest in (bare_plan t.id ∷ plan, bare_plan t.id ∷ seen)

-- `tp.Sites = append(tp.Sites, …)` on the plan that the map holds for the tenant.
unfoldable pub append_site : String → SitePlan → List TenantPlan → List TenantPlan
append_site id s [] = []
append_site id s (p ∷ seen) =
    let rest = append_site id s seen in
    if p.tenant_id == id then record p { sites = p.sites ++ s ∷ [] } ∷ seen else p ∷ rest

-- The second loop: every stored site goes to the plan of its tenant in the map.
unfoldable pub place_sites : List SiteRow → List TenantPlan → List TenantPlan
unfolding append_site
place_sites [] seen = seen
place_sites (s ∷ rest) seen = place_sites rest (append_site s.tenant_id (site_plan_of s) seen)

-- `tenantMap[newTenantID]`.
abbrev pub is_known : String → List TenantRow → Bool
is_known id tenants = any (λ t. t.id == id) tenants

abbrev pub new_sites : Option ProposedSite → List SitePlan
new_sites none = []
new_sites (some s) = proposed_plan s ∷ []

abbrev pub add_to_existing : String → Option ProposedSite → List TenantPlan → List TenantPlan
add_to_existing id none plan = plan
add_to_existing id (some s) plan = append_site id (proposed_plan s) plan

-- The slice and the map when the prediction is made.
unfoldable pub build_plan :
    List TenantRow → List SiteRow → String → Option ProposedSite → List TenantPlan × List TenantPlan
unfolding start_plans place_sites append_site
build_plan tenants all_sites new_tenant_id new_site =
    let (plan, seen) = start_plans tenants in
    let seen' = place_sites all_sites seen in
    (
      if is_known new_tenant_id tenants
          then add_to_existing new_tenant_id new_site plan
          else plan ++ record { tenant_id = new_tenant_id; sites = new_sites new_site } ∷ [],
      seen',
    )

abbrev pub verdict : Predictions.Outcome Prediction → Option AdmissionError
verdict (Predictions.err e) = some (prediction_failed e)
verdict (Predictions.ok pred) =
    if pred.admissible
    then none
    else some (capacity_exceeded pred.projected_mb pred.max_allowed_mb pred.headroom_mb)

abbrev pub check_memory : Option ℤ → List TenantPlan → Option AdmissionError
check_memory none plan = some meminfo_failed
check_memory (some kb) plan = verdict (predict plan kb)

abbrev pub with_sites :
    Option ℤ
    → String
    → Option ProposedSite
    → List TenantRow
    → Result (List SiteRow) × Db
    → Option AdmissionError × Db
with_sites mem id new tenants (err e, db) = (some (store_failed e), db)
with_sites mem id new tenants (ok sites, db) =
    (check_memory mem (build_plan tenants sites id new).0, db)

abbrev pub with_tenants :
    Option ℤ
    → String
    → Option ProposedSite
    → Result (List TenantRow) × Db
    → Option AdmissionError × Db
with_tenants mem id new (err e, db) = (some (store_failed e), db)
with_tenants mem id new (ok tenants, db) = with_sites mem id new tenants (list_all_sites db)

-- `admissionCheck`: `none` is a nil error. `mem` is what `ReadMemTotalKB` returns, `none` its error.
unfoldable pub admission_check :
    Option ℤ → String → Option ProposedSite → Db → Option AdmissionError × Db
admission_check mem new_tenant_id new_site db =
    with_tenants mem new_tenant_id new_site (list_tenants db)
