-- ===== src/Daemon/Reports.antt =====
-- internal/daemon/server.go: `handleCapacity`, whose plan counts every stored site.
use controlai.Prelude.{
  text_before, ℕ, ◌+◌, String, ◌==◌, ℤ, Bool, Option, none, some, List, [], ◌∷◌, map, select, sum,
  ◌≡◌, refl, arith, Bool-cases, inl, inr,
}
use controlai.Capacity.Predictions.{SitePlan, TenantPlan, Prediction, PredictError, predict}
use controlai.Capacity.Predictions
use controlai.Capacity.Costs.{site_cost, sites_cost, plan_cost}
use controlai.Store.Tables.Statements.{place, order_by}
use controlai.Store.Rows.{TenantRow, SiteRow, Tables}
use controlai.Store.Query.{Result, ok, err, Db, Query, pure, run, ◌>>=◌}
use controlai.Store.RoundTrips.{quiet}
use controlai.Store.Tenants.{list_tenants}
use controlai.Store.Sites.{list_sites_by_tenant, select_sites_of}
use controlai.Daemon.Admission.{site_plan_of}

abbrev pub stored_plan : String → List SiteRow → TenantPlan
stored_plan id sites = record { tenant_id = id; sites = map site_plan_of sites }

-- The loop over the tenants.
unfoldable pub capacity_plans : List TenantRow → Query (List TenantPlan)
capacity_plans [] = pure []
capacity_plans (t ∷ rest) = do
  sites ← list_sites_by_tenant t.id
  plans ← capacity_plans rest
  pure (stored_plan t.id sites ∷ plans)

-- The body of a 200, or the status of an error. `mem` is what `ReadMemTotalKB` returns.
pub data CapacityReply : Type 0 where
  predicted : Prediction → CapacityReply
  server_error : CapacityReply

abbrev judge : Predictions.Outcome Prediction → CapacityReply
judge (Predictions.ok p) = predicted p
judge (Predictions.err e) = server_error

abbrev with_plans : Option ℤ → Result (List TenantPlan) × Db → CapacityReply × Db
with_plans mem (err e, db) = (server_error, db)
with_plans none (ok plans, db) = (server_error, db)
with_plans (some kb) (ok plans, db) = (judge (predict plans kb), db)

unfoldable pub handle_capacity : Option ℤ → Db → CapacityReply × Db
unfolding capacity_plans
handle_capacity mem db = with_plans mem ((list_tenants >>= capacity_plans) db)

abbrev pub stored_cost : SiteRow → ℕ
stored_cost s = site_cost (site_plan_of s)

cost-map : (rows : List SiteRow) → sites_cost (map site_plan_of rows) ≡ sum (map stored_cost rows)
cost-map [] = refl
cost-map (r ∷ rows) = omega (arith, cost-map rows)

cost-place :
    (before : SiteRow → SiteRow → Bool) (s : SiteRow) (rows : List SiteRow)
    → sites_cost (map site_plan_of (place before s rows))
      ≡ stored_cost s + sum (map stored_cost rows)
unfolding place
cost-place before s [] = omega arith
cost-place before s (r ∷ rows) = elim (Bool-cases (before s r)) [
  | inl e ↦ rw e (omega (arith, cost-map rows))
  | inr e ↦ rw e (omega (arith, cost-place before s rows))
]

cost-order_by :
    (before : SiteRow → SiteRow → Bool) (rows : List SiteRow)
    → sites_cost (map site_plan_of (order_by before rows)) ≡ sum (map stored_cost rows)
unfolding order_by
cost-order_by before [] = refl
cost-order_by before (r ∷ rows) = omega (
  arith,
  cost-place before r (order_by before rows),
  cost-map (order_by before rows),
  cost-order_by before rows,
)

-- Where no statement fails, the plans that `handleCapacity` makes for a list of tenants cost, together,
-- 350 MB for each tenant and, for each of its stored sites, what the table of profiles says (nothing
-- for a site without a row there); the store stays as it is.
pub capacity_plans-count_sites :
    (ts : List TenantRow) (now : ℕ) (t : Tables)
    → (plans : List TenantPlan) × (capacity_plans ts (quiet now t) ≡ (ok plans, quiet now t))
      × (plan_cost plans
          ≡ sum (
              map
                (λ r. 350 + sum (map stored_cost (select (λ s. s.tenant_id == r.id) t.sites)))
                ts))
unfolding capacity_plans list_sites_by_tenant select_sites_of run
capacity_plans-count_sites [] now t = ([], refl, refl)
capacity_plans-count_sites (r ∷ ts) now t =
    let (plans, same, cost) = capacity_plans-count_sites ts now t in
    (
      stored_plan r.id
            (order_by (λ a b. text_before a.id b.id) (select (λ s. s.tenant_id == r.id) t.sites))
          ∷ plans,
      rw same refl,
      omega (
        arith,
        cost,
        cost-order_by (λ a b. text_before a.id b.id) (select (λ s. s.tenant_id == r.id) t.sites),
      ),
    )
