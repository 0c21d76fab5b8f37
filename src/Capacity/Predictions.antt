-- ===== src/Capacity/Predictions.antt =====
-- internal/capacity/profile.go: `TenantPlan`, `SitePlan`, `Prediction` and `Predict`.
use controlai.Prelude.{
  ℕ, ◌+◌, ◌*◌, ◌/◌, String, none, some, Bool, false, List, [], ◌∷◌, ◌++◌, ℤ, pos, quot, ◌-ℤ◌, sub_ℕ,
  is_negative, pos_part, leb, if◌then◌else◌,
}
use controlai.Capacity.Profiles.{
  Profile, total_mb, site_profile, host_overhead_mb, per_tenant_tsdb_mb,
}

pub record SitePlan : Type 0 where
  pub site_id : String
  pub broker_kind : String
  pub tier : String
  pub direction : String

pub record TenantPlan : Type 0 where
  pub tenant_id : String
  pub sites : List SitePlan

pub record SiteBreakdown : Type 0 where
  pub site_id : String
  pub broker_mb : ℕ
  pub ingest_mb : ℕ
  pub total_mb : ℕ

pub record TenantBreakdown : Type 0 where
  pub tenant_id : String
  pub tsdb_mb : ℕ
  pub sites_mb : ℕ
  pub total_mb : ℕ
  pub site_breakdown : List SiteBreakdown

pub record Prediction : Type 0 where
  pub total_usable_mb : ℕ
  pub max_allowed_mb : ℕ
  pub projected_mb : ℕ
  pub admissible : Bool
  pub headroom_mb : ℤ
  pub breakdown : List TenantBreakdown

-- The error of `Predict` names the tenant, the site and the combination with no profile.
pub data PredictError : Type 0 where
  no_profile : String → SitePlan → PredictError

pub data Outcome {ℓ} (A : Type ℓ) : Type ℓ where
  ok : A → Outcome A
  err : PredictError → Outcome A

-- `int(memTotalKB/1024) - hostOverheadMB`, and 0 where that is negative.
unfoldable pub usable_mb : ℤ → ℕ
usable_mb mem_total_kb =
    let usable = quot mem_total_kb 1024 -ℤ pos host_overhead_mb in
    if is_negative usable then 0 else pos_part usable

-- `int(float64(usableMB) * 0.85)`. The product of a whole number below 2^40 and the double next to
-- 0.85 rounds to a value with the same whole part as the exact 17/20 of it.
unfoldable pub max_allowed_mb : ℕ → ℕ
max_allowed_mb usable = usable * 17 / 20

abbrev pub site_breakdown_of : String → Profile → SiteBreakdown
site_breakdown_of id p = record {
  site_id = id;
  broker_mb = p.broker_mb;
  ingest_mb = p.ingest_mb;
  total_mb = total_mb p;
}

-- The inner loop: one site after the other, on the tenant's breakdown and the prediction.
unfoldable pub site_loop :
    List SitePlan → TenantBreakdown → Prediction → Outcome (TenantBreakdown × Prediction)
site_loop [] tb pred = ok (tb, pred)
site_loop (site ∷ rest) tb pred = elim (site_profile site.broker_kind site.tier site.direction) [
  | none ↦ err (no_profile tb.tenant_id site)
  | some p ↦
      site_loop rest
        (record tb {
          sites_mb = tb.sites_mb + total_mb p;
          site_breakdown = tb.site_breakdown ++ site_breakdown_of site.site_id p ∷ [];
        })
        (record pred { projected_mb = pred.projected_mb + total_mb p })
]

abbrev pub start_breakdown : TenantPlan → TenantBreakdown
start_breakdown t = record {
  tenant_id = t.tenant_id;
  tsdb_mb = per_tenant_tsdb_mb;
  sites_mb = 0;
  total_mb = 0;
  site_breakdown = [];
}

abbrev pub finish_breakdown : TenantBreakdown → TenantBreakdown
finish_breakdown tb = record tb { total_mb = tb.tsdb_mb + tb.sites_mb }

-- The outer loop: one tenant after the other.
unfoldable pub tenant_loop : List TenantPlan → Prediction → Outcome Prediction
tenant_loop [] pred = ok pred
tenant_loop (t ∷ rest) pred =
    elim (site_loop t.sites (start_breakdown t)
      (record pred { projected_mb = pred.projected_mb + per_tenant_tsdb_mb })) [
        | err e ↦ err e
        | ok (tb, pred') ↦
            tenant_loop rest
              (record pred' { breakdown = pred'.breakdown ++ finish_breakdown tb ∷ [] })
      ]

abbrev pub conclude : Outcome Prediction → Outcome Prediction
conclude (err e) = err e
conclude (ok pred) = ok (record pred {
  admissible = leb pred.projected_mb pred.max_allowed_mb;
  headroom_mb = sub_ℕ pred.max_allowed_mb pred.projected_mb;
})

unfoldable pub predict : List TenantPlan → ℤ → Outcome Prediction
predict tenants mem_total_kb =
    let usable = usable_mb mem_total_kb in
    conclude (
      tenant_loop tenants (record {
        total_usable_mb = usable;
        max_allowed_mb = max_allowed_mb usable;
        projected_mb = 0;
        admissible = false;
        headroom_mb = pos 0;
        breakdown = [];
      }))
