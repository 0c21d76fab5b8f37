-- ===== src/Capacity/Costs.antt =====
-- What `Predict` computes, without its loops: sums over the plan.
use controlai.Prelude.{
  ℕ, ◌+◌, String, ◌≡◌, inl, inr, Option, none, some, List, [], ◌∷◌, ◌++◌, map, sum, ℤ, sub_ℕ, leb,
  Option-cases,
}
use mathlib.Core.List.{append_assoc, append-nil}
use native.Mathlib.Nat.{add_assoc, add-zero, zero-add}
use controlai.Capacity.Profiles.{Profile, total_mb, site_profile, per_tenant_tsdb_mb}
use controlai.Capacity.Predictions.{
  SitePlan, TenantPlan, SiteBreakdown, TenantBreakdown, Prediction, PredictError, no_profile,
  Outcome, ok, err, usable_mb, max_allowed_mb, site_breakdown_of, start_breakdown, site_loop,
  tenant_loop, predict,
}

abbrev pub plan_profile : SitePlan → Option Profile
plan_profile s = site_profile s.broker_kind s.tier s.direction

abbrev empty_profile : Profile
empty_profile = record { broker_mb = 0; ingest_mb = 0 }

abbrev or_empty : Option Profile → Profile
or_empty none = empty_profile
or_empty (some p) = p

abbrev pub site_cost : SitePlan → ℕ
site_cost s = total_mb (or_empty (plan_profile s))

abbrev pub sites_cost : List SitePlan → ℕ
sites_cost sites = sum (map site_cost sites)

abbrev pub tenant_cost : TenantPlan → ℕ
tenant_cost t = per_tenant_tsdb_mb + sites_cost t.sites

abbrev pub plan_cost : List TenantPlan → ℕ
plan_cost ts = sum (map tenant_cost ts)

abbrev describe_site : SitePlan → SiteBreakdown
describe_site s = site_breakdown_of s.site_id (or_empty (plan_profile s))

abbrev describe_tenant : TenantPlan → TenantBreakdown
describe_tenant t = record {
  tenant_id = t.tenant_id;
  tsdb_mb = per_tenant_tsdb_mb;
  sites_mb = sites_cost t.sites;
  total_mb = tenant_cost t;
  site_breakdown = map describe_site t.sites;
}

abbrev pub expected : List TenantPlan → ℤ → Prediction
expected ts mem = record {
  total_usable_mb = usable_mb mem;
  max_allowed_mb = max_allowed_mb (usable_mb mem);
  projected_mb = plan_cost ts;
  admissible = leb (plan_cost ts) (max_allowed_mb (usable_mb mem));
  headroom_mb = sub_ℕ (max_allowed_mb (usable_mb mem)) (plan_cost ts);
  breakdown = map describe_tenant ts;
}

-- The first site, in the order of the plan, with no profile.
unfoldable pub unknown_site : String → List SitePlan → Option PredictError
unknown_site tid [] = none
unknown_site tid (s ∷ rest) = elim (plan_profile s) [
  | none ↦ some (no_profile tid s)
  | some p ↦ unknown_site tid rest
]

unfoldable pub unknown_in : List TenantPlan → Option PredictError
unknown_in [] = none
unknown_in (t ∷ rest) = elim (unknown_site t.tenant_id t.sites) [
  | some e ↦ some e
  | none ↦ unknown_in rest
]

abbrev pub settle {ℓ} : {A : Type ℓ} → Option PredictError → A → Outcome A
settle none a = ok a
settle (some e) a = err e

site_loop-eq-sum :
    (sites : List SitePlan) (tb : TenantBreakdown) (pred : Prediction)
    → site_loop sites tb pred
      ≡ settle (unknown_site tb.tenant_id sites) (
        record tb {
          sites_mb = tb.sites_mb + sites_cost sites;
          site_breakdown = tb.site_breakdown ++ map describe_site sites;
        },
        record pred { projected_mb = pred.projected_mb + sites_cost sites },
      )
unfolding site_loop unknown_site
site_loop-eq-sum [] tb pred = simp (add-zero, append-nil)
site_loop-eq-sum (s ∷ rest) tb pred = elim (Option-cases (plan_profile s)) [
  | inl e ↦ rw (e, site_loop, unknown_site)
  | inr (p, e) ↦
      rw (e, site_loop, unknown_site)
        (rw
          (site_loop-eq-sum rest
            (record tb {
              sites_mb = tb.sites_mb + total_mb p;
              site_breakdown = tb.site_breakdown ++ site_breakdown_of s.site_id p ∷ [];
            })
            (record pred { projected_mb = pred.projected_mb + total_mb p }))
          (simp (add_assoc, append_assoc)))
]

tenant_loop-eq-sum :
    (ts : List TenantPlan) (pred : Prediction)
    → tenant_loop ts pred
      ≡ settle (unknown_in ts) (record pred {
        projected_mb = pred.projected_mb + plan_cost ts;
        breakdown = pred.breakdown ++ map describe_tenant ts;
      })
unfolding tenant_loop unknown_in
tenant_loop-eq-sum [] pred = simp (add-zero, append-nil)
tenant_loop-eq-sum (t ∷ rest) pred = elim (Option-cases (unknown_site t.tenant_id t.sites)) [
  | inr (e, p) ↦
      rw
        (
          tenant_loop,
          site_loop-eq-sum t.sites (start_breakdown t)
              (record pred { projected_mb = pred.projected_mb + per_tenant_tsdb_mb }),
        )
        (rw (p, unknown_in, tenant_loop))
  | inl p ↦
      rw
        (
          tenant_loop,
          site_loop-eq-sum t.sites (start_breakdown t)
              (record pred { projected_mb = pred.projected_mb + per_tenant_tsdb_mb }),
        )
        (rw (p, unknown_in, tenant_loop, zero-add (sites_cost t.sites))
          (rw
            (tenant_loop-eq-sum rest (record pred {
              projected_mb = pred.projected_mb + per_tenant_tsdb_mb + sites_cost t.sites;
              breakdown = pred.breakdown ++ describe_tenant t ∷ [];
            }))
            (simp (add_assoc, append_assoc))))
]

-- For every plan and memory size, `Predict` returns the record of sums: the projection is 350 MB for
-- each tenant plus the table's value for each site, the allowance is compared with it, the headroom
-- is their signed difference, and the breakdown lists the tenants and sites in order with their own
-- sums; or, where a site has no profile, the error that names the first such site.
pub predict-eq-sum :
    (ts : List TenantPlan) (mem : ℤ) → predict ts mem ≡ settle (unknown_in ts) (expected ts mem)
unfolding predict
predict-eq-sum ts mem = elim (Option-cases (unknown_in ts)) [
  | inl p ↦ rw (tenant_loop-eq-sum ts) (rw (p, zero-add (plan_cost ts)))
  | inr (e, p) ↦ rw (tenant_loop-eq-sum ts) (rw p)
]
