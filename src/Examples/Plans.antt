-- ===== src/Examples/Plans.antt =====
-- Plans, settings and the admission check at concrete inputs.
use controlai.Prelude.{
  ◌+◌, ◌*◌, ◌≤◌, ◌<◌, ◌==◌, ◌≡◌, ◌↔◌, refl, true, false, codes, Option, none, some, List, [], ◌∷◌,
  pos, negsuc, length,
}
use controlai.Capacity.Profiles.{Profile, site_profile}
use controlai.Capacity.Predictions.{TenantPlan, usable_mb, max_allowed_mb, predict}
use controlai.Capacity.Costs.{settle, unknown_in, expected, predict-eq-sum}
use controlai.Config.Slugs.{
  validate_slug_http, validate_slug, tenant_id_pattern, tenant_id_from_slug, site_id_pattern,
  site_id_from_slug, validate_slug_http-eq-validate_slug, id_pattern-of_slug,
}
use controlai.Config.Sites.{Site, validate_site, ingest_replicas, use_shared_subscription}
use controlai.Config.Settings.{validated_site_has_profile, validated_site_replicas}
use controlai.Recon.Backoff.{backoff_delay, backoff_delay_exact}
use controlai.Store.Tables.Statements.{has}
use controlai.Store.Tenants.{tenant_id_of}
use controlai.Store.RoundTrips.{quiet}
use controlai.Daemon.Admission.{ProposedSite, admission_check}
use controlai.Daemon.Admission.Demand.{
  new_cost, HasProfile, counted, judged, admission_check-eq-tenants,
}
use controlai.Examples.Fixtures.{one_tenant}

abbrev two_sites : List TenantPlan
two_sites =
    record {
      tenant_id = "tnt_a";
      sites =
          record { site_id = "ste_1"; broker_kind = "emqx"; tier = "mid"; direction = "uni" }
          ∷ record { site_id = "ste_2"; broker_kind = "emqx"; tier = "none"; direction = "uni" }
          ∷ [];
    }
    ∷ []

predict-eq-sum_example :
    predict two_sites (pos 8000000)
    ≡ settle (unknown_in two_sites) (expected two_sites (pos 8000000))
predict-eq-sum_example = predict-eq-sum two_sites (pos 8000000)

slugs_agree_example : validate_slug_http (codes "north-7") ≡ validate_slug (codes "north-7")
slugs_agree_example = validate_slug_http-eq-validate_slug (codes "north-7")

slug_accepted : validate_slug_http (codes "north-7") ≡ true
unfolding validate_slug_http
slug_accepted = refl

slug_refused : validate_slug_http (codes "7north") ≡ false
unfolding validate_slug_http
slug_refused = refl

id_pattern_example :
    (tenant_id_pattern (tenant_id_from_slug (codes "north-7"))
      ≡ validate_slug_http (codes "north-7"))
    × (site_id_pattern (site_id_from_slug (codes "north-7")) ≡ validate_slug_http (codes "north-7"))
id_pattern_example = id_pattern-of_slug (codes "north-7")

abbrev mid_site : Site
mid_site = record {
  schema_version = pos 1;
  id = "ste_plant";
  tenant_id = "tnt_acme";
  broker_kind = "emqx";
  san_aliases = [];
  direction = "uni";
  throughput = "mid";
  payload_codec = "json";
  leaf_ttl_days = pos 0;
}

mid_site_valid : (validate_site mid_site).0 ≡ none
unfolding validate_site site_id_pattern tenant_id_pattern
mid_site_valid = refl

has_profile_example :
    (p : Profile) × (site_profile mid_site.broker_kind mid_site.throughput mid_site.direction
      ≡ some p)
has_profile_example = validated_site_has_profile mid_site mid_site_valid

replicas_example :
    ((ingest_replicas mid_site ≡ 2) ↔ (("mid" == mid_site.throughput) ≡ true))
    × ((use_shared_subscription mid_site ≡ true) ↔ (1 < ingest_replicas mid_site))
replicas_example = validated_site_replicas mid_site mid_site_valid

backoff_example :
    (backoff_delay (negsuc 2) ≡ 30)
    × (backoff_delay (pos 0) ≡ 30)
    × (backoff_delay (pos 1) ≡ 30)
    × (backoff_delay (pos 2) ≡ 60)
    × (backoff_delay (pos 3) ≡ 300)
    × (backoff_delay (pos (2 + 4)) ≡ 1800)
    × (30 ≤ backoff_delay (pos 2))
    × (backoff_delay (pos 2) ≤ 1800)
    × (backoff_delay (pos 2) ≤ backoff_delay (pos (2 + 1)))
backoff_example = backoff_delay_exact 2 1

abbrev proposed : Option ProposedSite
proposed = some (record { broker_kind = "emqx"; throughput = "mid"; direction = "uni" })

proposed_known : HasProfile proposed
unfolding site_profile
proposed_known = (record { broker_mb = _; ingest_mb = _ }, refl)

admission_example :
    (admission_check (some (pos 4000000)) "tnt_acme" proposed (quiet 5 one_tenant)).0
    ≡ judged
        (350 * counted (length one_tenant.tenants) (has tenant_id_of "tnt_acme" one_tenant.tenants)
          + new_cost proposed)
        (max_allowed_mb (usable_mb (pos 4000000)))
admission_example =
    admission_check-eq-tenants (pos 4000000) "tnt_acme" proposed 5 one_tenant proposed_known
