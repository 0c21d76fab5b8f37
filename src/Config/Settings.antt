-- ===== src/Config/Settings.antt =====
-- What a validated site is worth to the other parts of the program.
use controlai.Prelude.{◌≡◌, ◌≢◌, inl, inr, Option-cases, none, some, true, arith, ◌↔◌, ◌<◌, ◌==◌}
use controlai.Capacity.Profiles.{Profile, site_profile}
use controlai.Config.Sites.{Site, validate_site, ingest_replicas, use_shared_subscription}

profile_not_missing :
    (s : Site)
    → (validate_site s).0 ≡ none
    → site_profile s.broker_kind s.throughput s.direction ≢ none
unfolding validate_site site_profile
profile_not_missing s h = ground arith

-- Every site that `Validate` accepts has a row in the table of the capacity package.
pub validated_site_has_profile :
    (s : Site)
    → (validate_site s).0 ≡ none
    → (p : Profile) × (site_profile s.broker_kind s.throughput s.direction ≡ some p)
validated_site_has_profile s h =
    elim (Option-cases (site_profile s.broker_kind s.throughput s.direction)) [
      | inl missing ↦ absurd (profile_not_missing s h missing)
      | inr found ↦ found
    ]

-- A validated site has two ingest replicas exactly when its tier is `mid`, and it shares its
-- subscription exactly when it has more than one replica.
pub validated_site_replicas :
    (s : Site)
    → (validate_site s).0 ≡ none
    → ((ingest_replicas s ≡ 2) ↔ (("mid" == s.throughput) ≡ true))
      × ((use_shared_subscription s ≡ true) ↔ (1 < ingest_replicas s))
unfolding validate_site use_shared_subscription
validated_site_replicas s h = ((ground arith, ground arith), (ground arith, ground arith))
