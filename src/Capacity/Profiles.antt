-- ===== src/Capacity/Profiles.antt =====
-- internal/capacity/profile.go: `Key`, `Profile`, the table and `SiteProfile`.
use controlai.Prelude.{
  ℕ, ◌+◌, String, Option, none, some, Bool, ◌&&◌, List, [], ◌∷◌, ◌==◌, if◌then◌else◌,
}

pub record Key : Type 0 where
  pub broker_kind : String
  pub tier : String
  pub direction : String

pub record Profile : Type 0 where
  pub broker_mb : ℕ
  pub ingest_mb : ℕ

unfoldable pub total_mb : Profile → ℕ
total_mb p = p.broker_mb + p.ingest_mb

abbrev pub host_overhead_mb : ℕ
host_overhead_mb = 530

abbrev pub per_tenant_tsdb_mb : ℕ
per_tenant_tsdb_mb = 350

abbrev key : String → String → String → Key
key b t d = record { broker_kind = b; tier = t; direction = d }

abbrev profile : ℕ → ℕ → Profile
profile b i = record { broker_mb = b; ingest_mb = i }

-- The rows of the table. `mosquitto` with `mid` has none.
abbrev profiles : List (Key × Profile)
profiles =
    (key "mosquitto" "low" "uni", profile 20 60)
    ∷ (key "mosquitto" "low" "bi", profile 20 80)
    ∷ (key "emqx" "low" "uni", profile 400 60)
    ∷ (key "emqx" "low" "bi", profile 400 80)
    ∷ (key "emqx" "mid" "uni", profile 450 120)
    ∷ (key "emqx" "mid" "bi", profile 450 140)
    ∷ []

-- Equality of two map keys, field by field.
abbrev key_eq : Key → Key → Bool
key_eq a b = a.broker_kind == b.broker_kind && (a.tier == b.tier && a.direction == b.direction)

find_profile : Key → List (Key × Profile) → Option Profile
find_profile k [] = none
find_profile k ((j, p) ∷ rows) =
    let rest = find_profile k rows in if key_eq j k then some p else rest

-- `SiteProfile`. `none` is the error "no capacity profile".
unfoldable pub site_profile : String → String → String → Option Profile
unfolding find_profile
site_profile broker_kind tier direction = find_profile (key broker_kind tier direction) profiles
