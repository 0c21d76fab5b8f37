-- ===== src/Recon/Runtime.antt =====
-- What the reconciler meets outside the repository: docker, `docker compose`, the clock and the files of
-- the Traefik directory. `World` is their state, which every call may change.
use controlai.Prelude.{ℕ, String, Bool, Option, List}
use controlai.Store.Query.{Db, Query, Result}

-- internal/runner/docker.go: the part of `ContainerSummary` that the reconciler reads.
pub record ContainerSummary : Type 0 where
  pub id : String
  pub name : String
  pub state : String

pub record Runtime : Type 1 where
  pub World : Type 0
  -- `time.Now`, in seconds.
  pub now : World → ℕ
  -- The containers of a project; `none` is an error of the docker SDK.
  pub list_by_project : World → String → Option (List ContainerSummary)
  -- `docker compose -p … -f … up` and `down`: whether they succeed.
  pub up : World → String → String → Bool × World
  pub down : World → String → String → Bool × World
  -- The texts that `fmt.Sprintf` builds for the events of a failure, from the delay and from the time.
  pub failure_detail : World → ℕ → String
  pub backoff_detail : ℕ → String
  -- Renders the Traefik configuration of a site, from the tenant's and the site's identifiers, the
  -- domain, the broker and the host name, and renames it into place.
  pub write_dynamic : World → String → String → String → String → String → Bool × World

-- `projectState`; `none` is the zero time.
pub record ProjectState : Type 0 where
  pub failure_count : ℕ
  pub next_retry : Option ℕ

pub record Config : Type 0 where
  pub data_dir : String
  -- `r.docker != nil`.
  pub has_docker : Bool
  -- `len(MasterKey) > 0`.
  pub has_master_key : Bool
  -- `LastTick != nil`.
  pub reports_tick : Bool

module _ (rt : Runtime) where
  -- The store, the outside, the map of backoff states and the time of the last tick.
  pub record State : Type 0 where
    pub db : Db
    pub world : rt.World
    pub states : List (String × ProjectState)
    pub last_tick : Option ℕ

  abbrev pub Act : Type 0 → Type 0
  Act A = State → A × State

  abbrev pub done : {A : Type 0} → A → Act A
  done a s = (a, s)

  abbrev pub bind : {A B : Type 0} → Act A → (A → Act B) → Act B
  bind m f s = let (a, s') = m s in f a s'

  -- A call of the store.
  abbrev pub call : {A : Type 0} → Query A → Act (Result A)
  call q s = let (r, db) = q s.db in (r, record s { db = db })

  -- A call of the outside.
  abbrev pub outside : (rt.World → Bool × rt.World) → Act Bool
  outside f s = let (b, w) = f s.world in (b, record s { world = w })
