-- ===== src/Runner/Docker.antt =====
-- internal/runner/docker.go: what is read of the containers. The engine's SDK is outside: its answer to
-- `ContainerList` is an argument.
use Prim.Native.Char.{code}
use controlai.Prelude.{
  ◌≡◌, refl, nat_eq, String, ◌==◌, Bool, true, false, ◌||◌, ◌&&◌, not, Option, none, some, List, [],
  ◌∷◌, map, concat, if◌then◌else◌,
}

-- The part of the SDK's `types.Container` that is read; `project_label` is the label
-- com.docker.compose.project, the empty text where it is missing.
pub record Container : Type 0 where
  pub id : String
  pub names : List String
  pub project_label : String
  pub state : String
  pub status : String

-- `ContainerSummary`, whole.
pub record ListedContainer : Type 0 where
  pub id : String
  pub name : String
  pub project_id : String
  pub state : String
  pub health_status : String

abbrev pub starts_with : String → String → Bool
starts_with String.[] s = true
starts_with (String.◌∷◌ c rest) String.[] = false
starts_with (String.◌∷◌ c rest) (String.◌∷◌ d s) =
    let more = starts_with rest s in nat_eq (code c) (code d) && more

-- `containsStr`: the text has the other at one of its positions.
unfoldable pub contains_str : String → String → Bool
contains_str String.[] sub = starts_with sub String.[]
contains_str (String.◌∷◌ c s) sub =
    let later = contains_str s sub in starts_with sub (String.◌∷◌ c s) || later

unfoldable pub parse_health_status : String → String
unfolding contains_str
parse_health_status status =
    if contains_str status "healthy" && not (contains_str status "unhealthy")
    then "healthy"
    else if contains_str status "unhealthy"
    then "unhealthy"
    else ""

abbrev pub first_name : List String → String
first_name [] = ""
first_name (name ∷ rest) = name

abbrev pub summary_of : (Container → String) → Container → ListedContainer
summary_of health c = record {
  id = c.id;
  name = first_name c.names;
  project_id = c.project_label;
  state = c.state;
  health_status = health c;
}

unfoldable pub health_of : Container → String
unfolding parse_health_status
health_of c =
    if not (c.status == "") && c.state == "running" then parse_health_status c.status else ""

-- The label that `ListByProject` asks for.
abbrev pub project_filter : String → String
project_filter project_id = concat ("com.docker.compose.project=" ∷ project_id ∷ [])

abbrev pub summaries :
    (Container → String) → Option (List Container) → Option (List ListedContainer)
summaries health none = none
summaries health (some containers) = some (map (summary_of health) containers)

-- `ListByProject`; `container_list` answers to a filter by a label, `none` with an error.
unfoldable pub list_by_project :
    (String → Option (List Container)) → String → Option (List ListedContainer)
unfolding health_of
list_by_project container_list project_id =
    summaries health_of (container_list (project_filter project_id))

-- `ListAllControlaiContainers`, which leaves the health out.
unfoldable pub list_all_controlai_containers :
    (String → Option (List Container)) → Option (List ListedContainer)
list_all_controlai_containers container_list =
    summaries (λ c. "") (container_list "controlai.tenant")

-- A status that says "unhealthy" does not count as healthy.
unhealthy_status : parse_health_status "Up 2 hours (unhealthy)" ≡ "unhealthy"
unfolding parse_health_status
unhealthy_status = refl

healthy_status : parse_health_status "Up 5 minutes (healthy)" ≡ "healthy"
unfolding parse_health_status
healthy_status = refl
