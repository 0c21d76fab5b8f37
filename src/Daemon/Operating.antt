-- ===== src/Daemon/Operating.antt =====
-- internal/daemon/server.go: the handlers of the status, of logs, and of messages to a site's devices.
use controlai.Prelude.{
  ℕ, suc, zero, String, ◌==◌, ℤ, pos, negsuc, Bool, true, false, Option, none, some, List, [], ◌∷◌,
  ◌++◌, length, path, concat, ltb, if◌then◌else◌,
}
use controlai.Store.Rows.{TenantRow, SiteRow}
use controlai.Store.Query.{Result, ok, err, Db}
use controlai.Store.Tenants.{list_tenants, get_tenant}
use controlai.Store.Sites.{get_site, list_sites_by_tenant}
use controlai.Daemon.Lifecycle.{site_project}

pub record TenantStatus : Type 0 where
  pub id : String
  pub name : String
  pub status : String
  pub retention : String
  pub site_count : ℕ

-- The sites that a listing returns: none on an error.
abbrev pub count_listed : Result (List SiteRow) → ℕ
count_listed (ok sites) = length sites
count_listed (err e) = 0

abbrev pub status_of : TenantRow → ℕ → TenantStatus
status_of t n = record {
  id = t.id;
  name = t.name;
  status = t.status;
  retention = t.retention;
  site_count = n;
}

unfoldable pub statuses : List TenantRow → Db → List TenantStatus × Db
statuses [] db = ([], db)
statuses (t ∷ rest) db =
    let (sites, db') = list_sites_by_tenant t.id db in
    let (more, db'') = statuses rest db' in (status_of t (count_listed sites) ∷ more, db'')

abbrev pub with_listed : Result (List TenantRow) × Db → (ℕ × List TenantStatus) × Db
with_listed (err e, db) = ((500, []), db)
with_listed (ok tenants, db) = let (out, db') = statuses tenants db in ((200, out), db')

-- `handleStatus`.
unfoldable pub handle_status : Db → (ℕ × List TenantStatus) × Db
unfolding statuses
handle_status db = with_listed (list_tenants db)

pub record PublishRequest : Type 0 where
  pub topic : String
  pub payload : String
  pub qos : ℤ

-- A quality of service that is not 0, 1 or 2 counts as 1.
unfoldable pub qos_of : ℤ → ℕ
qos_of (pos n) = if ltb 2 n then 1 else n
qos_of (negsuc n) = 1

-- `publish` is `mqttPublish` with a host, a directory of certificates, a topic, a payload and a quality.
module _ {W : Type 0} (publish : W → String → String → String → String → ℕ → Bool × W)
    (data_dir : String) where
  abbrev pub after_publish : Db → Bool × W → ℕ × (Db × W)
  after_publish db (true, w) = (202, (db, w))
  after_publish db (false, w) = (500, (db, w))

  abbrev pub publish_to :
      String → String → PublishRequest → W → Result TenantRow × Db → ℕ × (Db × W)
  publish_to tid sid req w (err e, db) = (404, (db, w))
  publish_to tid sid req w (ok t, db) = after_publish db (
      publish w (concat (sid ∷ "." ∷ tid ∷ "." ∷ t.domain ∷ []))
        (path (data_dir ∷ "tenants" ∷ tid ∷ "sites" ∷ sid ∷ "deploy" ∷ "certs" ∷ "active" ∷ []))
        req.topic req.payload (qos_of req.qos))

  abbrev pub publish_request : String → String → Option PublishRequest → W → Db → ℕ × (Db × W)
  publish_request tid sid none w db = (400, (db, w))
  publish_request tid sid (some req) w db =
      if req.topic == "" then (400, (db, w)) else publish_to tid sid req w (get_tenant tid db)

  abbrev pub publish_at :
      String → String → Option PublishRequest → W → Result SiteRow × Db → ℕ × (Db × W)
  publish_at tid sid req w (err e, db) = (404, (db, w))
  publish_at tid sid req w (ok site, db) =
      if site.direction == "bi" then publish_request tid sid req w db else (409, (db, w))

  -- `handlePublish`.
  unfoldable pub handle_publish : String → String → Option PublishRequest → Db → W → ℕ × (Db × W)
  unfolding qos_of
  handle_publish tid sid req db w = publish_at tid sid req w (get_site sid db)

abbrev pub capped : ℕ → ℕ
capped n = if ltb 1000 n then 1000 else n

-- The lines asked for; `tail` is what `strconv.Atoi` makes of the parameter, `none` where it is missing
-- or no number.
unfoldable pub tail_of : Option ℤ → ℕ
tail_of none = 100
tail_of (some (pos zero)) = 100
tail_of (some (pos (suc n))) = capped (suc n)
tail_of (some (negsuc n)) = 100

abbrev pub service_arg : String → List String
service_arg s = if s == "" then [] else s ∷ []

-- The arguments of `docker`; `decimal` is `strconv.Itoa`.
unfoldable pub log_args : (ℕ → String) → String → String → String → String → Option ℤ → List String
unfolding tail_of
log_args decimal data_dir tid sid service tail =
    ("compose"
      ∷ "-p"
      ∷ site_project tid sid
      ∷ "-f"
      ∷ path (data_dir ∷ "tenants" ∷ tid ∷ "sites" ∷ sid ∷ "docker-compose.yml" ∷ [])
      ∷ "logs"
      ∷ "--no-color"
      ∷ "--tail"
      ∷ decimal (tail_of tail)
      ∷ [])
    ++ service_arg service

-- The command's output is the body whether it succeeds or not; `docker` runs it.
abbrev pub logs_at :
    {W : Type 0}
    → (W → List String → String × W)
    → List String
    → W
    → Result SiteRow × Db
    → (ℕ × String) × (Db × W)
logs_at docker args w (err e, db) = ((404, ""), (db, w))
logs_at docker args w (ok site, db) = let (out, w') = docker w args in ((200, out), (db, w'))

-- `handleLogs`.
unfoldable pub handle_logs :
    {W : Type 0}
    → (W → List String → String × W)
    → (ℕ → String)
    → String
    → String
    → String
    → String
    → Option ℤ
    → Db
    → W
    → (ℕ × String) × (Db × W)
unfolding log_args
handle_logs docker decimal data_dir tid sid service tail db w =
    logs_at docker (log_args decimal data_dir tid sid service tail) w (get_site sid db)
