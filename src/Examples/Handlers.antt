-- ===== src/Examples/Handlers.antt =====
-- The handlers and the provisioning at concrete inputs.
use controlai.Prelude.{
  ◌+◌, sum, map, select, String, true, false, ◌&&◌, ◌==◌, none, some, List, [], ◌∷◌, ◌≡◌, refl,
  if◌then◌else◌,
}
use controlai.Store.Tables.Statements.{has}
use controlai.Store.Rows.{TokenRow, TenantRow, TsdbCreds, EmqxApiKey, Tables}
use controlai.Store.Query.{ok, run}
use controlai.Store.RoundTrips.{quiet}
use controlai.Store.Tenants.{tenant_id_of, scan_tenant}
use controlai.Store.Secrets.{get_tsdb_creds}
use controlai.Store.Tokens.{lookup_token, select_token, revoke_token}
use controlai.Capacity.Predictions.{TenantPlan}
use controlai.Capacity.Costs.{plan_cost}
use controlai.Daemon.Reports.{capacity_plans, stored_cost, capacity_plans-count_sites}
use controlai.Daemon.Access.{bearer, token_auth, token_auth-revoked}
use controlai.Daemon.Lifecycle.{Handler, reply, tsdb_project, handle_stop_tenant}
use controlai.Daemon.Stops.{wanted_state, is_project_of, handle_stop_tenant-stops}
use controlai.Daemon.Provision.{new_creds, ensure_tsdb_creds, ensure_emqx_key}
use controlai.Daemon.Credentials.{
  ensure_tsdb_creds-again, ensure_emqx_key-again, ensure_tsdb_creds-replaces,
}
use controlai.Render.Results.{RenderResult}
use controlai.Daemon.Rendering.{TenantCtx, CredsCtx, Renderer, provided, render_and_write_tsdb}
use controlai.Daemon.Wanted.{target, render_and_write_tsdb-wanted}
use controlai.Examples.Fixtures.{acme, one_tenant}

abbrev ci_token : TokenRow
ci_token = record {
  id = "1";
  display_name = "ci";
  hash = "secret";
  prefix = "secret";
  revoked = false;
  created_at = 1;
  revoked_at = none;
}

stop_tenant_example :
    ((handle_stop_tenant true "tnt_acme" (quiet 9 one_tenant)).0.status
      ≡ (if has tenant_id_of "tnt_acme" one_tenant.tenants then 202 else 404))
    × (wanted_state "tnt_acme-ste_plant"
          (handle_stop_tenant true "tnt_acme" (quiet 9 one_tenant)).1.tables
        ≡ (if has tenant_id_of "tnt_acme" one_tenant.tenants
              && is_project_of "tnt_acme" "tnt_acme-ste_plant" one_tenant.sites
            then some "stopped"
            else wanted_state "tnt_acme-ste_plant" one_tenant))
stop_tenant_example = handle_stop_tenant-stops true "tnt_acme" "tnt_acme-ste_plant" 9 one_tenant

creds_example :
    (c : TsdbCreds) × ((ensure_tsdb_creds "a" "b" "tnt_acme" (quiet 9 one_tenant)).0 ≡ ok c)
    × ((ensure_tsdb_creds "c" "d" "tnt_acme"
          (ensure_tsdb_creds "a" "b" "tnt_acme" (quiet 9 one_tenant)).1).0
        ≡ ok c)
creds_example = ensure_tsdb_creds-again "a" "b" "c" "d" "tnt_acme" 9 one_tenant refl

key_example :
    (k : EmqxApiKey) × ((ensure_emqx_key "a" "ste_plant" (quiet 9 one_tenant)).0 ≡ ok k)
    × ((ensure_emqx_key "b" "ste_plant" (ensure_emqx_key "a" "ste_plant" (quiet 9 one_tenant)).1).0
        ≡ ok k)
key_example = ensure_emqx_key-again "a" "b" "ste_plant" 9 one_tenant refl

abbrev with_creds : Tables
with_creds = record one_tenant { tsdb_credentials = new_creds "a" "b" "tnt_acme" ∷ [] }

replaced_example :
    (get_tsdb_creds "tnt_acme"
      (ensure_tsdb_creds "c" "d" "tnt_acme"
        (record { tables = with_creds; now = 9; faults = true ∷ [] })).1).0
    ≡ ok (record (new_creds "a" "b" "tnt_acme") { superuser_pass = "c"; ingest_pass = "d" })
replaced_example =
    ensure_tsdb_creds-replaces "c" "d" "tnt_acme" (new_creds "a" "b" "tnt_acme") 9 with_creds refl
      refl

abbrev one_file : TenantCtx → CredsCtx → List RenderResult
one_file ctx c =
    record { rel_path = "docker-compose.yml"; content = ctx.id; hash = c.ingest_pass } ∷ []

-- The files written so far.
abbrev disk : Renderer
disk = record {
  World = List String;
  render_tenant_tsdb = λ ctx c. some (one_file ctx c);
  render_site = λ ctx. some [];
  render_traefik_dynamic = λ ctx. some [];
  write_results = λ w dir rs. (true, dir ∷ w);
}

abbrev same_text : String → String
same_text s = s

wanted_example :
    (hash : String) × ((render_and_write_tsdb disk same_text "/data" "a" "b" "tnt_acme"
        (quiet 9 one_tenant)
        []).0
      ≡ provided hash)
    × (target
          (tsdb_project "tnt_acme")
          (render_and_write_tsdb disk same_text "/data" "a" "b" "tnt_acme"
            (quiet 9 one_tenant)
            []).1.0.tables
        ≡ some ("running", hash))
wanted_example =
    render_and_write_tsdb-wanted disk same_text "/data" "a" "b" "tnt_acme" 9 one_tenant [] one_file
      (λ ctx c. refl) (λ w dir rs. refl) refl

abbrev with_token : Tables
with_token = record one_tenant { auth_tokens = ci_token ∷ [] }

token_found : (lookup_token same_text "secret" (quiet 9 with_token)).0 ≡ ok ci_token
unfolding lookup_token select_token run
token_found = refl

abbrev behind : Handler
behind db = reply 200 false db

revoked_token_example :
    token_auth same_text (bearer "secret") behind (revoke_token "1" (quiet 9 with_token)).1
    ≡ reply 401 false (revoke_token "1" (quiet 9 with_token)).1
revoked_token_example =
    token_auth-revoked same_text behind "secret" ci_token 9 with_token token_found

abbrev acme_row : TenantRow
acme_row = scan_tenant acme

count_sites_example :
    (plans : List TenantPlan) × (capacity_plans (acme_row ∷ []) (quiet 9 one_tenant)
      ≡ (ok plans, quiet 9 one_tenant))
    × (plan_cost plans
        ≡ sum (
            map
              (λ r.
                350 + sum (map stored_cost (select (λ s. s.tenant_id == r.id) one_tenant.sites)))
              (acme_row ∷ [])))
count_sites_example = capacity_plans-count_sites (acme_row ∷ []) 9 one_tenant
