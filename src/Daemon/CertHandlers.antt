-- ===== src/Daemon/CertHandlers.antt =====
-- internal/daemon/server.go: the handlers that issue and revoke the certificates of gateways.
use controlai.Prelude.{
  ℕ, String, ◌==◌, ℤ, false, Option, none, some, [], ◌∷◌, codes, concat, path, if◌then◌else◌,
}
use controlai.Config.Slugs.{validate_slug_http}
use controlai.Files.Attempts.{Attempt, done, failed, and_then}
use controlai.Store.Rows.{
  SiteRow, CaCertRow, CertRow, Event, pki_issue_cert, pki_revoke_cert, broker_restart,
}
use controlai.Store.Query.{Result, ok, err, Db}
use controlai.Store.Sites.{get_site}
use controlai.Store.Certs.{get_ca_cert, store_cert, revoke_cert}
use controlai.Store.Audit.{emit}
use controlai.Pki.X509.{X509, PkiError}
use controlai.Pki.Authority.{Ca, Host, parse_cert, decrypt_key}
use controlai.Pki.Issuing.{LeafCert, first_bytes, issue_leaf_cert}
use controlai.Daemon.Lifecycle.{
  drop_result, error_status, event_of, site_project, tenant_project_id,
}

pub record IssueCertRequest : Type 0 where
  pub gateway : String
  pub ttl_days : ℤ

abbrev pub cert_row_of : String → String → LeafCert → CertRow
cert_row_of sid cn leaf = record {
  id = "";
  site_id = sid;
  kind = "gateway";
  common_name = cn;
  cert_pem = leaf.cert_pem;
  fingerprint = leaf.fingerprint;
  not_before = leaf.not_before;
  not_after = leaf.not_after;
  revoked = false;
  revoked_at = none;
  created_at = 0;
}

-- `uuid` is the identifier that the store makes for a row.
module _ (x : X509) (master_key uuid : String) where
  -- The status, and the certificate with its key in the body of a 201.
  abbrev pub IssueReply : Type 0
  IssueReply = (ℕ × Option LeafCert) × (Db × Host x)

  abbrev pub refuse : ℕ → Db → Host x → IssueReply
  refuse status db h = ((status, none), (db, h))

  abbrev pub row_ca : CaCertRow → Ca x
  row_ca r = record {
    cert_pem = r.cert_pem;
    key_encrypted = r.key_enc;
    key_nonce = r.key_nonce;
    fingerprint = "";
    cert = none;
    key = none;
  }

  -- `ParseCert` and `DecryptKey` on the stored authority.
  abbrev pub opened_ca : CaCertRow → Attempt PkiError (Ca x)
  opened_ca r = and_then (parse_cert x (row_ca r)) (λ ca. decrypt_key x master_key ca)

  abbrev pub record_issued : String → String → String → LeafCert → Db → Db
  record_issued tid sid cn leaf db =
      let (project, db') =
        tenant_project_id tid (drop_result (store_cert uuid (cert_row_of sid cn leaf)) db) in
      drop_result
        (emit (
          event_of pki_issue_cert tid sid project
            (concat ("{\"cn\":\"" ∷ cn ∷ "\",\"fingerprint\":\"" ∷ leaf.fingerprint ∷ "\"}" ∷ []))))
        db'

  abbrev pub after_issue :
      String → String → String → Db → Attempt PkiError LeafCert × Host x → IssueReply
  after_issue tid sid cn db (failed e, h) = refuse 500 db h
  after_issue tid sid cn db (done leaf, h) =
      ((201, some leaf), (record_issued tid sid cn leaf db, h))

  abbrev pub issue_with :
      String → String → IssueCertRequest → Db → Host x → Attempt PkiError (Ca x) → IssueReply
  issue_with tid sid req db h (failed e) = refuse 500 db h
  issue_with tid sid req db h (done ca) =
      after_issue tid sid (first_bytes 63 req.gateway) db
        (issue_leaf_cert x ca (first_bytes 63 req.gateway) req.ttl_days h)

  abbrev pub with_ca :
      String → String → IssueCertRequest → Host x → Result CaCertRow × Db → IssueReply
  with_ca tid sid req h (err e, db) = refuse 404 db h
  with_ca tid sid req h (ok row, db) = issue_with tid sid req db h (opened_ca row)

  abbrev pub with_site :
      String → String → IssueCertRequest → Host x → Result SiteRow × Db → IssueReply
  with_site tid sid req h (err e, db) = refuse (error_status e) db h
  with_site tid sid req h (ok site, db) =
      if master_key == "" then refuse 503 db h else with_ca tid sid req h (get_ca_cert sid db)

  -- `handlePKIIssueCert`; a lifetime that is not positive is left to `IssueLeafCert`, with the same default.
  unfoldable pub handle_issue_cert :
      String → String → Option IssueCertRequest → Db → Host x → IssueReply
  handle_issue_cert tid sid none db h = refuse 400 db h
  handle_issue_cert tid sid (some req) db h =
      if req.gateway == ""
      then refuse 400 db h
      else if validate_slug_http (codes req.gateway)
      then with_site tid sid req h (get_site sid db)
      else refuse 400 db h

-- `restart` is `docker compose restart broker` for a project and its file: `none` where it succeeds, else
-- the text of the error, quoted.
module _ {W : Type 0} (restart : W → String → String → Option String × W) (data_dir : String) where
  abbrev pub restart_event : String → String → Option String → Event
  restart_event tid sid none = event_of broker_restart tid sid "" "{\"trigger\":\"revocation\"}"
  restart_event tid sid (some e) =
      record (event_of broker_restart tid sid ""
        (concat ("{\"err\":" ∷ e ∷ ",\"trigger\":\"revocation\"}" ∷ []))) { success = false }

  abbrev pub after_restart : String → String → Db → Option String × W → Db × W
  after_restart tid sid db (e, w) = (drop_result (emit (restart_event tid sid e)) db, w)

  -- `restartBroker` and its event, for sites with mosquitto.
  abbrev pub restart_broker : String → String → W → Result SiteRow × Db → Db × W
  restart_broker tid sid w (err e, db) = (db, w)
  restart_broker tid sid w (ok site, db) =
      if site.broker_kind == "mosquitto"
      then after_restart tid sid db (
          restart w (site_project tid sid)
            (path (data_dir ∷ "tenants" ∷ tid ∷ "sites" ∷ sid ∷ "docker-compose.yml" ∷ [])))
      else (db, w)

  abbrev pub revoked_event : String → String → String → Db → Db
  revoked_event tid sid fp db =
      let (project, db') = tenant_project_id tid db in
      drop_result
        (emit (
          event_of pki_revoke_cert tid sid project
            (concat ("{\"fingerprint\":\"" ∷ fp ∷ "\"}" ∷ []))))
        db'

  abbrev pub after_revoke : String → String → String → W → Result (Unit {0}) × Db → ℕ × (Db × W)
  after_revoke tid sid fp w (err e, db) = (error_status e, (db, w))
  after_revoke tid sid fp w (ok u, db) =
      (204, restart_broker tid sid w (get_site sid (revoked_event tid sid fp db)))

  abbrev pub revoke_at : String → String → String → W → Result SiteRow × Db → ℕ × (Db × W)
  revoke_at tid sid fp w (err e, db) = (error_status e, (db, w))
  revoke_at tid sid fp w (ok site, db) = after_revoke tid sid fp w (revoke_cert fp db)

  -- `handlePKIRevokeCert`.
  unfoldable pub handle_revoke_cert : String → String → String → Db → W → ℕ × (Db × W)
  handle_revoke_cert tid sid fp db w = revoke_at tid sid fp w (get_site sid db)
