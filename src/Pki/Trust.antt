-- ===== src/Pki/Trust.antt =====
-- internal/pki/trust.go: `EnsureTrustFiles`.
use controlai.Prelude.{path, String, Bool, true, false, Option, none, some, [], ◌∷◌, pos, concat}
use controlai.Files.Attempts.{Attempt, pure, answer, and_then, ◌>>=◌, ◌>>◌}
use controlai.Files.Disk.{DiskOp, mkdir_all, stat, write_file}
use controlai.Files.Atomic.{write_pem}
use controlai.Pki.X509.{X509, PkiError}
use controlai.Pki.Authority.{Ca, PkiOp, on_disk, parse_cert, decrypt_key}
use controlai.Pki.Issuing.{first_bytes, issue_leaf_cert, issue_server_cert}
use controlai.Pki.Rotation.{RotationReason, needs_rotation}

pub record TrustFileConfig : Type 0 where
  pub site_id : String
  pub tenant_id : String
  pub cert_dir : String
  pub sni_hostname : String
  pub master_key : String
  pub ca_cert_pem : String
  pub ca_key_enc : String
  pub ca_key_nonce : String

pub record TrustFileResult : Type 0 where
  pub server_rotated : Bool
  pub ingestor_rotated : Bool

abbrev pub in_dir : TrustFileConfig → String → String
in_dir cfg name = path (cfg.cert_dir ∷ name ∷ [])

-- The CA's certificate is written where `os.Stat` does not find the file.
abbrev pub write_missing : String → String → Bool → DiskOp (Unit {0})
write_missing p c true = pure tt
write_missing p c false = write_file p c

abbrev pub ensure_ca_file : String → String → DiskOp (Unit {0})
ensure_ca_file p c = do there ← stat p; write_missing p c there

-- A certificate and its key, written one after the other.
abbrev pub write_pair : String → String → String → String → DiskOp (Unit {0})
write_pair cert_path key_path cert key = do write_pem cert_path cert; write_pem key_path key

abbrev pub stored_ca : (x : X509) → TrustFileConfig → Ca x
stored_ca x cfg = record {
  cert_pem = cfg.ca_cert_pem;
  key_encrypted = cfg.ca_key_enc;
  key_nonce = cfg.ca_key_nonce;
  fingerprint = "";
  cert = none;
  key = none;
}

-- `loadCA`.
unfoldable pub load_ca : (x : X509) → TrustFileConfig → Attempt PkiError (Ca x)
load_ca x cfg =
    and_then (parse_cert x (stored_ca x cfg)) (λ parsed. decrypt_key x cfg.master_key parsed)

module _ (x : X509) (cfg : TrustFileConfig) where
  abbrev pub rotate_server : Option RotationReason → PkiOp x Bool
  rotate_server none = pure false
  rotate_server (some reason) = do
    ca ← answer (load_ca x cfg)
    cert ← issue_server_cert x ca (cfg.sni_hostname ∷ [])
    on_disk x
        (write_pair (in_dir cfg "server.crt") (in_dir cfg "server.key") cert.cert_pem cert.key_pem)
    pure true

  -- The server certificate: checked, and issued again where there is a reason.
  abbrev pub ensure_server : PkiOp x Bool
  ensure_server = do
    reason ←
        needs_rotation x (in_dir cfg "server.crt") (some cfg.ca_cert_pem)
          (some (cfg.sni_hostname ∷ []))
    rotate_server reason

  abbrev pub ingestor_name : String
  ingestor_name = first_bytes 63 (concat ("controlai-ingest-" ∷ cfg.site_id ∷ []))

  abbrev pub rotate_ingestor : Option RotationReason → PkiOp x Bool
  rotate_ingestor none = pure false
  rotate_ingestor (some reason) = do
    ca ← answer (load_ca x cfg)
    cert ← issue_leaf_cert x ca ingestor_name (pos 365)
    on_disk x (
        write_pair (in_dir cfg "ingestor.crt") (in_dir cfg "ingestor.key") cert.cert_pem
          cert.key_pem)
    pure true

  -- The ingestor's certificate, for which no names are required.
  abbrev pub ensure_ingestor : PkiOp x Bool
  ensure_ingestor = do
    reason ← needs_rotation x (in_dir cfg "ingestor.crt") (some cfg.ca_cert_pem) none
    rotate_ingestor reason

  -- `EnsureTrustFiles`.
  unfoldable pub ensure_trust_files : PkiOp x TrustFileResult
  ensure_trust_files = do
    on_disk x (mkdir_all cfg.cert_dir)
    on_disk x (ensure_ca_file (in_dir cfg "ca.crt") cfg.ca_cert_pem)
    server ← ensure_server
    ingestor ← ensure_ingestor
    pure (record { server_rotated = server; ingestor_rotated = ingestor })
