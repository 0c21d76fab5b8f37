-- ===== src/Pki/Frames.antt =====
-- Which files the operations of internal/pki/trust.go leave as they are.
use text.Mathlib.TextLemmas.{append_cancel_left, append-nil, append_assoc}
use controlai.Prelude.{
  ◌≡◌, ◌≢◌, refl, sym, ◌∙◌, String, Bool, true, false, Option, none, some, List, [], ◌∷◌, ◌==◌,
  eq_iff, path, ℕ, ℤ, pos,
}
use controlai.Files.Attempts.{Attempt, done, failed, answer, required}
use controlai.Files.Disk.{Disk, DiskOp, FileError, stat}
use controlai.Files.Atomic.{temporary, write_pem}
use controlai.Files.Frames.{
  Leaves, continue-Leaves, bind-Leaves, file, read_file-Leaves, write_file-Leaves, write_pem-Leaves,
}
use controlai.Pki.X509.{X509, PkiError, Template, marshal_failed, key_failed}
use controlai.Pki.Authority.{Ca, Host, on_disk, with_disk, ask, must_serial}
use controlai.Pki.Issuing.{
  signer_of, first_san, sign_new, issue_leaf_cert, issue_server_cert, server_template,
  leaf_template, leaf_days,
}
use controlai.Pki.Rotation.{RotationReason, needs_rotation}
use controlai.Pki.Trust.{
  TrustFileConfig, in_dir, write_missing, ensure_ca_file, write_pair, load_ca, rotate_server,
  ensure_server, rotate_ingestor, ensure_ingestor, ingestor_name,
}

pub path-differs : (d n m : String) → n ≢ m → path (d ∷ n ∷ []) ≢ path (d ∷ m ∷ [])
path-differs d n m h e =
    h (sym (append-nil n) ∙ append_cancel_left "/" _ _ (append_cancel_left d _ _ e) ∙ append-nil m)

pub temporary-path : (d n : String) → temporary (path (d ∷ n ∷ [])) ≡ path (d ∷ temporary n ∷ [])
temporary-path d n = simp (append_assoc, append-nil)

pub temporary-path-differs :
    (d n m : String) → temporary n ≢ m → temporary (path (d ∷ n ∷ [])) ≢ path (d ∷ m ∷ [])
temporary-path-differs d n m h e = path-differs d (temporary n) m h (sym (temporary-path d n) ∙ e)

pub texts-differ : (s t : String) → (s == t) ≡ false → s ≢ t
texts-differ s t h e = absurd (cc (h, (eq_iff s t).1 e))

module _ (x : X509) (p : String) where
  abbrev pub file_of : Host x → Option String
  file_of h = file p h.disk

  pub on_disk-Leaves :
      {A : Type 0} (m : DiskOp A) → Leaves (file p) m → Leaves file_of (on_disk x m)
  on_disk-Leaves {A} m l h = lifted (m h.disk) (l h.disk)
    where
      lifted :
          (out : Attempt FileError A × Disk)
          → file p out.1 ≡ file_of h
          → file_of (with_disk x h.world out).1 ≡ file_of h
      lifted (done a, d) e = e
      lifted (failed err, d) e = e

  ask-Leaves :
      {A : Type 0} (e : PkiError) (f : x.World → Option A × x.World) → Leaves file_of (ask x e f)
  ask-Leaves e f h = refl

  sign_new-Leaves :
      (signer : x.Certificate × x.PrivateKey) (template : ℕ → ℕ → Template)
      → Leaves file_of (sign_new x signer template)
  unfolding must_serial
  sign_new-Leaves (c, k) template =
      bind-Leaves file_of (ask x key_failed x.generate_key) _ (λ h. refl)
        (λ key h. continue-Leaves file_of (file_of h) _ _ refl (λ der.
          bind-Leaves file_of (answer (required marshal_failed (x.marshal_key key))) _ (λ g. refl)
            (λ key_der g. refl)))

  issue_server_cert-Leaves :
      (ca : Ca x) (sans : List String) → Leaves file_of (issue_server_cert x ca sans)
  unfolding issue_server_cert
  issue_server_cert-Leaves ca sans =
      bind-Leaves file_of (answer (signer_of x ca)) _ (λ h. refl)
        (λ signer.
          bind-Leaves file_of (answer (first_san x sans)) _ (λ h. refl)
            (λ names.
              let template = server_template x names.0 names.1 in
              bind-Leaves file_of (sign_new x signer template) _ (sign_new-Leaves signer template)
                (λ cert h. refl)))

  issue_leaf_cert-Leaves :
      (ca : Ca x) (cn : String) (days : ℤ) → Leaves file_of (issue_leaf_cert x ca cn days)
  unfolding issue_leaf_cert
  issue_leaf_cert-Leaves ca cn days =
      bind-Leaves file_of (answer (signer_of x ca)) _ (λ h. refl)
        (λ signer. sign_new-Leaves signer (leaf_template x cn (leaf_days days)))

  needs_rotation-Leaves :
      (q : String) (ca : Option String) (sans : Option (List String))
      → Leaves file_of (needs_rotation x q ca sans)
  unfolding needs_rotation
  needs_rotation-Leaves q ca sans h = read_file-Leaves p q h.disk

  -- A pair of files of other names.
  write_pair-Leaves :
      (q r cert key : String)
      → q ≢ p
      → temporary q ≢ p
      → r ≢ p
      → temporary r ≢ p
      → Leaves (file p) (write_pair q r cert key)
  write_pair-Leaves q r cert key a b c d =
      bind-Leaves (file p) (write_pem q cert) _ (write_pem-Leaves p q cert a b)
        (λ u. write_pem-Leaves p r key c d)

module _ (x : X509) (cfg : TrustFileConfig) where
  abbrev pub named : String → Host x → Option String
  named n h = file_of x (in_dir cfg n) h

  write_pair_of-Leaves :
      (n q r cert key : String)
      → q ≢ n
      → temporary q ≢ n
      → r ≢ n
      → temporary r ≢ n
      → Leaves (named n) (on_disk x (write_pair (in_dir cfg q) (in_dir cfg r) cert key))
  write_pair_of-Leaves n q r cert key a b c d =
      on_disk-Leaves x (in_dir cfg n) (write_pair (in_dir cfg q) (in_dir cfg r) cert key) (
        write_pair-Leaves x (in_dir cfg n) (in_dir cfg q) (in_dir cfg r) cert key
          (path-differs cfg.cert_dir q n a) (temporary-path-differs cfg.cert_dir q n b)
          (path-differs cfg.cert_dir r n c) (temporary-path-differs cfg.cert_dir r n d))

  -- The server's step leaves the ingestor's certificate, and the ingestor's the server's.
  pub ensure_server-Leaves : Leaves (named "ingestor.crt") (ensure_server x cfg)
  ensure_server-Leaves =
      bind-Leaves (named "ingestor.crt")
        (needs_rotation x (in_dir cfg "server.crt") (some cfg.ca_cert_pem)
          (some (cfg.sni_hostname ∷ [])))
        (rotate_server x cfg) (needs_rotation-Leaves x _ _ _ _) rotate
    where
      rotate : (o : Option RotationReason) → Leaves (named "ingestor.crt") (rotate_server x cfg o)
      rotate none = λ h. refl
      rotate (some reason) =
          bind-Leaves (named "ingestor.crt") (answer (load_ca x cfg)) _ (λ h. refl)
            (λ ca.
              bind-Leaves (named "ingestor.crt") (issue_server_cert x ca (cfg.sni_hostname ∷ [])) _
                (issue_server_cert-Leaves x _ ca (cfg.sni_hostname ∷ []))
                (λ cert.
                  bind-Leaves (named "ingestor.crt")
                    (on_disk x (
                      write_pair (in_dir cfg "server.crt") (in_dir cfg "server.key") cert.cert_pem
                        cert.key_pem))
                    _
                    (write_pair_of-Leaves "ingestor.crt" "server.crt" "server.key" cert.cert_pem
                      cert.key_pem (texts-differ _ _ refl) (texts-differ _ _ refl)
                      (texts-differ _ _ refl) (texts-differ _ _ refl))
                    (λ u h. refl)))

  pub ensure_ingestor-Leaves : Leaves (named "server.crt") (ensure_ingestor x cfg)
  ensure_ingestor-Leaves =
      bind-Leaves (named "server.crt")
        (needs_rotation x (in_dir cfg "ingestor.crt") (some cfg.ca_cert_pem) none)
        (rotate_ingestor x cfg) (needs_rotation-Leaves x _ _ _ _) rotate
    where
      rotate : (o : Option RotationReason) → Leaves (named "server.crt") (rotate_ingestor x cfg o)
      rotate none = λ h. refl
      rotate (some reason) =
          bind-Leaves (named "server.crt") (answer (load_ca x cfg)) _ (λ h. refl)
            (λ ca.
              bind-Leaves (named "server.crt")
                (issue_leaf_cert x ca (ingestor_name x cfg) (pos 365)) _
                (issue_leaf_cert-Leaves x _ ca (ingestor_name x cfg) (pos 365))
                (λ cert.
                  bind-Leaves (named "server.crt")
                    (on_disk x (
                      write_pair (in_dir cfg "ingestor.crt") (in_dir cfg "ingestor.key")
                        cert.cert_pem cert.key_pem))
                    _
                    (write_pair_of-Leaves "server.crt" "ingestor.crt" "ingestor.key" cert.cert_pem
                      cert.key_pem (texts-differ _ _ refl) (texts-differ _ _ refl)
                      (texts-differ _ _ refl) (texts-differ _ _ refl))
                    (λ u h. refl)))

  -- The first two steps leave every certificate.
  pub ca_file-Leaves :
      (n : String)
      → "ca.crt" ≢ n
      → Leaves (named n) (on_disk x (ensure_ca_file (in_dir cfg "ca.crt") cfg.ca_cert_pem))
  unfolding stat
  ca_file-Leaves n h =
      on_disk-Leaves x (in_dir cfg n) (ensure_ca_file (in_dir cfg "ca.crt") cfg.ca_cert_pem) (
        bind-Leaves (file (in_dir cfg n)) (stat (in_dir cfg "ca.crt"))
          (write_missing (in_dir cfg "ca.crt") cfg.ca_cert_pem) (λ d. refl) written)
    where
      written :
          (b : Bool)
          → Leaves (file (in_dir cfg n)) (write_missing (in_dir cfg "ca.crt") cfg.ca_cert_pem b)
      written true = λ d. refl
      written false =
          write_file-Leaves (in_dir cfg n) (in_dir cfg "ca.crt") cfg.ca_cert_pem
            (path-differs cfg.cert_dir "ca.crt" n h)
