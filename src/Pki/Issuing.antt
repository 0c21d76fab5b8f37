-- ===== src/Pki/Issuing.antt =====
-- internal/pki/leaf.go and internal/pki/server.go: certificates signed by the authority of a site.
use Prim.Native.Char.{code}
use Prim.Native.String.{◌∷◌ as char_then}
use controlai.Prelude.{
  ℕ, zero, suc, ◌-◌, String, ℤ, pos, negsuc, false, List, [], ◌∷◌, utf8_width, leb, if◌then◌else◌,
}
use controlai.Files.Attempts.{Attempt, done, failed, pure, answer, and_then, required, ◌>>=◌}
use controlai.Pki.X509.{
  X509, PkiError, bad_certificate, key_not_decrypted, no_san, key_failed, sign_failed,
  marshal_failed, Template, server_auth, client_auth, digital_signature, key_encipherment,
}
use controlai.Pki.Authority.{Ca, PkiOp, ask, skewed_now, must_serial, fingerprint, parse_cert}

abbrev pub server_ttl_years : ℕ
server_ttl_years = 10

-- `cn[:n]` where `cn` is longer. Go cuts bytes, and here a character that does not fit whole is left out; in
-- ASCII, as in identifiers made from slugs, it is the same.
unfoldable pub first_bytes : ℕ → String → String
first_bytes n String.[] = ""
first_bytes n (String.◌∷◌ c s) =
    let rest = first_bytes (n - utf8_width (code c)) s in
    if leb (utf8_width (code c)) n then char_then c rest else ""

-- `ttlDays`, 365 where it is not positive.
unfoldable pub leaf_days : ℤ → ℕ
leaf_days (pos zero) = 365
leaf_days (pos (suc n)) = suc n
leaf_days (negsuc n) = 365

pub record LeafCert : Type 0 where
  pub cert_pem : String
  pub key_pem : String
  pub fingerprint : String
  pub not_before : ℕ
  pub not_after : ℕ

pub record ServerCert : Type 0 where
  pub cert_pem : String
  pub key_pem : String
  pub fingerprint : String
  pub not_before : ℕ
  pub not_after : ℕ
  pub sans : List String

module _ (x : X509) where
  abbrev pub leaf_template : String → ℕ → ℕ → ℕ → Template
  leaf_template cn days n t = record {
    serial_number = n;
    common_name = first_bytes 63 cn;
    not_before = t;
    not_after = x.add_date t 0 days;
    is_ca = false;
    key_usage = digital_signature ∷ [];
    ext_key_usage = client_auth ∷ [];
    dns_names = [];
  }

  abbrev pub server_template : String → List String → ℕ → ℕ → Template
  server_template san more n t = record {
    serial_number = n;
    common_name = san;
    not_before = t;
    not_after = x.add_date t server_ttl_years 0;
    is_ca = false;
    key_usage = digital_signature ∷ key_encipherment ∷ [];
    ext_key_usage = server_auth ∷ client_auth ∷ [];
    dns_names = san ∷ more;
  }

  -- `ParseCert`, then the parsed certificate and the decrypted key.
  abbrev pub signer_of : Ca x → Attempt PkiError (x.Certificate × x.PrivateKey)
  signer_of ca = and_then (parse_cert x ca) (λ parsed.
      and_then (required key_not_decrypted parsed.key)
        (λ k. and_then (required bad_certificate parsed.cert) (λ c. done (c, k))))

  -- A new key, and the certificate that the authority signs for it from a template.
  abbrev pub sign_new : x.Certificate × x.PrivateKey → (ℕ → ℕ → Template) → PkiOp x LeafCert
  sign_new (ca_cert, ca_key) template = do
    k ← ask x key_failed x.generate_key
    t ← skewed_now x
    n ← must_serial x
    der ← ask x sign_failed (λ w. x.sign w (template n t) ca_cert k ca_key)
    key_der ← answer (required marshal_failed (x.marshal_key k))
    pure (record {
      cert_pem = x.pem_encode "CERTIFICATE" der;
      key_pem = x.pem_encode "PRIVATE KEY" key_der;
      fingerprint = fingerprint x der;
      not_before = (template n t).not_before;
      not_after = (template n t).not_after;
    })

  -- `IssueLeafCert`.
  unfoldable pub issue_leaf_cert : Ca x → String → ℤ → PkiOp x LeafCert
  unfolding leaf_days
  issue_leaf_cert ca cn ttl_days = do
    signer ← answer (signer_of ca)
    sign_new signer (leaf_template cn (leaf_days ttl_days))

  abbrev pub first_san : List String → Attempt PkiError (String × List String)
  first_san [] = failed no_san
  first_san (san ∷ more) = done (san, more)

  -- `IssueServerCert`.
  unfoldable pub issue_server_cert : Ca x → List String → PkiOp x ServerCert
  issue_server_cert ca sans = do
    signer ← answer (signer_of ca)
    names ← answer (first_san sans)
    cert ← sign_new signer (server_template names.0 names.1)
    pure (record {
      cert_pem = cert.cert_pem;
      key_pem = cert.key_pem;
      fingerprint = cert.fingerprint;
      not_before = cert.not_before;
      not_after = cert.not_after;
      sans = sans;
    })
