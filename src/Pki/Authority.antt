-- ===== src/Pki/Authority.antt =====
-- internal/pki/ca.go: the certificate authority of a site, with its wrapped key.
use controlai.Prelude.{ℕ, ◌-◌, String, true, Option, none, some, [], ◌∷◌, concat}
use controlai.Files.Attempts.{Attempt, done, failed, Op, pure, answer, and_then, required, ◌>>=◌}
use controlai.Files.Disk.{Disk, DiskOp, FileError}
use controlai.Pki.X509.{
  X509, PkiError, file_error, empty_block, bad_certificate, bad_key, not_rsa, key_failed,
  sign_failed, marshal_failed, encrypt_failed, decrypt_failed, Template, cert_sign, crl_sign,
}

abbrev pub ca_ttl_years : ℕ
ca_ttl_years = 20

-- Five minutes, the tolerance for clocks that differ.
abbrev pub clock_skew : ℕ
clock_skew = 300

module _ (x : X509) where
  pub record Host : Type 0 where
    pub disk : Disk
    pub world : x.World

  abbrev pub PkiOp : Type 0 → Type 0
  PkiOp A = Op Host PkiError A

  abbrev pub with_disk :
      {A : Type 0} → x.World → Attempt FileError A × Disk → Attempt PkiError A × Host
  with_disk w (done a, d) = (done a, record { disk = d; world = w })
  with_disk w (failed e, d) = (failed (file_error e), record { disk = d; world = w })

  abbrev pub on_disk : {A : Type 0} → DiskOp A → PkiOp A
  on_disk m h = with_disk h.world (m h.disk)

  abbrev pub with_world :
      {A : Type 0} → PkiError → Disk → Option A × x.World → Attempt PkiError A × Host
  with_world e d (o, w) = (required e o, record { disk = d; world = w })

  -- A call of the crypto packages that may fail.
  abbrev pub ask : {A : Type 0} → PkiError → (x.World → Option A × x.World) → PkiOp A
  ask e f h = with_world e h.disk (f h.world)

  -- `time.Now().Add(-5 * time.Minute)`.
  abbrev pub skewed_now : PkiOp ℕ
  skewed_now h = (done (x.now h.world - clock_skew), h)

  -- `mustSerial`.
  unfoldable pub must_serial : PkiOp ℕ
  must_serial h = let (n, w) = x.serial h.world in (done n, record h { world = w })

  -- `fingerprint`.
  unfoldable pub fingerprint : String → String
  fingerprint cert_der = x.sha256_hex cert_der

  pub record Ca : Type 0 where
    pub cert_pem : String
    pub key_encrypted : String
    pub key_nonce : String
    pub fingerprint : String
    pub cert : Option x.Certificate
    pub key : Option x.PrivateKey

  -- `aesGCMEncrypt`: the sealed text and its nonce.
  unfoldable pub aes_gcm_encrypt : String → String → PkiOp (String × String)
  aes_gcm_encrypt key plaintext = do
    n ← ask encrypt_failed x.nonce
    sealed ← answer (required encrypt_failed (x.seal key n plaintext))
    pure (sealed, n)

  -- `aesGCMDecrypt`.
  unfoldable pub aes_gcm_decrypt : String → String → String → Attempt PkiError String
  aes_gcm_decrypt key ciphertext n = required decrypt_failed (x.unseal key n ciphertext)

  abbrev pub ca_template : String → String → ℕ → ℕ → Template
  ca_template tenant_id site_id n t = record {
    serial_number = n;
    common_name = concat ("controlai-" ∷ tenant_id ∷ "-" ∷ site_id ∷ "-ca" ∷ []);
    not_before = t;
    not_after = x.add_date t ca_ttl_years 0;
    is_ca = true;
    key_usage = cert_sign ∷ crl_sign ∷ [];
    ext_key_usage = [];
    dns_names = [];
  }

  -- `GenerateCA`.
  unfoldable pub generate_ca : String → String → String → PkiOp Ca
  unfolding must_serial fingerprint aes_gcm_encrypt
  generate_ca tenant_id site_id master_key = do
    k ← ask key_failed x.generate_key
    t ← skewed_now
    n ← must_serial
    der ← ask sign_failed (λ w. x.self_sign w (ca_template tenant_id site_id n t) k)
    c ← answer (required bad_certificate (x.parse_certificate der))
    key_der ← answer (required marshal_failed (x.marshal_key k))
    sealed ← aes_gcm_encrypt master_key key_der
    pure (record {
      cert_pem = x.pem_encode "CERTIFICATE" der;
      key_encrypted = sealed.0;
      key_nonce = sealed.1;
      fingerprint = fingerprint der;
      cert = some c;
      key = some k;
    })

  abbrev pub keep_key : Ca → Option x.PrivateKey → Attempt PkiError Ca
  keep_key ca none = failed not_rsa
  keep_key ca (some k) = done (record ca { key = some k })

  abbrev pub decrypt_with : String → Ca → Option x.PrivateKey → Attempt PkiError Ca
  decrypt_with master_key ca (some k) = done ca
  decrypt_with master_key ca none =
      and_then (aes_gcm_decrypt master_key ca.key_encrypted ca.key_nonce)
        (λ der. and_then (required bad_key (x.parse_key der)) (λ k. keep_key ca k))

  -- `DecryptKey`, with the authority that it leaves.
  unfoldable pub decrypt_key : String → Ca → Attempt PkiError Ca
  unfolding aes_gcm_decrypt
  decrypt_key master_key ca = decrypt_with master_key ca ca.key

  abbrev pub parse_with : Ca → Option x.Certificate → Attempt PkiError Ca
  parse_with ca (some c) = done ca
  parse_with ca none = and_then (required empty_block (x.pem_decode ca.cert_pem)) (λ der.
      and_then (required bad_certificate (x.parse_certificate der))
        (λ c. done (record ca { cert = some c })))

  -- `ParseCert`, with the authority that it leaves.
  unfoldable pub parse_cert : Ca → Attempt PkiError Ca
  parse_cert ca = parse_with ca ca.cert
