-- ===== src/Pki/X509.antt =====
-- What internal/pki uses of Go's crypto packages: keys, certificates, PEM, AES-GCM, the clock and the
-- source of random numbers. `World` is the state of the last two, which a call may change. A text stands
-- for the bytes that a call takes or returns.
use controlai.Prelude.{ℕ, String, Bool, Option, List}
use controlai.Files.Disk.{FileError}

pub data ExtKeyUsage : Type 0 where
  server_auth client_auth : ExtKeyUsage

pub data KeyUsage : Type 0 where
  cert_sign crl_sign digital_signature key_encipherment : KeyUsage

-- The fields of `x509.Certificate` that the code fills in; times in seconds.
pub record Template : Type 0 where
  pub serial_number : ℕ
  pub common_name : String
  pub not_before : ℕ
  pub not_after : ℕ
  pub is_ca : Bool
  pub key_usage : List KeyUsage
  pub ext_key_usage : List ExtKeyUsage
  pub dns_names : List String

pub record X509 : Type 1 where
  pub World : Type 0
  pub Certificate : Type 0
  pub PrivateKey : Type 0
  pub Roots : Type 0
  -- `time.Now`, and `AddDate` of a time by years and days.
  pub now : World → ℕ
  pub add_date : ℕ → ℕ → ℕ → ℕ
  -- The first block of a PEM text; a PEM text of a type and the bytes.
  pub pem_decode : String → Option String
  pub pem_encode : String → String → String
  pub parse_certificate : String → Option Certificate
  pub not_after : Certificate → ℕ
  pub dns_names : Certificate → List String
  -- `AppendCertsFromPEM` on an empty pool; `none` where it finds no certificate.
  pub roots_of_pem : String → Option Roots
  -- `Verify` with the roots, the `KeyUsages` of the options, and the time.
  pub verify : Roots → List ExtKeyUsage → Certificate → ℕ → Bool
  pub generate_key : World → Option PrivateKey × World
  pub serial : World → ℕ × World
  pub nonce : World → Option String × World
  -- `CreateCertificate`, signed by itself, and by the certificate and the key of an authority.
  pub self_sign : World → Template → PrivateKey → Option String × World
  pub sign : World → Template → Certificate → PrivateKey → PrivateKey → Option String × World
  pub marshal_key : PrivateKey → Option String
  -- `none` where the bytes are no key, `some none` where the key is not an RSA key.
  pub parse_key : String → Option (Option PrivateKey)
  -- `Seal` and `Open` with a key and a nonce; `none` also where the key has a wrong size.
  pub seal : String → String → String → Option String
  pub unseal : String → String → String → Option String
  pub sha256_hex : String → String

-- The errors of the package, without their texts.
pub data PkiError : Type 0 where
  file_error : FileError → PkiError
  bad_ca_pem empty_block bad_certificate bad_key not_rsa key_not_decrypted no_san : PkiError
  key_failed sign_failed marshal_failed encrypt_failed decrypt_failed : PkiError
