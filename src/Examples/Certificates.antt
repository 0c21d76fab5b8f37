-- ===== src/Examples/Certificates.antt =====
-- internal/pki at a concrete cryptography: a signed text is a letter for the usage and as many strokes
-- as the certificate's first second.
use Prim.Native.Char.{code}
use Prim.Native.String.{◌∷◌ as char_then}
use controlai.Prelude.{
  ℕ, zero, suc, ◌+◌, ◌*◌, ◌≡◌, ◌↔◌, refl, String, Bool, true, false, some, List, [], ◌∷◌, length,
  codes, arith, subst, nat_eq,
}
use mathlib.Core.List.{Perm}
use controlai.Files.Attempts.{done}
use controlai.Files.Disk.{mkdir_all, stat, read_file, write_file, rename}
use controlai.Files.Atomic.{write_pem}
use controlai.Store.Tables.Statements.{order_by}
use controlai.Pki.X509.{X509, Template, ExtKeyUsage, server_auth, client_auth}
use controlai.Pki.Authority.{
  Host, must_serial, fingerprint, aes_gcm_decrypt, decrypt_key, parse_cert,
}
use controlai.Pki.Issuing.{
  first_bytes, leaf_days, issue_leaf_cert, issue_server_cert, leaf_template,
}
use controlai.Pki.Sans.{san_sets_equal, san_sets_equal-Perm}
use controlai.Pki.Rotation.{needs_rotation}
use controlai.Pki.Trust.{
  TrustFileConfig, TrustFileResult, ingestor_name, load_ca, ensure_trust_files,
}
use controlai.Pki.Renewal.{ensure_trust_files-rotates_again}

abbrev two_names : List String
two_names = "a" ∷ "b" ∷ []

abbrev two_names_turned : List String
two_names_turned = "b" ∷ "a" ∷ []

sans_example : (san_sets_equal two_names two_names_turned ≡ true) ↔ Perm two_names two_names_turned
sans_example = san_sets_equal-Perm two_names two_names_turned

abbrev strokes : ℕ → String
strokes zero = ""
strokes (suc n) = char_then "|" (strokes n)

length-strokes : (n : ℕ) → length (codes (strokes n)) ≡ n
length-strokes zero = refl
length-strokes (suc n) = omega (arith, length-strokes n)

abbrev letter : List ExtKeyUsage → String → String
letter [] s = s
letter (server_auth ∷ more) s = char_then "S" s
letter (client_auth ∷ more) s = char_then "C" s

abbrev signed_text : Template → String
signed_text t = letter t.ext_key_usage (strokes t.not_before)

-- The letter is `S`.
abbrev is_server : String → Bool
is_server String.[] = false
is_server (String.◌∷◌ c s) = nat_eq (code c) 83

abbrev ends_at : String → ℕ
ends_at String.[] = 0
ends_at (String.◌∷◌ c s) = length (codes s) + 315360000

abbrev later : ℕ → ℕ → ℕ → ℕ
later t years days = t + (31536000 * years + 86400 * days)

abbrev toy : X509
toy = record {
  World = ℕ;
  Certificate = String;
  PrivateKey = ℕ;
  Roots = String;
  now = λ w. 1000;
  add_date = later;
  pem_decode = λ s. some s;
  pem_encode = λ ty s. s;
  parse_certificate = λ s. some s;
  not_after = ends_at;
  dns_names = λ s. "plant" ∷ [];
  roots_of_pem = λ s. some s;
  verify = λ roots usages s now. is_server s;
  generate_key = λ w. (some w, suc w);
  serial = λ w. (w, suc w);
  nonce = λ w. (some "n", suc w);
  self_sign = λ w t k. (some (signed_text t), suc w);
  sign = λ w t c key k. (some (signed_text t), suc w);
  marshal_key = λ k. some (strokes k);
  parse_key = λ s. some (some (length (codes s)));
  seal = λ k n s. some s;
  unseal = λ k s n. some s;
  sha256_hex = λ s. s;
}

abbrev plant_config : TrustFileConfig
plant_config = record {
  site_id = "ste_plant";
  tenant_id = "tnt_acme";
  cert_dir = "/certs";
  sni_hostname = "plant";
  master_key = "key";
  ca_cert_pem = "ca";
  ca_key_enc = "||";
  ca_key_nonce = "n";
}

abbrev empty_host : Host toy
empty_host = record { disk = record { files = []; faults = [] }; world = 5 }

abbrev both_rotated : TrustFileResult
both_rotated = record { server_rotated = true; ingestor_rotated = true }

abbrev one_rotated : TrustFileResult
one_rotated = record { server_rotated = false; ingestor_rotated = true }

first_run : (ensure_trust_files toy plant_config empty_host).0 ≡ done both_rotated
unfolding ensure_trust_files load_ca parse_cert decrypt_key aes_gcm_decrypt issue_server_cert
    issue_leaf_cert leaf_days must_serial fingerprint needs_rotation read_file mkdir_all stat
    write_file rename write_pem first_bytes san_sets_equal
first_run = refl

second_run :
    (ensure_trust_files toy plant_config (ensure_trust_files toy plant_config empty_host).1).0
    ≡ done one_rotated
unfolding ensure_trust_files load_ca parse_cert decrypt_key aes_gcm_decrypt issue_server_cert
    issue_leaf_cert leaf_days must_serial fingerprint needs_rotation read_file mkdir_all stat
    write_file rename write_pem first_bytes san_sets_equal order_by
second_run = refl

refused :
    (w n t : ℕ) (c : String) (key k : ℕ) (der leaf roots : String) (now : ℕ)
    → (toy.sign w (leaf_template toy (ingestor_name toy plant_config) 365 n t) c key k).0 ≡ some der
    → toy.parse_certificate der ≡ some leaf
    → toy.verify roots [] leaf now ≡ false
refused w n t c key k der leaf roots now e p =
    let q : char_then "C" (strokes t) ≡ leaf = cc (e, p) in subst (λ s. is_server s ≡ false) q refl

rotates_again_example : one_rotated.ingestor_rotated ≡ true
rotates_again_example =
    ensure_trust_files-rotates_again toy plant_config (λ der. refl) refused empty_host both_rotated
      one_rotated first_run refl second_run
