-- ===== src/Pki/Served.antt =====
-- What `EnsureTrustFiles` of internal/pki/trust.go leaves as the server's certificate.
use controlai.Prelude.{◌≡◌, ◌-◌, ℕ, String, false, some, [], ◌∷◌}
use controlai.Files.Attempts.{done}
use controlai.Pki.X509.{X509, Template, server_auth, client_auth}
use controlai.Pki.Authority.{Ca, Host}
use controlai.Pki.Issuing.{signer_of}
use controlai.Pki.Trust.{TrustFileConfig, load_ca}
use controlai.Pki.Frames.{named}

-- The certificate and the key of the site's authority, as `loadCA` leaves them.
abbrev pub IsAuthority : (x : X509) → TrustFileConfig → x.Certificate → x.PrivateKey → Type 0
IsAuthority x cfg c k = (ca : Ca x) × (load_ca x cfg ≡ done ca) × (signer_of x ca ≡ done (c, k))

module _ (x : X509) (cfg : TrustFileConfig) where
  -- What the server's certificate is to say when it is issued at a time: the host name as its only DNS
  -- name, both usages, and ten years from five minutes before.
  pub record IsForServer (now : ℕ) (t : Template) : Type 0 where
    pub names_host : t.common_name ≡ cfg.sni_hostname
    pub only_host : t.dns_names ≡ cfg.sni_hostname ∷ []
    pub serves : t.ext_key_usage ≡ server_auth ∷ client_auth ∷ []
    pub no_authority : t.is_ca ≡ false
    pub starts : t.not_before ≡ now - 300
    pub ends : t.not_after ≡ x.add_date (now - 300) 10 0

  -- A text that the site's authority signed for its server.
  abbrev pub SignedServer : String → Type 0
  SignedServer der =
      (c : x.Certificate) × (k : x.PrivateKey) × IsAuthority x cfg c k
      × ((w : x.World) × (v : x.World) × (t : Template) × (key : x.PrivateKey) × IsForServer
            (x.now v) t
          × ((x.sign w t c key k).0 ≡ some der))

  abbrev pub HasServer : Host x → Type 0
  HasServer h =
      (der : String) × (named x cfg "server.crt" h ≡ some (x.pem_encode "CERTIFICATE" der))
      × SignedServer der
