-- ===== src/Pki/Issued.antt =====
-- What a step of internal/pki that succeeds has signed and written.
use controlai.Prelude.{◌≡◌, ◌≢◌, ◌-◌, refl, ap, ◌∙◌, ℕ, String, Option, none, some, [], ◌∷◌, path}
use controlai.Files.Attempts.{Attempt, done, failed, required}
use controlai.Files.Disk.{Disk, FileError, DiskOp}
use controlai.Files.Atomic.{temporary, write_pem}
use controlai.Files.Frames.{file, continue-done, write_pem-file, write_pem-Leaves}
use controlai.Pki.X509.{X509, PkiError, Template, marshal_failed, key_failed, sign_failed}
use controlai.Pki.Authority.{Host, on_disk, with_disk, ask, clock_skew, must_serial}
use controlai.Pki.Issuing.{sign_new, LeafCert}
use controlai.Pki.Trust.{write_pair}
use controlai.Pki.Frames.{path-differs, temporary-path-differs}

module _ (x : X509) where
  required-done :
      {A : Type 0} (e : PkiError) (o : Option A) (a : A)
      → ◌≡◌ {A = Attempt PkiError A} (required e o) (done a)
      → o ≡ some a
  required-done e none a h = absurd (cc)
  required-done e (some b) a h = cc

  -- The text that the authority signed, of a certificate that was issued.
  pub sign_new-done :
      (c : x.Certificate) (k : x.PrivateKey) (template : ℕ → ℕ → Template) (h : Host x)
      (cert : LeafCert)
      → (sign_new x (c, k) template h).0 ≡ done cert
      → (w : x.World) × (n : ℕ) × (v : x.World) × (key : x.PrivateKey) × (der : String) × ((x.sign w
            (template n (x.now v - clock_skew))
            c
            key
            k).0
          ≡ some der)
        × (cert.cert_pem ≡ x.pem_encode "CERTIFICATE" der)
  unfolding must_serial
  sign_new-done c k template h cert e =
      let (key, e1, r1, s1) = continue-done (ask x key_failed x.generate_key h) _ cert e in
      let w = (x.generate_key h.world).1 in
      let w' = (x.serial w).1 in
      let filled = template (x.serial w).0 (x.now w - clock_skew) in
      let (der, e2, r2, s2) =
        continue-done
          (ask x sign_failed (λ v. x.sign v filled c key k) (record { disk = h.disk; world = w' }))
          _ cert r1 in
      let (key_der, e3, r3, s3) =
        continue-done
          (
            required marshal_failed (x.marshal_key key),
            record { disk = h.disk; world = (x.sign w' filled c key k).1 },
          )
          _ cert r2 in
      (
        w',
        (x.serial w).0,
        w,
        key,
        der,
        required-done sign_failed (x.sign w' filled c key k).0 der e2,
        cc r3,
      )

  on_disk-done :
      {A : Type 0} (m : DiskOp A) (a : A) (h : Host x)
      → (on_disk x m h).0 ≡ done a
      → ((m h.disk).0 ≡ done a) × ((on_disk x m h).1.disk ≡ (m h.disk).1)
  on_disk-done {A} m a h = lifted (m h.disk)
    where
      lifted :
          (out : Attempt FileError A × Disk)
          → (with_disk x h.world out).0 ≡ done a
          → (out.0 ≡ done a) × ((with_disk x h.world out).1.disk ≡ out.1)
      lifted (done b, d) e = (cc, refl)
      lifted (failed err, d) e = absurd (cc)

  -- A pair of files that was written: the first one holds the certificate.
  pub write_pair-done :
      (dir n m cert key : String) (h : Host x)
      → m ≢ n
      → temporary m ≢ n
      → (on_disk x (write_pair (path (dir ∷ n ∷ [])) (path (dir ∷ m ∷ [])) cert key) h).0 ≡ done tt
      → file
          (path (dir ∷ n ∷ []))
          (on_disk x (write_pair (path (dir ∷ n ∷ [])) (path (dir ∷ m ∷ [])) cert key) h).1.disk
        ≡ some cert
  write_pair-done dir n m cert key h a b e =
      let p = path (dir ∷ n ∷ []) in
      let q = path (dir ∷ m ∷ []) in
      let (e1, s1) = on_disk-done (write_pair p q cert key) tt h e in
      let (u, e2, r2, s2) = continue-done (write_pem p cert h.disk) (λ _. write_pem q key) tt e1 in
      ap (λ d. file p d) (s1 ∙ ap (λ o. o.1) s2)
      ∙ write_pem-Leaves p q key (path-differs dir m n a) (temporary-path-differs dir m n b) _
      ∙ write_pem-file p cert h.disk e2
