-- ===== src/Pki/Renewal.antt =====
-- What `EnsureTrustFiles` of internal/pki/trust.go makes of the ingestor's certificate in one run and
-- in the next.
use controlai.Prelude.{
  ◌≡◌, ◌≢◌, ◌-◌, refl, sym, ap, ◌∙◌, ℕ, String, Bool, true, false, Option, none, some, [], pos,
  arith, subst,
}
use controlai.Files.Attempts.{done}
use controlai.Files.Disk.{
  Fault, works, fails, cut_short, next_fault, Disk, mkdir_all, reading, read_file,
}
use controlai.Files.Frames.{continue-done, mkdir_all-Leaves}
use controlai.Pki.X509.{X509}
use controlai.Pki.Authority.{Ca, Host, on_disk, clock_skew}
use controlai.Pki.Issuing.{signer_of, sign_new, LeafCert, leaf_template, leaf_days, issue_leaf_cert}
use controlai.Pki.Rotation.{
  RotationReason, needs_rotation, judge, judge_block, judge_certificate, judge_chain,
}
use controlai.Pki.Trust.{
  TrustFileConfig, TrustFileResult, in_dir, ensure_ca_file, write_pair, load_ca, ensure_server,
  rotate_ingestor, ensure_ingestor, ingestor_name, ensure_trust_files,
}
use controlai.Pki.Frames.{named, ensure_server-Leaves, ca_file-Leaves, on_disk-Leaves, texts-differ}
use controlai.Pki.Issued.{sign_new-done, write_pair-done}

module _ (x : X509) (cfg : TrustFileConfig) where
  -- A text that an authority signed for the ingestor.
  abbrev pub SignedClient : String → Type 0
  SignedClient der =
      (w : x.World) × (n : ℕ) × (t : ℕ) × (c : x.Certificate) × (key : x.PrivateKey)
      × (k : x.PrivateKey) × ((x.sign w (leaf_template x (ingestor_name x cfg) 365 n t) c key k).0
          ≡ some der)

  abbrev pub HasClient : Host x → Type 0
  HasClient h =
      (der : String) × (named x cfg "ingestor.crt" h ≡ some (x.pem_encode "CERTIFICATE" der))
      × SignedClient der

  issue_leaf_cert-SignedClient :
      (ca : Ca x) (h : Host x) (cert : LeafCert)
      → (issue_leaf_cert x ca (ingestor_name x cfg) (pos 365) h).0 ≡ done cert
      → (der : String) × (cert.cert_pem ≡ x.pem_encode "CERTIFICATE" der) × SignedClient der
  unfolding issue_leaf_cert leaf_days
  issue_leaf_cert-SignedClient ca h cert e =
      let template = leaf_template x (ingestor_name x cfg) 365 in
      let ((c, k), e1, r1, s1) =
        continue-done (signer_of x ca, h) (λ s. sign_new x s template) cert e in
      let (w, n, v, key, der, signed, pem) = sign_new-done x c k template h cert r1 in
      (der, pem, (w, n, x.now v - clock_skew, c, key, k, signed))

  rotate_ingestor-HasClient :
      (reason : RotationReason) (h : Host x) (b : Bool)
      → (rotate_ingestor x cfg (some reason) h).0 ≡ done b
      → HasClient (rotate_ingestor x cfg (some reason) h).1
  rotate_ingestor-HasClient reason h b e =
      let (ca, e1, r1, s1) = continue-done (load_ca x cfg, h) _ b e in
      let issued = issue_leaf_cert x ca (ingestor_name x cfg) (pos 365) h in
      let (cert, e2, r2, s2) = continue-done issued _ b r1 in
      let write = on_disk x (
        write_pair (in_dir cfg "ingestor.crt") (in_dir cfg "ingestor.key") cert.cert_pem
          cert.key_pem) in
      let (u, e3, r3, s3) = continue-done (write issued.1) _ b r2 in
      let (der, pem, signed) = issue_leaf_cert-SignedClient ca h cert e2 in
      (
        der,
        ap (λ o. named x cfg "ingestor.crt" o.1) (s1 ∙ s2 ∙ s3)
            ∙ write_pair-done x cfg.cert_dir "ingestor.crt" "ingestor.key" cert.cert_pem
                cert.key_pem issued.1 (texts-differ _ _ refl) (texts-differ _ _ refl) e3
            ∙ ap (λ c. some c) pem,
        signed,
      )

  rotate_ingestor-true :
      (reason : RotationReason) (h : Host x) (b : Bool)
      → (rotate_ingestor x cfg (some reason) h).0 ≡ done b
      → b ≡ true
  rotate_ingestor-true reason h b e =
      let (ca, e1, r1, s1) = continue-done (load_ca x cfg, h) _ b e in
      let issued = issue_leaf_cert x ca (ingestor_name x cfg) (pos 365) h in
      let (cert, e2, r2, s2) = continue-done issued _ b r1 in
      let write = on_disk x (
        write_pair (in_dir cfg "ingestor.crt") (in_dir cfg "ingestor.key") cert.cert_pem
          cert.key_pem) in
      let (u, e3, r3, s3) = continue-done (write issued.1) _ b r2 in cc r3

  -- A step that rotates leaves a signed text, and so does a run.
  ensure_ingestor-HasClient :
      (h : Host x) → (ensure_ingestor x cfg h).0 ≡ done true → HasClient (ensure_ingestor x cfg h).1
  ensure_ingestor-HasClient h e =
      let checked = needs_rotation x (in_dir cfg "ingestor.crt") (some cfg.ca_cert_pem) none h in
      let (reason, e1, r1, s1) = continue-done checked (rotate_ingestor x cfg) true e in
      subst (λ o. HasClient o.1) (sym s1) (rotated reason checked.1 r1)
    where
      rotated :
          (o : Option RotationReason) (g : Host x)
          → (rotate_ingestor x cfg o g).0 ≡ done true
          → HasClient (rotate_ingestor x cfg o g).1
      rotated none g e = absurd (cc e)
      rotated (some reason) g e = rotate_ingestor-HasClient reason g true e

  -- A run that succeeds ends with the ingestor's step, and leaves its certificate until then.
  abbrev pub EndsWith : TrustFileResult → Host x → Host x → Type 0
  EndsWith r h g =
      (named x cfg "ingestor.crt" g ≡ named x cfg "ingestor.crt" h)
      × ((ensure_ingestor x cfg g).0 ≡ done r.ingestor_rotated)
      × ((ensure_trust_files x cfg h).1 ≡ (ensure_ingestor x cfg g).1)

  ensure_trust_files-EndsWith :
      (h : Host x) (r : TrustFileResult)
      → (ensure_trust_files x cfg h).0 ≡ done r
      → (g : Host x) × EndsWith r h g
  unfolding ensure_trust_files
  ensure_trust_files-EndsWith h r e =
      let n = in_dir cfg "ingestor.crt" in
      let ca_file = on_disk x (ensure_ca_file (in_dir cfg "ca.crt") cfg.ca_cert_pem) in
      let made = on_disk x (mkdir_all cfg.cert_dir) h in
      let (u, e1, r1, s1) = continue-done made _ r e in
      let (v, e2, r2, s2) = continue-done (ca_file made.1) _ r r1 in
      let before = (ca_file made.1).1 in
      let (b, e3, r3, s3) = continue-done (ensure_server x cfg before) _ r r2 in
      let g = (ensure_server x cfg before).1 in
      let (c, e4, r4, s4) = continue-done (ensure_ingestor x cfg g) _ r r3 in
      (
        g,
        (
          ensure_server-Leaves x cfg before
              ∙ ca_file-Leaves x cfg "ingestor.crt" (texts-differ _ _ refl) made.1
              ∙ on_disk-Leaves x n (mkdir_all cfg.cert_dir) (mkdir_all-Leaves n cfg.cert_dir) h,
          e4 ∙ cc r4,
          ap (λ o. o.1) (s1 ∙ s2 ∙ s3 ∙ s4),
        ),
      )

module _ (x : X509) (cfg : TrustFileConfig)
    (decodes : (der : String) → x.pem_decode (x.pem_encode "CERTIFICATE" der) ≡ some der)
    (rejects : (w : x.World) (n t : ℕ) (c : x.Certificate) (key k : x.PrivateKey) (der : String)
        (leaf : x.Certificate) (roots : x.Roots) (now : ℕ)
      → (x.sign w (leaf_template x (ingestor_name x cfg) 365 n t) c key k).0 ≡ some der
      → x.parse_certificate der ≡ some leaf
      → x.verify roots [] leaf now ≡ false) where
  chain_rejected :
      (now : ℕ) (der : String) (leaf : x.Certificate) (o : Option x.Roots)
      → SignedClient x cfg der
      → x.parse_certificate der ≡ some leaf
      → judge_chain x now o leaf none ≢ done none
  chain_rejected now der leaf none s p h = absurd (cc h)
  chain_rejected now der leaf (some roots) (w, n, t, c, key, k, s) p h =
      ground (arith, h, rejects w n t c key k der leaf roots now s p)

  judge_parsed :
      (now : ℕ) (der : String) (o : Option x.Certificate)
      → SignedClient x cfg der
      → x.parse_certificate der ≡ o
      → judge_certificate x now (some cfg.ca_cert_pem) none o ≢ done none
  judge_parsed now der none s p h = absurd (cc h)
  judge_parsed now der (some leaf) s p h =
      chain_rejected now der leaf (x.roots_of_pem cfg.ca_cert_pem) s p h

  judge_read :
      (now : ℕ) (der : String) (f : Fault) (d : Disk)
      → SignedClient x cfg der
      → judge x now
          (some cfg.ca_cert_pem)
          none
          (reading (some (x.pem_encode "CERTIFICATE" der)) f d).0
        ≢ done none
  judge_read now der works d s h =
      judge_parsed now der (x.parse_certificate der) s refl
        (subst (λ o. judge_block x now (some cfg.ca_cert_pem) none o ≡ done none) (decodes der) h)
  judge_read now der fails d s h = absurd (cc h)
  judge_read now der (cut_short part) d s h = absurd (cc h)

  needs_rotation-HasClient :
      (h : Host x)
      → HasClient x cfg h
      → (needs_rotation x (in_dir cfg "ingestor.crt") (some cfg.ca_cert_pem) none h).0 ≢ done none
  unfolding needs_rotation read_file
  needs_rotation-HasClient h (der, held, s) e =
      judge_read (x.now h.world) der (next_fault h.disk.faults) h.disk s (rw (sym held) e)

  ensure_ingestor-true :
      (h : Host x) (b : Bool) → HasClient x cfg h → (ensure_ingestor x cfg h).0 ≡ done b → b ≡ true
  ensure_ingestor-true h b client e =
      let checked = needs_rotation x (in_dir cfg "ingestor.crt") (some cfg.ca_cert_pem) none h in
      let (reason, e1, r1, s1) = continue-done checked (rotate_ingestor x cfg) b e in
      there reason e1 checked.1 r1
    where
      there :
          (o : Option RotationReason)
          → (needs_rotation x (in_dir cfg "ingestor.crt") (some cfg.ca_cert_pem) none h).0 ≡ done o
          → (g : Host x) → (rotate_ingestor x cfg o g).0 ≡ done b
          → b ≡ true
      there none e1 g r1 = absurd (needs_rotation-HasClient h client e1)
      there (some reason) e1 g r1 = rotate_ingestor-true x cfg reason g b r1

  -- An ingestor certificate that a run has issued is replaced by the next run that succeeds, where PEM
  -- texts decode to what was encoded and `Verify` without `KeyUsages` refuses a certificate for clients.
  pub ensure_trust_files-rotates_again :
      (h : Host x) (r r' : TrustFileResult)
      → (ensure_trust_files x cfg h).0 ≡ done r
      → r.ingestor_rotated ≡ true
      → (ensure_trust_files x cfg (ensure_trust_files x cfg h).1).0 ≡ done r'
      → r'.ingestor_rotated ≡ true
  ensure_trust_files-rotates_again h r r' e rotated e' =
      let (g, (held, last, end)) = ensure_trust_files-EndsWith x cfg h r e in
      let h1 = (ensure_trust_files x cfg h).1 in
      let (g', (held', last', end')) = ensure_trust_files-EndsWith x cfg h1 r' e' in
      let (der, pem, signed) = ensure_ingestor-HasClient x cfg g (last ∙ ap done rotated) in
      ensure_ingestor-true g' r'.ingestor_rotated
        (der, held' ∙ ap (named x cfg "ingestor.crt") end ∙ pem, signed) last'
