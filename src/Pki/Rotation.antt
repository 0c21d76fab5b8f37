-- ===== src/Pki/Rotation.antt =====
-- internal/pki/ensure.go: `NeedsRotation`. An answer `none` stands for the empty reason.
use controlai.Prelude.{ℕ, ◌+◌, String, Option, none, some, List, [], leb, if◌then◌else◌}
use controlai.Files.Attempts.{Attempt, done, failed}
use controlai.Files.Disk.{Disk, FileError, not_exist, io_error, read_file}
use controlai.Pki.X509.{X509, PkiError, file_error, bad_ca_pem}
use controlai.Pki.Authority.{Host, PkiOp}
use controlai.Pki.Sans.{san_sets_equal}

pub data RotationReason : Type 0 where
  missing expiring_soon ca_mismatch san_drift : RotationReason

-- `renewWindowDays`, in seconds.
abbrev pub renew_window : ℕ
renew_window = 2592000

abbrev pub Verdict : Type 0
Verdict = Attempt PkiError (Option RotationReason)

module _ (x : X509) where
  abbrev pub judge_sans : x.Certificate → Option (List String) → Option RotationReason
  judge_sans c none = none
  judge_sans c (some sans) = if san_sets_equal (x.dns_names c) sans then none else some san_drift

  -- `time.Until(cert.NotAfter)` against the window.
  abbrev pub judge_expiry : ℕ → x.Certificate → Option (List String) → Option RotationReason
  judge_expiry now c sans =
      if leb (x.not_after c) (now + renew_window) then some expiring_soon else judge_sans c sans

  -- `cert.Verify` is called without `KeyUsages`.
  abbrev pub judge_chain : ℕ → Option x.Roots → x.Certificate → Option (List String) → Verdict
  judge_chain now none c sans = failed bad_ca_pem
  judge_chain now (some roots) c sans =
      done (if x.verify roots [] c now then judge_expiry now c sans else some ca_mismatch)

  abbrev pub judge_certificate :
      ℕ → Option String → Option (List String) → Option x.Certificate → Verdict
  judge_certificate now ca_pem sans none = done (some missing)
  judge_certificate now none sans (some c) = done (judge_expiry now c sans)
  judge_certificate now (some ca_pem) sans (some c) = judge_chain now (x.roots_of_pem ca_pem) c sans

  abbrev pub judge_block : ℕ → Option String → Option (List String) → Option String → Verdict
  judge_block now ca_pem sans none = done (some missing)
  judge_block now ca_pem sans (some der) =
      judge_certificate now ca_pem sans (x.parse_certificate der)

  -- What follows the read of the file.
  abbrev pub judge : ℕ → Option String → Option (List String) → Attempt FileError String → Verdict
  judge now ca_pem sans (failed not_exist) = done (some missing)
  judge now ca_pem sans (failed io_error) = failed (file_error io_error)
  judge now ca_pem sans (done raw) = judge_block now ca_pem sans (x.pem_decode raw)

  abbrev pub judged :
      Option String
      → Option (List String)
      → x.World
      → Attempt FileError String × Disk
      → Verdict × Host x
  judged ca_pem sans w (r, d) = (judge (x.now w) ca_pem sans r, record { disk = d; world = w })

  -- `NeedsRotation`.
  unfoldable pub needs_rotation :
      String → Option String → Option (List String) → PkiOp x (Option RotationReason)
  needs_rotation path ca_pem sans h = judged ca_pem sans h.world (read_file path h.disk)
