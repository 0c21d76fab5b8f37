-- ===== src/Store/TokenLife.antt =====
-- The life of a bearer token: made, accepted, revoked.
use controlai.Prelude.{
  ℕ, String, true, false, not, ◌≡◌, refl, Option, none, some, List, [], ◌∷◌, ◌==◌, eq_refl, ◌&&◌,
  arith, if◌then◌else◌, Option-cases, inl, inr,
}
use controlai.Store.Tables.Statements.{has, lookup, update}
use controlai.Store.Tables.Lookups.{lookup-insert}
use controlai.Store.Rows.{TokenRow, Tables}
use controlai.Store.Query.{Result, ok, err, not_found, run}
use controlai.Store.Tokens.{
  token_id_of, hash_of, new_token, create_token, insert_token, lookup_token, select_token,
  revoke_token, revoke_tokens,
}
use controlai.Store.RoundTrips.{quiet}

module _ (sha256_hex : String → String) (raw id name : String) (now : ℕ) (t : Tables) where
  -- Where no statement fails, a token made under a free identifier and a free hash is the answer of `LookupToken` for its text.
  pub lookup_token-create_token :
      has token_id_of id t.auth_tokens ≡ false
      → has hash_of (sha256_hex raw) t.auth_tokens ≡ false
      → (lookup_token sha256_hex raw (create_token sha256_hex raw id name (quiet now t)).1).0
        ≡ ok (record (new_token sha256_hex raw id name) { created_at = now })
  unfolding lookup_token create_token insert_token select_token run
  lookup_token-create_token free_id free_hash =
      rw (free_id, free_hash)
        (rw
          (lookup-insert hash_of (sha256_hex raw)
            (record (new_token sha256_hex raw id name) { created_at = now }) t.auth_tokens
            free_hash)
          (ground (arith, eq_refl (sha256_hex raw))))

-- What `LookupToken` makes of the row that it finds.
abbrev resolve : Option TokenRow → Result TokenRow
resolve none = err not_found
resolve (some r) = if r.revoked then err not_found else ok r

-- An answer of `LookupToken` that a revocation of the identifier takes away.
abbrev pub without : String → Result TokenRow → Result TokenRow
without id (ok r) = if r.id == id then err not_found else ok r
without id (err e) = err e

resolve-revoke :
    (id hash : String) (now : ℕ) (rows : List TokenRow)
    → resolve (
        lookup hash_of hash (
          update
            (λ r. r.id == id && not r.revoked)
            (λ r. record r { revoked = true; revoked_at = some now })
            rows))
      ≡ without id (resolve (lookup hash_of hash rows))
resolve-revoke id hash now [] = refl
resolve-revoke id hash now (x ∷ rows) = ground (arith, resolve-revoke id hash now rows)

lookup_token-resolve :
    (sha256_hex : String → String) (raw : String) (now : ℕ) (t : Tables)
    → (lookup_token sha256_hex raw (quiet now t)).0
      ≡ resolve (lookup hash_of (sha256_hex raw) t.auth_tokens)
unfolding lookup_token select_token run
lookup_token-resolve sha256_hex raw now t =
    elim (Option-cases (lookup hash_of (sha256_hex raw) t.auth_tokens)) [
      | inl e ↦ rw e
      | inr (r, e) ↦ rw e
    ]

pub tables-revoke_token :
    (id : String) (now : ℕ) (t : Tables)
    → (revoke_token id (quiet now t)).1
      ≡ quiet now (record t {
        auth_tokens =
            update
              (λ r. r.id == id && not r.revoked)
              (λ r. record r { revoked = true; revoked_at = some now })
              t.auth_tokens;
      })
unfolding revoke_token revoke_tokens run
tables-revoke_token id now t = refl

-- Where no statement fails: after `RevokeToken` of an identifier, `LookupToken` answers `ErrNotFound` to every text whose token
-- has that identifier, and to every other text what it answered before, for every hash function.
pub lookup_token-revoke_token :
    (sha256_hex : String → String) (raw id : String) (now : ℕ) (t : Tables)
    → (lookup_token sha256_hex raw (revoke_token id (quiet now t)).1).0
      ≡ without id (lookup_token sha256_hex raw (quiet now t)).0
lookup_token-revoke_token sha256_hex raw id now t =
    rw
      (
        tables-revoke_token id now t,
        lookup_token-resolve sha256_hex raw now _,
        lookup_token-resolve sha256_hex raw now t,
      )
      (resolve-revoke id (sha256_hex raw) now t.auth_tokens)
