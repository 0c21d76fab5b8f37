-- ===== src/Daemon/Access.antt =====
-- internal/daemon/server.go: `tokenAuthMiddleware`, which guards the TCP listener.
use controlai.Prelude.{ℕ, String, Option-cases, inl, inr, eq_refl, false, ◌≡◌, refl, ◌∙◌, ap}
use controlai.Store.Tables.Statements.{lookup}
use controlai.Store.Rows.{TokenRow, Tables}
use controlai.Store.Query.{Result, ok, err, not_found, Db, run}
use controlai.Store.RoundTrips.{quiet}
use controlai.Store.Tokens.{hash_of, lookup_token, select_token, revoke_token}
use controlai.Store.TokenLife.{lookup_token-revoke_token, tables-revoke_token, without}
use controlai.Daemon.Lifecycle.{Reply, Handler, reply}

-- The header `Authorization`: the text after the prefix "Bearer ", or a header without that prefix.
pub data Authorization : Type 0 where
  bearer : String → Authorization
  other : Authorization

module _ (sha256_hex : String → String) where
  abbrev admitted : Handler → Result TokenRow × Db → Reply × Db
  admitted next (err e, db) = reply 401 false db
  admitted next (ok row, db) = next db

  -- `tokenAuthMiddleware`, in front of the handler `next`.
  unfoldable pub token_auth : Authorization → Handler → Handler
  token_auth other next db = reply 401 false db
  token_auth (bearer token) next db = admitted next (lookup_token sha256_hex token db)

  rejected :
      (next : Handler) (x : Result TokenRow × Db) (db : Db)
      → x.0 ≡ err not_found
      → x.1 ≡ db
      → admitted next x ≡ reply 401 false db
  rejected next (err e, db') db h same = ap (reply 401 false) same
  rejected next (ok row, db') db h same = cc

  -- A lookup writes nothing.
  lookup_token-same :
      (raw : String) (now : ℕ) (t : Tables)
      → (lookup_token sha256_hex raw (quiet now t)).1 ≡ quiet now t
  unfolding lookup_token select_token run
  lookup_token-same raw now t =
      elim (Option-cases (lookup hash_of (sha256_hex raw) t.auth_tokens)) [
        | inl e ↦ rw e refl
        | inr (r, e) ↦ rw e refl
      ]

  -- Where no statement fails: once `RevokeToken` has returned for the identifier of a token, a request with the token's text is
  -- answered 401 and does not reach the handler behind, whatever that is.
  pub token_auth-revoked :
      (next : Handler) (raw : String) (r : TokenRow) (now : ℕ) (t : Tables)
      → (lookup_token sha256_hex raw (quiet now t)).0 ≡ ok r
      → token_auth (bearer raw) next (revoke_token r.id (quiet now t)).1
        ≡ reply 401 false (revoke_token r.id (quiet now t)).1
  unfolding token_auth
  token_auth-revoked next raw r now t h =
      rejected next (lookup_token sha256_hex raw (revoke_token r.id (quiet now t)).1)
        (revoke_token r.id (quiet now t)).1
        (lookup_token-revoke_token sha256_hex raw r.id now t
          ∙ ap (without r.id) h
          ∙ rw (eq_refl r.id) refl)
        (rw (tables-revoke_token r.id now t) (lookup_token-same raw now _))
