-- ===== src/Store/Tokens.antt =====
-- internal/store/sqlite/store.go: bearer tokens. crypto/rand and crypto/sha256 are not part of the
-- repository: the random bytes come as arguments, already in hex, and the hash is a parameter.
use controlai.Prelude.{
  ℕ, String, true, false, not, ◌&&◌, ◌||◌, none, some, List, ◌==◌, leb, length, select,
  if◌then◌else◌,
}
use Prim.Native.String.{slice}
use controlai.Store.Tables.Statements.{insert, update, order_by, has, lookup}
use controlai.Store.Rows.{TokenRow}
use controlai.Store.Query.{
  unique_constraint, not_found, wrapped, ok, err, Query, Statement, pure, run, ◌>>=◌, ◌>>◌,
}
use controlai.Store.Tenants.{found, require_rows}

abbrev pub hash_of : TokenRow → String
hash_of r = r.hash

abbrev pub token_id_of : TokenRow → String
token_id_of r = r.id

unfoldable pub insert_token : TokenRow → Statement Unit
insert_token r now t =
    if has token_id_of r.id t.auth_tokens || has hash_of r.hash t.auth_tokens
    then (err (wrapped unique_constraint), t)
    else (ok tt, record t { auth_tokens = insert (record r { created_at = now }) t.auth_tokens })

unfoldable pub select_token : String → Statement TokenRow
select_token hash now t = (found (λ r. r) (lookup hash_of hash t.auth_tokens), t)

-- The row that `LookupToken` answers with: a revoked one counts as absent.
abbrev pub unrevoked : TokenRow → Query TokenRow
unrevoked r db = (if r.revoked then err not_found else ok r, db)

unfoldable pub select_tokens : Statement (List TokenRow)
select_tokens now t = (
  ok (order_by (λ a b. leb a.created_at b.created_at) (select (λ r. not r.revoked) t.auth_tokens)),
  t,
)

unfoldable pub list_tokens : Query (List TokenRow)
list_tokens = run select_tokens

-- UPDATE auth_tokens SET revoked=1 WHERE id=? AND revoked=0.
unfoldable pub revoke_tokens : String → Statement ℕ
revoke_tokens id now t = (
  ok (length (select (λ r. r.id == id && not r.revoked) t.auth_tokens)),
  record t {
    auth_tokens =
        update (λ r. r.id == id && not r.revoked)
          (λ r. record r { revoked = true; revoked_at = some now }) t.auth_tokens;
  },
)

unfoldable pub revoke_token : String → Query Unit
revoke_token id = do n ← run (revoke_tokens id); require_rows n

module _ (sha256_hex : String → String) where
  abbrev pub new_token : String → String → String → TokenRow
  new_token raw id display_name = record {
    id = id;
    display_name = display_name;
    hash = sha256_hex raw;
    prefix = slice raw 0 8;
    revoked = false;
    created_at = 0;
    revoked_at = none;
  }

  -- `CreateToken` with the hex of its 32 random bytes and the new UUID.
  unfoldable pub create_token : String → String → String → Query (String × TokenRow)
  create_token raw id display_name = do
    run (insert_token (new_token raw id display_name))
    pure (raw, new_token raw id display_name)

  unfoldable pub lookup_token : String → Query TokenRow
  lookup_token raw = do r ← run (select_token (sha256_hex raw)); unrevoked r
