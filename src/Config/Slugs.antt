-- ===== src/Config/Slugs.antt =====
-- The slug and id patterns of internal/config/tenant.go and site.go, and the checks that
-- internal/daemon/server.go writes out by hand (`validateSlugHTTP`, `validateProjectIDHTTP`).
-- A text is the list of its code points; `^` and `$` stand for the two ends of the text.
use controlai.Prelude.{
  ℕ, suc, ◌≡◌, refl, sym, ◌∙◌, Bool, true, false, ◌&&◌, ◌||◌, List, [], ◌∷◌, ◌++◌, length, all,
  codes, byte_length, utf8_width, ltb, leb, nat_eq, arith, if◌then◌else◌,
}

unfoldable pub is_lower : ℕ → Bool
is_lower c = leb b'a' c && leb c b'z'

unfoldable pub is_upper : ℕ → Bool
is_upper c = leb b'A' c && leb c b'Z'

unfoldable pub is_digit : ℕ → Bool
is_digit c = leb b'0' c && leb c b'9'

-- The class `[a-z0-9-]`.
unfoldable pub is_slug_char : ℕ → Bool
unfolding is_lower is_digit
is_slug_char c = is_lower c || (is_digit c || nat_eq c b'-')

-- The pattern `^[a-z][a-z0-9-]{0,40}$`.
unfoldable pub slug_pattern : List ℕ → Bool
unfolding is_lower is_slug_char
slug_pattern [] = false
slug_pattern (c ∷ rest) = is_lower c && (all is_slug_char rest && leb (length rest) 40)

abbrev pub tenant_prefix : List ℕ
tenant_prefix = codes "tnt_"

abbrev pub site_prefix : List ℕ
site_prefix = codes "ste_"

-- The text after a prefix, matched against the slug pattern.
unfoldable pub after_prefix : List ℕ → List ℕ → Bool
unfolding slug_pattern
after_prefix [] text = slug_pattern text
after_prefix (p ∷ prefix) [] = false
after_prefix (p ∷ prefix) (c ∷ text) =
    let rest = after_prefix prefix text in if nat_eq p c then rest else false

-- `^tnt_[a-z][a-z0-9-]{0,40}$`.
unfoldable pub tenant_id_pattern : List ℕ → Bool
unfolding after_prefix
tenant_id_pattern text = after_prefix tenant_prefix text

-- `^ste_[a-z][a-z0-9-]{0,40}$`.
unfoldable pub site_id_pattern : List ℕ → Bool
unfolding after_prefix
site_id_pattern text = after_prefix site_prefix text

-- `ValidateSlug`: true is a nil error.
unfoldable pub validate_slug : List ℕ → Bool
unfolding slug_pattern
validate_slug slug = slug_pattern slug

unfoldable pub tenant_id_from_slug : List ℕ → List ℕ
tenant_id_from_slug slug = tenant_prefix ++ slug

unfoldable pub site_id_from_slug : List ℕ → List ℕ
site_id_from_slug slug = site_prefix ++ slug

-- The loop of `validateSlugHTTP`, at position i of the range.
unfoldable pub slug_chars_from : ℕ → List ℕ → Bool
unfolding is_lower is_digit
slug_chars_from i [] = true
slug_chars_from i (c ∷ rest) =
    let later = slug_chars_from (suc i) rest in
    if is_lower c || (is_digit c && ltb 0 i || nat_eq c b'-' && ltb 0 i) then later else false

-- `validateSlugHTTP`: true is a nil error, false is answered with status 400.
unfoldable pub validate_slug_http : List ℕ → Bool
unfolding slug_chars_from
validate_slug_http [] = false
validate_slug_http (c ∷ rest) =
    if ltb (byte_length (c ∷ rest)) 1 || ltb 41 (byte_length (c ∷ rest))
    then false
    else slug_chars_from 0 (c ∷ rest)

-- The loop of `validateProjectIDHTTP`.
unfoldable pub is_project_char : ℕ → Bool
unfolding is_lower is_upper is_digit
is_project_char c = is_lower c || (is_upper c || (is_digit c || (nat_eq c b'_' || nat_eq c b'-')))

-- `validateProjectIDHTTP`: true is a nil error.
unfoldable pub validate_project_id_http : List ℕ → Bool
unfolding is_project_char
validate_project_id_http text =
    if ltb 64 (byte_length text) then false else all is_project_char text

slug_char_width : (c : ℕ) → is_slug_char c ≡ true → utf8_width c ≡ 1
unfolding is_slug_char
slug_char_width c h = ground arith

slug_bytes : (cs : List ℕ) → all is_slug_char cs ≡ true → byte_length cs ≡ length cs
slug_bytes [] h = refl
slug_bytes (c ∷ rest) h = ground (arith, slug_char_width c, slug_bytes rest)

slug_chars-eq-all : (i : ℕ) (cs : List ℕ) → slug_chars_from (suc i) cs ≡ all is_slug_char cs
unfolding slug_chars_from is_slug_char
slug_chars-eq-all i [] = refl
slug_chars-eq-all i (c ∷ rest) = ground (arith, slug_chars-eq-all (suc i) rest)

lower_is_slug : (c : ℕ) → is_lower c ≡ true → is_slug_char c ≡ true
unfolding is_slug_char
lower_is_slug c h = ground arith

slug_head :
    (c : ℕ) (rest : List ℕ) → slug_chars_from 0 (c ∷ rest) ≡ (is_lower c && all is_slug_char rest)
unfolding slug_chars_from
slug_head c rest = ground (arith, slug_chars-eq-all 0 rest)

-- The hand-written check of the daemon accepts a text exactly when the pattern of the
-- configuration package matches it, whatever the text.
pub validate_slug_http-eq-validate_slug :
    (slug : List ℕ) → validate_slug_http slug ≡ validate_slug slug
unfolding validate_slug_http validate_slug slug_pattern
validate_slug_http-eq-validate_slug [] = refl
validate_slug_http-eq-validate_slug (c ∷ rest) =
    unfold is_lower is_slug_char in
    ground (arith, slug_head c rest, slug_bytes rest, slug_char_width c, lower_is_slug c)

slug_after_prefix :
    (prefix slug : List ℕ) → after_prefix prefix (prefix ++ slug) ≡ slug_pattern slug
unfolding after_prefix
slug_after_prefix [] slug = refl
slug_after_prefix (p ∷ prefix) slug = ground (arith, slug_after_prefix prefix slug)

-- A slug that the daemon accepts gives, with its prefix, an identifier that the stored tenant and
-- site patterns accept, and a slug that it refuses gives one that they refuse.
pub id_pattern-of_slug :
    (slug : List ℕ)
    → (tenant_id_pattern (tenant_id_from_slug slug) ≡ validate_slug_http slug)
      × (site_id_pattern (site_id_from_slug slug) ≡ validate_slug_http slug)
unfolding tenant_id_pattern site_id_pattern tenant_id_from_slug site_id_from_slug validate_slug
id_pattern-of_slug slug = (
  slug_after_prefix tenant_prefix slug ∙ sym (validate_slug_http-eq-validate_slug slug),
  slug_after_prefix site_prefix slug ∙ sym (validate_slug_http-eq-validate_slug slug),
)
