-- ===== src/Prelude/Text.antt =====
-- Texts as their code points, their length in bytes of UTF-8, and joins of several texts.
use Prim.Native.Nat.{ℕ, ◌+◌}
use Prim.Native.Char.{code}
use Prim.Native.String.{String, ◌++◌ as append}
use mathlib.Core.Path.{◌≡◌, ap, ◌∙◌}
use mathlib.Core.List.{List, [], ◌∷◌, ◌++◌}
use text.Mathlib.TextLemmas.{nil-append, cons-append}
use mathlib.Core.Bool.{Bool, ◌||◌}
use text.Mathlib.Text.{◌==◌}
use controlai.Prelude.Tests.{ltb, if◌then◌else◌}

abbrev pub codes : String → List ℕ
codes String.[] = []
codes (String.◌∷◌ c s) = code c ∷ codes s

abbrev pub concat : List String → String
concat [] = ""
concat (s ∷ rest) = append s (concat rest)

-- The bytes that UTF-8 takes for one code point.
abbrev pub utf8_width : ℕ → ℕ
utf8_width c = if ltb c 0x80 then 1 else if ltb c 0x800 then 2 else if ltb c 0x1_0000 then 3 else 4

-- Go's `len` of a text that is valid UTF-8.
abbrev pub byte_length : List ℕ → ℕ
byte_length [] = 0
byte_length (c ∷ rest) = utf8_width c + byte_length rest

pub codes-append : (s t : String) → codes (append s t) ≡ codes s ++ codes t
codes-append String.[] t = ap codes (nil-append t)
codes-append (String.◌∷◌ c s) t =
    ap codes (cons-append c s t) ∙ ap (λ (r : List ℕ). code c ∷ r) (codes-append s t)

-- `filepath.Join` of a clean directory and plain names.
abbrev pub path : List String → String
path [] = ""
path (p ∷ []) = p
path (p ∷ q ∷ rest) = concat (p ∷ "/" ∷ path (q ∷ rest) ∷ [])

-- `strings.HasSuffix`.
abbrev pub has_suffix : String → String → Bool
has_suffix String.[] t = "" == t
has_suffix (String.◌∷◌ c s) t = String.◌∷◌ c s == t || has_suffix s t
