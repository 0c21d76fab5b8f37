-- ===== src/Prelude/TextOrder.antt =====
-- The order of texts by their code points, which is that of their UTF-8 bytes: Go's `<` on strings.
use Prim.Native.String.{String, compare}
use Prim.Native.String.compare
use mathlib.Core.Path.{◌≡◌, refl, sym, ◌∙◌}
use mathlib.Core.Bool.{Bool, true, false, false≢true}
use native.Mathlib.Omega.{arith}
use mathlib.Core.HLevel.{hedberg}
use mathlib.Core.Logic.{inl, inr}
use text.Mathlib.Text.{is_le, ◌==◌}
use text.Mathlib.TextEquality.{codes_equal, eq_iff}
use controlai.Prelude.Tests.{Bool-cases}

abbrev pub text_before : String → String → Bool
text_before a b = is_le (compare a b)

pub text_before_total : (a b : String) → text_before a b ≡ false → text_before b a ≡ true
text_before_total String.[] String.[] h = ground (arith, compare.nil-nil)
text_before_total String.[] (String.◌∷◌ d t) h = ground (arith, compare.nil-cons d t)
text_before_total (String.◌∷◌ c s) String.[] h = ground (arith, compare.nil-cons c s)
text_before_total (String.◌∷◌ c s) (String.◌∷◌ d t) h =
    ground (arith, compare.cons-cons c d s t, compare.cons-cons d c t s, text_before_total s t)

pub text_before_antisymm : (a b : String) → text_before a b ≡ true → text_before b a ≡ true → a ≡ b
text_before_antisymm String.[] String.[] h k = refl
text_before_antisymm String.[] (String.◌∷◌ d t) h k = absurd (ground (arith, compare.cons-nil d t))
text_before_antisymm (String.◌∷◌ c s) String.[] h k = absurd (ground (arith, compare.cons-nil c s))
text_before_antisymm (String.◌∷◌ c s) (String.◌∷◌ d t) h k =
    λ i. String.◌∷◌ (heads i) (text_before_antisymm s t tails.0 tails.1 i)
  where
    heads : c ≡ d
    heads = codes_equal c d (ground (arith, compare.cons-cons c d s t, compare.cons-cons d c t s))

    tails : (text_before s t ≡ true) × (text_before t s ≡ true)
    tails = ground (arith, compare.cons-cons c d s t, compare.cons-cons d c t s)

pub text_before_trans :
    (a b c : String) → text_before a b ≡ true → text_before b c ≡ true → text_before a c ≡ true
text_before_trans String.[] b String.[] h k = ground (arith, compare.nil-nil)
text_before_trans String.[] b (String.◌∷◌ e u) h k = ground (arith, compare.nil-cons e u)
text_before_trans (String.◌∷◌ c s) String.[] u h k = absurd (ground (arith, compare.cons-nil c s))
text_before_trans (String.◌∷◌ c s) (String.◌∷◌ d t) String.[] h k =
    absurd (ground (arith, compare.cons-nil d t))
text_before_trans (String.◌∷◌ c s) (String.◌∷◌ d t) (String.◌∷◌ e u) h k = ground (
  arith,
  compare.cons-cons c d s t,
  compare.cons-cons d e t u,
  compare.cons-cons c e s u,
  text_before_trans s t u,
)

decide_equal : (s t : String) → Dec (s ≡ t)
decide_equal s t = elim (Bool-cases (s == t)) [
  | inl e ↦ yes ((eq_iff s t).0 e)
  | inr e ↦ no (λ p. false≢true (sym e ∙ (eq_iff s t).1 p))
]

pub String_set : IsSet String
String_set = hedberg decide_equal
