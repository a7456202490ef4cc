-- ===== src/Text/Order.antt =====
-- `<` and `<=` on `str`: code points, lexicographically.
use Prim.Native.Char.{code}
use text.Mathlib.TextEquality.{Char-path}
use mathlib.Core.Path.{ap₂}
use aros_toolchains.Sorted.{Ord}
use aros_toolchains.Prelude.{
  String, Bool, true, false, ◌&&◌, ◌||◌, ltb, ◌==◌, nat_eq, string_eq, ◌≡◌, refl, arith,
}

unfoldable pub str_ltb : String → String → Bool
str_ltb s String.[] = false
str_ltb String.[] (String.◌∷◌ d t) = true
str_ltb (String.◌∷◌ c s) (String.◌∷◌ d t) =
    let rest = str_ltb s t in ltb (code c) (code d) || (code c == code d && rest)

pub str_ltb_irrefl : (s : String) → str_ltb s s ≡ false
unfolding str_ltb
str_ltb_irrefl String.[] = refl
str_ltb_irrefl (String.◌∷◌ c s) = ground (arith, str_ltb_irrefl s)

pub str_ltb_trans : (a b c : String) → str_ltb a b ≡ true → str_ltb b c ≡ true → str_ltb a c ≡ true
unfolding str_ltb
str_ltb_trans a b String.[] h k = k
str_ltb_trans a String.[] (String.◌∷◌ z c) h k = cc
str_ltb_trans String.[] (String.◌∷◌ y b) (String.◌∷◌ z c) h k = refl
str_ltb_trans (String.◌∷◌ x a) (String.◌∷◌ y b) (String.◌∷◌ z c) h k =
    ground (arith, str_ltb_trans a b c)

-- Of two texts that are not in order, and are not in order the other way, nothing is left but
-- that they are one.
pub str_ltb_total : (a b : String) → str_ltb a b ≡ false → str_ltb b a ≡ false → a ≡ b
unfolding str_ltb
str_ltb_total String.[] String.[] h k = refl
str_ltb_total String.[] (String.◌∷◌ d t) h k = cc
str_ltb_total (String.◌∷◌ c s) String.[] h k = cc
str_ltb_total (String.◌∷◌ c s) (String.◌∷◌ d t) h k =
    let same : (code c ≡ code d) × (str_ltb s t ≡ false) × (str_ltb t s ≡ false) = ground arith in
    ap₂ String.◌∷◌ (Char-path c d same.0) (str_ltb_total s t same.1 same.2)

-- The order of `str`, for `sorted`.
instance unfoldable pub string_ord : Ord String
unfolding str_ltb str_ltb_irrefl str_ltb_trans str_ltb_total
string_ord = record {
  lt = str_ltb;
  irrefl = str_ltb_irrefl;
  trans = str_ltb_trans;
  total = str_ltb_total;
}
