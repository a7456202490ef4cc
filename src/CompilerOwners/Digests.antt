-- ===== src/CompilerOwners/Digests.antt =====
-- `_owner_id`: the bytes that are digested, for different builds.
use Prim.Native.Char.{Char, code}
use text.Mathlib.TextEquality.{Char-path}
use mathlib.Core.Path.{ap₂}
use aros_toolchains.Prelude.{
  ℕ, ◌<◌, String, true, List, [], ◌∷◌, ◌++◌, ◌≡◌, refl, arith, ap, sym, ◌∙◌,
}
use aros_toolchains.Text.Bytes.{encode, encode_char}
use aros_toolchains.CompilerOwners.{Key, digest_input, close}
use aros_toolchains.CompilerOwners.Names.{IsPlainKey, is_plain, is_plain_char}

encode_char_plain : (c : ℕ) → is_plain_char c ≡ true → encode_char c ≡ c ∷ []
encode_char_plain c h = ground arith

close-cons :
    (c : Char) (s : String) (xs : List ℕ)
    → is_plain (String.◌∷◌ c s) ≡ true
    → (0 < code c) × (is_plain s ≡ true) × (close (String.◌∷◌ c s) xs ≡ code c ∷ close s xs)
close-cons c s xs h = (
  ground arith,
  ground arith,
  ap (λ l. (l ++ encode s) ++ (0 ∷ xs)) (encode_char_plain (code c) (ground arith)),
)

cons-heads : {m n : ℕ} {xs ys : List ℕ} → m ∷ xs ≡ n ∷ ys → (m ≡ n) × (xs ≡ ys)
cons-heads e = ground arith

close-injective :
    (s t : String) (xs ys : List ℕ)
    → is_plain s ≡ true
    → is_plain t ≡ true
    → close s xs ≡ close t ys
    → (s ≡ t) × (xs ≡ ys)
close-injective String.[] String.[] xs ys h k e = (refl, ground arith)
close-injective String.[] (String.◌∷◌ d t) xs ys h k e =
    let f = close-cons d t ys k in absurd (omega (arith, f.0, (cons-heads (e ∙ f.2)).0))
close-injective (String.◌∷◌ c s) String.[] xs ys h k e =
    let f = close-cons c s xs h in absurd (omega (arith, f.0, (cons-heads (sym f.2 ∙ e)).0))
close-injective (String.◌∷◌ c s) (String.◌∷◌ d t) xs ys h k e =
    let f = close-cons c s xs h in
    let g = close-cons d t ys k in
    let both = cons-heads (sym f.2 ∙ (e ∙ g.2)) in
    let rest = close-injective s t xs ys f.1 g.1 both.1 in
    (ap₂ String.◌∷◌ (Char-path c d both.0) rest.0, rest.1)

-- Two builds, whose texts have only ASCII characters other than the zero character, have the same
-- digest input only if group, host, profile and copy are the same.
pub digest_input-injective :
    (a b : Key) → IsPlainKey a → IsPlainKey b → digest_input a ≡ digest_input b → a ≡ b
unfolding digest_input
digest_input-injective (g, (h, (p, c))) (g', (h', (p', c'))) f k e =
    let one = close-injective g g' _ _ f.plain_group k.plain_group e in
    let two = close-injective h h' _ _ f.plain_host k.plain_host one.1 in
    let three = close-injective p p' _ _ f.plain_profile k.plain_profile two.1 in
    let four = close-injective c c' _ _ f.plain_copy k.plain_copy three.1 in
    λ i. (one.0 i, (two.0 i, (three.0 i, four.0 i)))
