-- ===== src/Text/Prefix.antt =====
-- `s.startswith(p)`: what a text with a prefix is.
use Prim.Native.Char.{code}
use text.Mathlib.TextLemmas.{nil-append, cons-append}
use text.Mathlib.TextEquality.{Char-path}
use aros_toolchains.Prelude.{
  String, none, some, some_injective, ◌==◌, ◌<>◌, nat_eq, eq_of_test, test_refl, Bool-cases, inl,
  inr, ◌≡◌, refl, arith, ap, sym, ◌∙◌,
}
use aros_toolchains.Text.{strip_prefix}

pub strip_prefix-eq : (p s rest : String) → strip_prefix p s ≡ some rest → s ≡ p <> rest
strip_prefix-eq String.[] s rest h = some_injective h ∙ sym (nil-append rest)
strip_prefix-eq (String.◌∷◌ c p) String.[] rest h = cc
strip_prefix-eq (String.◌∷◌ c p) (String.◌∷◌ d s) rest h = elim (Bool-cases (code c == code d)) [
  | inl e ↦
      let below : s ≡ p <> rest = strip_prefix-eq p s rest (ground (arith, h)) in
      let same : d ≡ c = Char-path d c (sym (eq_of_test (code c) (code d) e)) in
      ap (λ t. String.◌∷◌ d t) below
      ∙ (ap (λ x. String.◌∷◌ x (p <> rest)) same ∙ sym (cons-append c p rest))
  | inr e ↦ absurd (let no : none ≡ some rest = ground (arith, h) in cc)
]

pub strip_prefix-append : (p s : String) → strip_prefix p (p <> s) ≡ some s
strip_prefix-append String.[] s = ap some (nil-append s)
strip_prefix-append (String.◌∷◌ c p) s =
    rw (cons-append c p s) (rw (test_refl (code c), strip_prefix-append p s) refl)
