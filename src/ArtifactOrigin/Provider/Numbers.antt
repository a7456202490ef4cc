-- ===== src/ArtifactOrigin/Provider/Numbers.antt =====
-- `positive`: the numbers that identify what the provider holds.
use Prim.Native.Char.{code}
use aros_toolchains.Prelude.{
  some_injective, none-ne-some, ℕ, suc, ◌+◌, ◌*◌, ◌-◌, ◌≤◌, ◌<◌, String, true, some, ok,
  origin_error, >>=-ok, require-ok, ok-injective, leb, ◌<>◌, ◌≡◌, ◌≢◌, arith, sym, ap, ◌∙◌,
}
use mathlib.Core.Path.{subst}
use text.Mathlib.TextLemmas.{cons-append}
use aros_toolchains.Json.{
  or_raise-some, Value, int, pos, negsuc, str, null, bool, float, arr, obj, or_raise,
}
use aros_toolchains.Text.Bytes.{decimal, read_decimal, read_decimal-decimal}
use aros_toolchains.ArtifactOrigin.Provider.{number_text, is_canonical_number, positive}

read_decimal-grows : (n : ℕ) (s : String) → n ≤ read_decimal n s
read_decimal-grows n String.[] = omega arith
read_decimal-grows n (String.◌∷◌ c s) = omega (arith, read_decimal-grows (n * 10 + (code c - 48)) s)

canonical-positive : (s : String) → is_canonical_number s ≡ true → 0 < read_decimal 0 s
canonical-positive String.[] h = cc
canonical-positive (String.◌∷◌ c s) h =
    ground (arith, read_decimal-grows (0 * 10 + (code c - 48)) s)

-- The text of a number that was accepted.
record IsRead (v : Value) (n : ℕ) : Type 0 where
  text : String
  texted : number_text v ≡ some text
  canonical : is_canonical_number text ≡ true
  read : read_decimal 0 text ≡ n
  bounded : n ≤ 9007199254740991

positive-IsRead : (v : Value) (n : ℕ) → positive v ≡ ok n → IsRead v n
unfolding positive
positive-IsRead v n h =
    >>=-ok (or_raise (number_text v) (origin_error "provider identity must be a canonical integer"))
      _ h
      λ text given h1. require-ok (is_canonical_number text) _ _ h1 λ canonical h2.
        require-ok (leb (read_decimal 0 text) 9007199254740991) _ _ h2 λ small h3. record {
          text = text;
          texted =
              or_raise-some (number_text v) text
                (origin_error "provider identity must be a canonical integer") given;
          canonical = canonical;
          read = ok-injective h3;
          bounded = subst (λ m. m ≤ 9007199254740991) (ok-injective h3) (ground (arith, small));
        }

minus-not-canonical : (s : String) → is_canonical_number ("-" <> s) ≢ true
minus-not-canonical s h =
    let read : is_canonical_number (String.◌∷◌ "-" ("" <> s)) ≡ true =
      subst (λ t. is_canonical_number t ≡ true) (cons-append "-" "" s) h in
    minus_first ("" <> s) read
  where
    minus_first : (t : String) → is_canonical_number (String.◌∷◌ "-" t) ≢ true
    minus_first t h = cc

-- What is read of a value: the value itself, or the number that its text writes.
pub data IsNumber : Value → ℕ → Type 0 where
  an_integer : (n : ℕ) → IsNumber (int (pos n)) n
  a_text : (s : String) → is_canonical_number s ≡ true → IsNumber (str s) (read_decimal 0 s)

read-IsNumber : (v : Value) (n : ℕ) → IsRead v n → IsNumber v n
read-IsNumber (int (pos m)) n r =
    let same : decimal m ≡ r.text = some_injective r.texted in
    subst (IsNumber (int (pos m)))
      (sym (read_decimal-decimal m) ∙ (ap (read_decimal 0) same ∙ r.read)) (an_integer m)
read-IsNumber (int (negsuc m)) n r = absurd (
    minus-not-canonical (decimal (suc m))
      (subst (λ t. is_canonical_number t ≡ true) (sym (some_injective r.texted)) r.canonical))
read-IsNumber (str s) n r =
    let same : s ≡ r.text = some_injective r.texted in
    subst (IsNumber (str s)) (ap (read_decimal 0) same ∙ r.read)
      (a_text s (subst (λ t. is_canonical_number t ≡ true) (sym same) r.canonical))
read-IsNumber null n r = absurd (none-ne-some r.texted)
read-IsNumber (bool b) n r = absurd (none-ne-some r.texted)
read-IsNumber (float t) n r = absurd (none-ne-some r.texted)
read-IsNumber (arr vs) n r = absurd (none-ne-some r.texted)
read-IsNumber (obj fs) n r = absurd (none-ne-some r.texted)

-- A provider identity that is accepted is at least 1 and at most 2^53 - 1, and it is the integer
-- that was given or the number that a text of 1 to 16 digits, the first of which is not zero,
-- writes.
pub positive-IsNumber :
    (v : Value) (n : ℕ) → positive v ≡ ok n → IsNumber v n × (0 < n) × (n ≤ 9007199254740991)
positive-IsNumber v n h =
    let r = positive-IsRead v n h in
    (
      read-IsNumber v n r,
      subst (λ m. 0 < m) r.read (canonical-positive r.text r.canonical),
      r.bounded,
    )
