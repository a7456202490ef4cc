-- ===== src/Text/Bytes.antt =====
-- `str(n)` of a number and `s.encode("utf-8")`, and how long they are.
pub mod Decimal
use Prim.Native.Char.{code}
use text.Mathlib.TextLemmas.{nil-append, cons-append}
use native.Mathlib.Nat.{pow-suc}
use aros_toolchains.Prelude.{
  ℕ, zero, suc, ◌+◌, ◌*◌, ◌/◌, ◌%◌, ◌^◌, ◌≤◌, ◌<◌, String, true, false, List, [], ◌∷◌, ◌++◌, ◌<>◌,
  ltb, if◌then◌else◌, ◌≡◌, refl, ◌∙◌, arith, ◌-◌, Bool-cases, inl, inr,
}
use aros_toolchains.Text.{char_count}

-- One decimal digit; a larger number does not occur.
abbrev digit : ℕ → String
digit zero = "0"
digit (suc zero) = "1"
digit (suc (suc zero)) = "2"
digit (suc (suc (suc zero))) = "3"
digit (suc (suc (suc (suc zero)))) = "4"
digit (suc (suc (suc (suc (suc zero))))) = "5"
digit (suc (suc (suc (suc (suc (suc zero)))))) = "6"
digit (suc (suc (suc (suc (suc (suc (suc zero))))))) = "7"
digit (suc (suc (suc (suc (suc (suc (suc (suc zero)))))))) = "8"
digit _ = "9"

-- The digits of a number, by as many rounds as there is fuel.
decimal_digits : ℕ → ℕ → String
decimal_digits zero n = digit (n % 10)
decimal_digits (suc fuel) n = elim (ltb n 10) [
  | true ↦ digit n
  | false ↦ decimal_digits fuel (n / 10) <> digit (n % 10)
]

-- `str(n)`: a number has no more digits than its value.
unfoldable pub decimal : ℕ → String
unfolding decimal_digits
decimal n = decimal_digits n n

abbrev pub encode_char : ℕ → List ℕ
encode_char c =
    if ltb c 0x80
    then c ∷ []
    else if ltb c 0x800
    then (0xc0 + c / 64) ∷ (0x80 + c % 64) ∷ []
    else if ltb c 0x10000
    then (0xe0 + c / 4096) ∷ (0x80 + c / 64 % 64) ∷ (0x80 + c % 64) ∷ []
    else (0xf0 + c / 262144) ∷ (0x80 + c / 4096 % 64) ∷ (0x80 + c / 64 % 64) ∷ (0x80 + c % 64) ∷ []

-- `s.encode("utf-8")`
abbrev pub encode : String → List ℕ
encode String.[] = []
encode (String.◌∷◌ c s) = encode_char (code c) ++ encode s

pub char_count-append : (s t : String) → char_count (s <> t) ≡ char_count s + char_count t
char_count-append String.[] t = rw nil-append (omega arith)
char_count-append (String.◌∷◌ c s) t = rw cons-append (omega (arith, char_count-append s t))

char_count-digit : (n : ℕ) → char_count (digit n) ≡ 1
char_count-digit zero = refl
char_count-digit (suc zero) = refl
char_count-digit (suc (suc zero)) = refl
char_count-digit (suc (suc (suc zero))) = refl
char_count-digit (suc (suc (suc (suc zero)))) = refl
char_count-digit (suc (suc (suc (suc (suc zero))))) = refl
char_count-digit (suc (suc (suc (suc (suc (suc zero)))))) = refl
char_count-digit (suc (suc (suc (suc (suc (suc (suc zero))))))) = refl
char_count-digit (suc (suc (suc (suc (suc (suc (suc (suc zero)))))))) = refl
char_count-digit _ = refl

small : (n : ℕ) → n < 10 ^ 1 → ltb n 10 ≡ true
small n h = ground arith

tenth : (k n : ℕ) → n < 10 ^ suc (suc k) → n / 10 < 10 ^ suc k
tenth k n h = omega (arith, pow-suc 10 (suc k))

decimal_digits_small : (fuel n : ℕ) → ltb n 10 ≡ true → decimal_digits (suc fuel) n ≡ digit n
unfolding decimal_digits
decimal_digits_small fuel n e = ground arith

decimal_digits_large :
    (fuel n : ℕ)
    → ltb n 10 ≡ false
    → decimal_digits (suc fuel) n ≡ decimal_digits fuel (n / 10) <> digit (n % 10)
unfolding decimal_digits
decimal_digits_large fuel n e = ground arith

char_count-decimal_digits :
    (fuel k n : ℕ) → n < 10 ^ suc k → char_count (decimal_digits fuel n) ≤ suc k
unfolding decimal_digits
char_count-decimal_digits zero k n h = omega (arith, char_count-digit (n % 10))
char_count-decimal_digits (suc fuel) zero n h =
    rw (decimal_digits_small fuel n (small n h)) (omega (arith, char_count-digit n))
char_count-decimal_digits (suc fuel) (suc k) n h = elim (Bool-cases (ltb n 10)) [
  | inl e ↦ rw (decimal_digits_small fuel n e) (omega (arith, char_count-digit n))
  | inr e ↦
      rw
        (
          decimal_digits_large fuel n e,
          char_count-append (decimal_digits fuel (n / 10)) (digit (n % 10)),
        )
        (omega (
          arith,
          char_count-digit (n % 10),
          char_count-decimal_digits fuel k (n / 10) (tenth k n h),
        ))
]

-- A number below a power of ten has at most that many digits.
pub char_count-decimal : (k n : ℕ) → n < 10 ^ suc k → char_count (decimal n) ≤ suc k
unfolding decimal
char_count-decimal k n h = char_count-decimal_digits n k n h

-- The number that a text of digits writes, after `n`.
abbrev pub read_decimal : ℕ → String → ℕ
read_decimal n String.[] = n
read_decimal n (String.◌∷◌ c s) = read_decimal (n * 10 + (code c - 48)) s

read_decimal-append :
    (n : ℕ) (s t : String) → read_decimal n (s <> t) ≡ read_decimal (read_decimal n s) t
read_decimal-append n String.[] t = rw nil-append refl
read_decimal-append n (String.◌∷◌ c s) t =
    rw cons-append (read_decimal-append (n * 10 + (code c - 48)) s t)

read_decimal-digit : (n d : ℕ) → d < 10 → read_decimal n (digit d) ≡ n * 10 + d
read_decimal-digit n zero h = omega arith
read_decimal-digit n (suc zero) h = omega arith
read_decimal-digit n (suc (suc zero)) h = omega arith
read_decimal-digit n (suc (suc (suc zero))) h = omega arith
read_decimal-digit n (suc (suc (suc (suc zero)))) h = omega arith
read_decimal-digit n (suc (suc (suc (suc (suc zero))))) h = omega arith
read_decimal-digit n (suc (suc (suc (suc (suc (suc zero)))))) h = omega arith
read_decimal-digit n (suc (suc (suc (suc (suc (suc (suc zero))))))) h = omega arith
read_decimal-digit n (suc (suc (suc (suc (suc (suc (suc (suc zero)))))))) h = omega arith
read_decimal-digit n _ h = omega arith

read_decimal-decimal_digits : (fuel n : ℕ) → n ≤ fuel → read_decimal 0 (decimal_digits fuel n) ≡ n
unfolding decimal_digits
read_decimal-decimal_digits zero n h = ground (arith, read_decimal-digit 0 (n % 10))
read_decimal-decimal_digits (suc fuel) n h = elim (Bool-cases (ltb n 10)) [
  | inl e ↦ rw (decimal_digits_small fuel n e) (ground (arith, read_decimal-digit 0 n))
  | inr e ↦
      rw
        (
          decimal_digits_large fuel n e,
          read_decimal-append 0 (decimal_digits fuel (n / 10)) (digit (n % 10)),
          read_decimal-decimal_digits fuel (n / 10) (ground arith),
        )
        (read_decimal-digit (n / 10) (n % 10) (omega arith) ∙ omega arith)
]

-- The fuel suffices: the digits of a number write that number.
pub read_decimal-decimal : (n : ℕ) → read_decimal 0 (decimal n) ≡ n
unfolding decimal
read_decimal-decimal n = read_decimal-decimal_digits n n (omega arith)
