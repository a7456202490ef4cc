-- ===== src/Text/Bytes/Decimal.antt =====
-- `int(s)` and `str(n)` are inverse on texts of digits with no leading zero.
use Prim.Native.Char.{Char, code}
use text.Mathlib.TextLemmas.{nil-append, cons-append, append_assoc, append-nil}
use text.Mathlib.TextEquality.{Char-path}
use aros_toolchains.Prelude.{
  ℕ, zero, suc, ◌+◌, ◌*◌, ◌/◌, ◌%◌, ◌-◌, ◌≤◌, ◌<◌, String, true, false, ◌<>◌, ltb, ◌≡◌, refl, ap,
  sym, ◌∙◌, arith, Bool-cases, inl, inr, both_true,
}
use aros_toolchains.Text.{all_chars, first_char, is_digit, between}
use aros_toolchains.Text.Bytes.{
  digit, decimal, decimal_digits, decimal_digits_small, decimal_digits_large, read_decimal,
}

decimal_digits_zero : (f : ℕ) → decimal_digits f 0 ≡ "0"
unfolding decimal_digits
decimal_digits_zero zero = refl
decimal_digits_zero (suc f) = refl

-- More fuel than the number changes nothing.
decimal_digits_fuel : (f g n : ℕ) → n ≤ f → n ≤ g → decimal_digits f n ≡ decimal_digits g n
decimal_digits_fuel zero g n h k =
    let none_left : n ≡ 0 = omega arith in
    rw none_left (decimal_digits_zero zero ∙ sym (decimal_digits_zero g))
decimal_digits_fuel (suc f) zero n h k =
    let none_left : n ≡ 0 = omega arith in
    rw none_left (decimal_digits_zero (suc f) ∙ sym (decimal_digits_zero zero))
decimal_digits_fuel (suc f) (suc g) n h k = elim (Bool-cases (ltb n 10)) [
  | inl e ↦ decimal_digits_small f n e ∙ sym (decimal_digits_small g n e)
  | inr e ↦
      decimal_digits_large f n e
      ∙ (ap (λ t. t <> digit (n % 10))
            (decimal_digits_fuel f g (n / 10) (ground arith) (ground arith))
          ∙ sym (decimal_digits_large g n e))
]

decimal_small : (d : ℕ) → d < 10 → decimal d ≡ digit d
unfolding decimal
decimal_small d h =
    decimal_digits_fuel d (suc d) d (omega arith) (omega arith)
    ∙ decimal_digits_small d d (ground arith)

-- One more digit.
decimal_next : (n d : ℕ) → 0 < n → d < 10 → decimal (n * 10 + d) ≡ decimal n <> digit d
unfolding decimal
decimal_next n d h k =
    let m : ℕ = n * 10 + d in
    let above : ltb m 10 ≡ false = ground arith in
    let tens : m / 10 ≡ n = omega arith in
    let ones : m % 10 ≡ d = omega arith in
    decimal_digits_fuel m (suc m) m (omega arith) (omega arith)
    ∙ (decimal_digits_large m m above
        ∙ (ap (λ t. decimal_digits m t <> digit (m % 10)) tens
            ∙ (ap (λ t. decimal_digits m n <> digit t) ones
                ∙ ap (λ t. t <> digit d) (decimal_digits_fuel m n n (omega arith) (omega arith)))))

one_char : (c d : Char) → code c ≡ code d → String.◌∷◌ c String.[] ≡ String.◌∷◌ d String.[]
one_char c d h = ap (λ e. String.◌∷◌ e String.[]) (Char-path c d h)

digit-code : (n : ℕ) (c : Char) → n < 10 → 48 + n ≡ code c → digit n ≡ String.◌∷◌ c String.[]
digit-code zero c h e = one_char "0" c (omega (arith, e))
digit-code (suc zero) c h e = one_char "1" c (omega (arith, e))
digit-code (suc (suc zero)) c h e = one_char "2" c (omega (arith, e))
digit-code (suc (suc (suc zero))) c h e = one_char "3" c (omega (arith, e))
digit-code (suc (suc (suc (suc zero)))) c h e = one_char "4" c (omega (arith, e))
digit-code (suc (suc (suc (suc (suc zero))))) c h e = one_char "5" c (omega (arith, e))
digit-code (suc (suc (suc (suc (suc (suc zero)))))) c h e = one_char "6" c (omega (arith, e))
digit-code (suc (suc (suc (suc (suc (suc (suc zero))))))) c h e = one_char "7" c (omega (arith, e))
digit-code (suc (suc (suc (suc (suc (suc (suc (suc zero)))))))) c h e =
    one_char "8" c (omega (arith, e))
digit-code _ c h e = one_char "9" c (omega (arith, e))

digit_text : (c : Char) → is_digit (code c) ≡ true → digit (code c - 48) ≡ String.◌∷◌ c String.[]
digit_text c h = digit-code (code c - 48) c (ground arith) (ground arith)

-- Digits after a number.
decimal-read_decimal_from :
    (s : String) (n : ℕ)
    → 0 < n
    → all_chars is_digit s ≡ true
    → decimal (read_decimal n s) ≡ decimal n <> s
decimal-read_decimal_from String.[] n h k = sym (append-nil (decimal n))
decimal-read_decimal_from (String.◌∷◌ c s) n h k =
    let parts = both_true (is_digit (code c)) (all_chars is_digit s) k in
    let d : ℕ = code c - 48 in
    decimal-read_decimal_from s (n * 10 + d) (omega arith) parts.1
    ∙ (ap (λ t. t <> s) (decimal_next n d h (ground (arith, parts.0)))
        ∙ (append_assoc (decimal n) (digit d) s
            ∙ ap (λ t. decimal n <> t)
                (ap (λ t. t <> s) (digit_text c parts.0)
                  ∙ (cons-append c String.[] s ∙ ap (λ t. String.◌∷◌ c t) (nil-append s)))))

-- A text of digits, the first of which is not zero, is `str` of the number that it writes.
pub decimal-read_decimal :
    (s : String)
    → first_char (between b'1' b'9') s ≡ true
    → all_chars is_digit s ≡ true
    → decimal (read_decimal 0 s) ≡ s
decimal-read_decimal String.[] h k = cc
decimal-read_decimal (String.◌∷◌ c s) h k =
    let parts = both_true (is_digit (code c)) (all_chars is_digit s) k in
    let d : ℕ = code c - 48 in
    ap (λ n. decimal (read_decimal n s)) (omega arith)
    ∙ (decimal-read_decimal_from s d (ground (arith, h)) parts.1
        ∙ (ap (λ t. t <> s) (decimal_small d (ground (arith, parts.0)) ∙ digit_text c parts.0)
            ∙ (cons-append c String.[] s ∙ ap (λ t. String.◌∷◌ c t) (nil-append s))))
