-- ===== src/Text.antt =====
-- Python's `str` as native text: character classes and the bounded patterns of `re` that the
-- scripts match in full, `split`, `join` and `removeprefix`, and the order by code points.
pub mod Order
pub mod Prefix
pub mod Split
pub mod Bytes
use Prim.Native.Char.{code}
use aros_toolchains.Prelude.{
  ℕ, zero, suc, String, Bool, true, false, ◌&&◌, ◌||◌, ltb, leb, if◌then◌else◌, List, [], ◌∷◌, ◌==◌,
  nat_eq, Option, none, some,
}

-- `len(s)`: the number of code points.
abbrev pub char_count : String → ℕ
char_count String.[] = 0
char_count (String.◌∷◌ c s) = suc (char_count s)

-- Some, and every, code point of a text.
abbrev pub any_char : (ℕ → Bool) → String → Bool
any_char p String.[] = false
any_char p (String.◌∷◌ c s) = p (code c) || any_char p s

abbrev pub all_chars : (ℕ → Bool) → String → Bool
all_chars p String.[] = true
all_chars p (String.◌∷◌ c s) = p (code c) && all_chars p s

-- The first and the last code point; false of the empty text.
abbrev pub first_char : (ℕ → Bool) → String → Bool
first_char p String.[] = false
first_char p (String.◌∷◌ c s) = p (code c)

abbrev pub last_char : (ℕ → Bool) → String → Bool
last_char p String.[] = false
last_char p (String.◌∷◌ c String.[]) = p (code c)
last_char p (String.◌∷◌ c (String.◌∷◌ d s)) = last_char p (String.◌∷◌ d s)

abbrev pub between : ℕ → ℕ → ℕ → Bool
between lo hi c = leb lo c && leb c hi

-- [0-9], [a-z], [A-Z], and the members of a set written as a text
abbrev pub is_digit : ℕ → Bool
is_digit = between b'0' b'9'

abbrev pub is_lower : ℕ → Bool
is_lower = between b'a' b'z'

abbrev pub is_upper : ℕ → Bool
is_upper = between b'A' b'Z'

abbrev pub one_of : String → ℕ → Bool
one_of set c = any_char (λ d. c == d) set

-- [0-9a-f], [a-z0-9], [A-Za-z0-9]
abbrev pub is_lower_hex : ℕ → Bool
is_lower_hex c = is_digit c || between b'a' b'f' c

abbrev pub is_lower_alnum : ℕ → Bool
is_lower_alnum c = is_lower c || is_digit c

abbrev pub is_alnum : ℕ → Bool
is_alnum c = is_upper c || is_lower_alnum c

-- `[0-9a-f]{n}`
abbrev pub is_hex : ℕ → String → Bool
is_hex n s = char_count s == n && all_chars is_lower_hex s

-- `[p]{1,n}`
abbrev pub is_run : (ℕ → Bool) → ℕ → String → Bool
is_run p n s = leb 1 (char_count s) && leb (char_count s) n && all_chars p s

-- `[outer](?:[inner]{0,n-2}[outer])?`, where `inner` has every member of `outer`
abbrev pub is_bracketed : (ℕ → Bool) → (ℕ → Bool) → ℕ → String → Bool
is_bracketed outer inner n s =
    first_char outer s && last_char outer s && all_chars inner s && leb (char_count s) n

-- `s.startswith(p)`, and what follows the prefix where there is one
abbrev pub strip_prefix : String → String → Option String
strip_prefix String.[] s = some s
strip_prefix (String.◌∷◌ c p) String.[] = none
strip_prefix (String.◌∷◌ c p) (String.◌∷◌ d s) =
    let rest = strip_prefix p s in if code c == code d then rest else none

abbrev pub starts_with : String → String → Bool
starts_with p s = elim (strip_prefix p s) [ none ↦ false | some rest ↦ true ]
