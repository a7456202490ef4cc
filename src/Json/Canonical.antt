-- ===== src/Json/Canonical.antt =====
-- `json.dumps(value, ensure_ascii=True, sort_keys=True, separators=(",", ":"))`, and Python's `==` on
-- the values of parsed documents.
use Prim.Native.Char.{code}
use aros_toolchains.Prelude.{
  ℕ, suc, ◌+◌, ◌-◌, ◌/◌, ◌%◌, String, Bool, true, false, ◌&&◌, ◌||◌, if◌then◌else◌, ltb, ◌==◌, ◌<>◌,
  nat_eq, string_eq, List, [], ◌∷◌, map,
}
use aros_toolchains.Text.{between}
use aros_toolchains.Text.Order.{string_ord}
use aros_toolchains.Text.Split.{join}
use aros_toolchains.Text.Bytes.{decimal}
use aros_toolchains.Sorted.{sort_by}
use aros_toolchains.Json.{
  ℤ, pos, negsuc, Value, null, bool, int, float, str, arr, obj, Elements, no_elements, element,
  Members, no_members, member,
}

-- One hexadecimal digit below 16.
abbrev hex_digit : ℕ → String
hex_digit n =
    if ltb n 10
    then decimal n
    else if n == 10
    then "a"
    else if n == 11
    then "b"
    else if n == 12
    then "c"
    else if n == 13
    then "d"
    else if n == 14
    then "e"
    else "f"

-- `\uXXXX` of a number below 0x10000
abbrev unicode_escape : ℕ → String
unicode_escape n =
    "\\u"
    <> hex_digit (n / 4096)
    <> hex_digit (n / 256 % 16)
    <> hex_digit (n / 16 % 16)
    <> hex_digit (n % 16)

-- A code point that is not printable ASCII; one above 0xffff by two surrogates.
abbrev escape_code : ℕ → String
escape_code c =
    if c == 8
    then "\\b"
    else if c == 9
    then "\\t"
    else if c == 10
    then "\\n"
    else if c == 12
    then "\\f"
    else if c == 13
    then "\\r"
    else if ltb c 0x10000
    then unicode_escape c
    else unicode_escape (0xd800 + (c - 0x10000) / 1024)
      <> unicode_escape (0xdc00 + (c - 0x10000) % 1024)

quote_chars : String → String
quote_chars String.[] = ""
quote_chars (String.◌∷◌ c s) =
    let rest = quote_chars s in
    if code c == b'"'
    then "\\\"" <> rest
    else if code c == b'\\'
    then "\\\\" <> rest
    else if between 0x20 0x7e (code c)
    then String.◌∷◌ c rest
    else escape_code (code c) <> rest

unfoldable pub quote : String → String
unfolding quote_chars decimal
quote s = "\"" <> quote_chars s <> "\""

abbrev integer_text : ℤ → String
integer_text (pos n) = decimal n
integer_text (negsuc n) = "-" <> decimal (suc n)

abbrev truth_text : Bool → String
truth_text true = "true"
truth_text false = "false"

-- The members in the order of their keys.
object_text : List (String × String) → String
object_text rendered =
    "{" <> join "," (map (λ e. quote e.0 <> ":" <> e.1) (sort_by (λ e. e.0) rendered)) <> "}"

unfoldable mutual
  unfolding object_text

  pub canonical_json : Value → String
  canonical_json null = "null"
  canonical_json (bool b) = truth_text b
  canonical_json (int z) = integer_text z
  canonical_json (float text) = text
  canonical_json (str s) = quote s
  canonical_json (arr vs) = "[" <> join "," (canonical_elements vs) <> "]"
  canonical_json (obj fs) = object_text (canonical_members fs)

  pub canonical_elements : Elements → List String
  canonical_elements no_elements = []
  canonical_elements (element v vs) = canonical_json v ∷ canonical_elements vs

  pub canonical_members : Members → List (String × String)
  canonical_members no_members = []
  canonical_members (member k v fs) = (k, canonical_json v) ∷ canonical_members fs

-- `value == n` of a natural number: True is 1 and False is 0, and so are 1.0 and 0.0.
unfoldable pub is_number : Value → ℕ → Bool
unfolding decimal
is_number (int (pos m)) n = m == n
is_number (bool true) n = n == 1
is_number (bool false) n = n == 0
is_number (float text) n = text == decimal n <> ".0" || (n == 0 && text == "-0.0")
is_number _ n = false
