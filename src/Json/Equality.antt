-- ===== src/Json/Equality.antt =====
-- Python's `==` on the values of parsed documents.
use aros_toolchains.Prelude.{
  ℕ, suc, String, Bool, true, false, ◌&&◌, ◌||◌, ◌==◌, ◌<>◌, nat_eq, string_eq, Option, none, some,
  lookup, length,
}
use aros_toolchains.Text.Bytes.{decimal}
use aros_toolchains.Json.{
  ℤ, pos, negsuc, Value, null, bool, int, float, str, arr, obj, Elements, no_elements, element,
  Members, no_members, member, entries,
}
use aros_toolchains.Json.Canonical.{is_number}

abbrev truth_number : Bool → ℕ
truth_number true = 1
truth_number false = 0

-- A float of this text is the integer.
float_is : String → ℤ → Bool
float_is text (pos n) = is_number (float text) n
float_is text (negsuc n) = text == "-" <> decimal (suc n) <> ".0"

-- A Boolean, an integer and a float are equal by their number; 0.0 is -0.0.
numbers_equal : Value → Value → Bool
numbers_equal (bool b) (bool c) = truth_number b == truth_number c
numbers_equal (bool b) (int z) = is_number (int z) (truth_number b)
numbers_equal (bool b) (float t) = float_is t (pos (truth_number b))
numbers_equal (int z) (bool c) = is_number (int z) (truth_number c)
numbers_equal (int (pos m)) (int (pos n)) = m == n
numbers_equal (int (negsuc m)) (int (negsuc n)) = m == n
numbers_equal (int z) (float t) = float_is t z
numbers_equal (float s) (bool c) = float_is s (pos (truth_number c))
numbers_equal (float s) (int z) = float_is s z
numbers_equal (float s) (float t) = s == t || (is_number (float s) 0 && is_number (float t) 0)
numbers_equal _ _ = false

abbrev at_key : Option Value → (Value → Bool) → Bool
at_key none equal = false
at_key (some v) equal = equal v

unfoldable mutual
  unfolding numbers_equal float_is is_number

  pub py_equal : Value → Value → Bool
  py_equal null null = true
  py_equal (str s) (str t) = s == t
  py_equal (arr vs) (arr ws) = equal_elements vs ws
  py_equal (obj fs) (obj gs) = length (entries fs) == length (entries gs) && equal_members fs gs
  py_equal (bool b) w = numbers_equal (bool b) w
  py_equal (int z) w = numbers_equal (int z) w
  py_equal (float t) w = numbers_equal (float t) w
  py_equal _ _ = false

  pub equal_elements : Elements → Elements → Bool
  equal_elements no_elements no_elements = true
  equal_elements (element v vs) (element w ws) = py_equal v w && equal_elements vs ws
  equal_elements _ _ = false

  -- Every member has an equal one under its key; no key stands twice.
  pub equal_members : Members → Members → Bool
  equal_members no_members gs = true
  equal_members (member k v fs) gs =
      at_key (lookup k (entries gs)) (py_equal v) && equal_members fs gs
