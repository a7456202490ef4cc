-- ===== src/Json.antt =====
-- The values that `json.loads` returns, and the accesses of Python's `dict` and `list` to them.
-- The parser itself is Python's: the modelled functions start from its value.
pub mod Canonical
pub mod Equality
pub mod Inversion
use aros_toolchains.Prelude.{
  ℕ, String, Bool, true, false, ◌&&◌, List, [], ◌∷◌, Option, none, some, Exception, key_error,
  Result, ok, raise, ◌==◌, contains, string_eq, nat_eq, Dict, keys, lookup, all, map, ◌≡◌, refl, ap,
  ok-injective,
}

-- Integers of any size; `negsuc n` is -(n + 1).
pub data ℤ : Type 0 where
  pos : ℕ → ℤ
  negsuc : ℕ → ℤ

mutual
  pub data Members : Type 0 where
    no_members : Members
    member : String → Value → Members → Members

  pub data Elements : Type 0 where
    no_elements : Elements
    element : Value → Elements → Elements

  pub data Value : Type 0 where
    null : Value
    bool : Bool → Value
    int : ℤ → Value
    -- a number with a fraction or an exponent, by the text that `repr` gives of it
    float : String → Value
    str : String → Value
    arr : Elements → Value
    obj : Members → Value

abbrev pub elements : Elements → List Value
elements no_elements = []
elements (element v vs) = v ∷ elements vs

abbrev pub entries : Members → Dict String Value
entries no_members = []
entries (member k v fs) = (k, v) ∷ entries fs

-- Arrays and objects from lists, for writing values down.
abbrev pub to_elements : List Value → Elements
to_elements [] = no_elements
to_elements (v ∷ vs) = element v (to_elements vs)

abbrev pub to_members : Dict String Value → Members
to_members [] = no_members
to_members ((k, v) ∷ d) = member k v (to_members d)

abbrev pub array : List Value → Value
array vs = arr (to_elements vs)

abbrev pub object : Dict String Value → Value
object d = obj (to_members d)

abbrev pub strings : List String → Value
strings names = array (map str names)

-- `value == text`
abbrev pub is_str : Value → String → Bool
is_str (str s) t = s == t
is_str _ t = false

-- The text, the natural number, the list or the dict that a value is; an integer below 0 is none.
abbrev pub as_str : Value → Option String
as_str (str s) = some s
as_str _ = none

abbrev pub as_nat : Value → Option ℕ
as_nat (int (pos n)) = some n
as_nat _ = none

abbrev pub as_list : Value → Option (List Value)
as_list (arr vs) = some (elements vs)
as_list _ = none

abbrev pub as_dict : Value → Option (Dict String Value)
as_dict (obj fs) = some (entries fs)
as_dict _ = none

-- `value == list(names)`
abbrev pub are_strs : List Value → List String → Bool
are_strs [] [] = true
are_strs [] (n ∷ names) = false
are_strs (v ∷ vs) [] = false
are_strs (v ∷ vs) (n ∷ names) = is_str v n && are_strs vs names

abbrev pub is_str_list : Value → List String → Bool
is_str_list (arr vs) names = are_strs (elements vs) names
is_str_list _ names = false

-- `d.get(k)`, where None is the null value
abbrev pub get : Dict String Value → String → Value
get d k = elim (lookup k d) [ none ↦ null | some v ↦ v ]

abbrev pub is_null : Value → Bool
is_null null = true
is_null _ = false

-- `value is False` and `value is True`
abbrev pub is_false : Value → Bool
is_false (bool false) = true
is_false _ = false

abbrev pub is_true : Value → Bool
is_true (bool true) = true
is_true _ = false

-- `d[k]`
abbrev pub item {ℓ} : {V : Type ℓ} → Dict String V → String → Result V
item d k = elim (lookup k d) [ none ↦ raise (key_error k) | some v ↦ ok v ]

-- `set(d) == names`
abbrev pub has_exactly {ℓ} : {V : Type ℓ} → List String → Dict String V → Bool
has_exactly names d = all (contains names) (keys d) && all (contains (keys d)) names

-- A value that is `x` if the option has one.
abbrev pub or_raise {ℓ} : {A : Type ℓ} → Option A → Exception → Result A
or_raise none e = raise e
or_raise (some a) e = ok a

pub or_raise-some {ℓ} :
    {A : Type ℓ} (o : Option A) (a : A) (e : Exception) → or_raise o e ≡ ok a → o ≡ some a
or_raise-some none a e h = cc
or_raise-some (some b) a e h = ap some (ok-injective h)

-- What is written as a list or a dict is read as it.
pub entries-to_members : (d : Dict String Value) → entries (to_members d) ≡ d
entries-to_members [] = refl
entries-to_members ((k, v) ∷ d) = ap (λ t. (k, v) ∷ t) (entries-to_members d)

pub elements-to_elements : (vs : List Value) → elements (to_elements vs) ≡ vs
elements-to_elements [] = refl
elements-to_elements (v ∷ vs) = ap (λ t. v ∷ t) (elements-to_elements vs)
