-- ===== src/Json/Inversion.antt =====
-- What a value is that a test accepted.
use aros_toolchains.Prelude.{
  List, [], ◌∷◌, map, both_true, ℕ, String, true, false, some, string_eq, eq_of_test, ◌≡◌, refl, ap,
}
use aros_toolchains.Json.{
  Value, pos, negsuc, as_nat, null, bool, int, float, str, arr, obj, as_str, is_str, is_true,
  is_str_list, are_strs, elements, Elements,
}

pub is_true-eq : (v : Value) → is_true v ≡ true → v ≡ bool true
is_true-eq (bool true) h = refl
is_true-eq (bool false) h = cc
is_true-eq null h = cc
is_true-eq (int z) h = cc
is_true-eq (float t) h = cc
is_true-eq (str s) h = cc
is_true-eq (arr vs) h = cc
is_true-eq (obj fs) h = cc

pub as_str-eq : (v : Value) (s : String) → as_str v ≡ some s → v ≡ str s
as_str-eq (str t) s h = cc
as_str-eq null s h = cc
as_str-eq (bool b) s h = cc
as_str-eq (int z) s h = cc
as_str-eq (float t) s h = cc
as_str-eq (arr vs) s h = cc
as_str-eq (obj fs) s h = cc

pub is_str-eq : (v : Value) (s : String) → is_str v s ≡ true → v ≡ str s
is_str-eq (str t) s h = ap str (eq_of_test t s h)
is_str-eq null s h = cc
is_str-eq (bool b) s h = cc
is_str-eq (int z) s h = cc
is_str-eq (float t) s h = cc
is_str-eq (arr vs) s h = cc
is_str-eq (obj fs) s h = cc

pub as_nat-eq : (v : Value) (n : ℕ) → as_nat v ≡ some n → v ≡ int (pos n)
as_nat-eq (int (pos m)) n h = cc
as_nat-eq (int (negsuc m)) n h = cc
as_nat-eq null n h = cc
as_nat-eq (bool b) n h = cc
as_nat-eq (float t) n h = cc
as_nat-eq (str s) n h = cc
as_nat-eq (arr vs) n h = cc
as_nat-eq (obj fs) n h = cc

are_strs-eq :
    (vs : List Value) (names : List String) → are_strs vs names ≡ true → vs ≡ map str names
are_strs-eq [] [] h = refl
are_strs-eq [] (n ∷ names) h = cc
are_strs-eq (v ∷ vs) [] h = cc
are_strs-eq (v ∷ vs) (n ∷ names) h =
    let p = both_true (is_str v n) (are_strs vs names) h in
    rw (is_str-eq v n p.0, are_strs-eq vs names p.1) refl

-- The list of these texts.
pub record IsTexts (v : Value) (names : List String) : Type 0 where
  pub values : Elements
  pub is_list : v ≡ arr values
  pub texts : elements values ≡ map str names

pub is_str_list-IsTexts :
    (v : Value) (names : List String) → is_str_list v names ≡ true → IsTexts v names
is_str_list-IsTexts (arr vs) names h = record {
  values = vs;
  is_list = refl;
  texts = are_strs-eq (elements vs) names h;
}
is_str_list-IsTexts null names h = absurd (cc)
is_str_list-IsTexts (bool b) names h = absurd (cc)
is_str_list-IsTexts (int z) names h = absurd (cc)
is_str_list-IsTexts (float t) names h = absurd (cc)
is_str_list-IsTexts (str s) names h = absurd (cc)
is_str_list-IsTexts (obj fs) names h = absurd (cc)
