-- ===== src/ReleaseAdmission/Checks/Inverted.antt =====
-- What a value is that a check of release-admission-v2.py accepted, and what the one item of a list is.
use aros_toolchains.Prelude.{
  ℕ, zero, suc, ◌<◌, String, Bool, true, false, List, [], ◌∷◌, ◌++◌, some, Result, ok,
  admission_error, require-ok, ◌>>=◌, >>=-ok, ok-injective, some_injective, ◌<>◌, string_eq, keep,
  All, Bool-cases, inl, inr, ◌≡◌, refl, ap, ◌∙◌, arith,
}
use mathlib.Core.Path.{subst}
use aros_toolchains.Json.{
  Value, pos, negsuc, null, bool, int, float, str, arr, obj, is_false, as_dict, or_raise,
  or_raise-some, has_exactly,
}
use aros_toolchains.ReleaseAdmission.Checks.{
  Object, positive_number, positive_int, required_object, exact_keys,
}

positive_number-eq : (v : Value) (n : ℕ) → positive_number v ≡ some n → (v ≡ int (pos n)) × (0 < n)
positive_number-eq (int (pos (suc m))) n h =
    let e : suc m ≡ n = some_injective h in (ap (λ k. int (pos k)) e, omega (arith, e))
positive_number-eq (int (pos zero)) n h = cc
positive_number-eq (int (negsuc m)) n h = cc
positive_number-eq null n h = cc
positive_number-eq (bool b) n h = cc
positive_number-eq (float t) n h = cc
positive_number-eq (str s) n h = cc
positive_number-eq (arr vs) n h = cc
positive_number-eq (obj fs) n h = cc

pub positive_int-eq :
    (v : Value) (label : String) (n : ℕ) → positive_int v label ≡ ok n → (v ≡ int (pos n)) × (0 < n)
unfolding positive_int
positive_int-eq v label n h = positive_number-eq v n (or_raise-some (positive_number v) n _ h)

pub exact_keys-dict :
    (v : Value) (expected : List String) (label : String) (d : Object)
    → exact_keys v expected label ≡ ok d
    → (as_dict v ≡ some d) × (has_exactly expected d ≡ true)
unfolding exact_keys required_object
exact_keys-dict v expected label d h =
    >>=-ok (or_raise (as_dict v) (admission_error (label <> " must be an object"))) _ h λ e is_e h1.
      require-ok (has_exactly expected e) _ _ h1 λ exact h2.
        let same = ok-injective h2 in
        (
          or_raise-some (as_dict v) e _ is_e ∙ ap some same,
          subst (λ t. has_exactly expected t ≡ true) same exact,
        )

pub is_false-eq : (v : Value) → is_false v ≡ true → v ≡ bool false
is_false-eq (bool false) h = refl
is_false-eq (bool true) h = cc
is_false-eq null h = cc
is_false-eq (int z) h = cc
is_false-eq (float t) h = cc
is_false-eq (str s) h = cc
is_false-eq (arr vs) h = cc
is_false-eq (obj fs) h = cc

-- The one item that satisfies a predicate, and the items around it, which do not.
pub record IsOnly {ℓ} {A : Type 0} (P : A → Type ℓ) (xs : List A) (x : A) : Type ℓ where
  pub before : List A
  pub after : List A
  pub split : xs ≡ before ++ (x ∷ after)
  pub holds : P x
  pub not_before : All (λ y. ¬ P y) before
  pub not_after : All (λ y. ¬ P y) after

module _ {ℓ} {A : Type 0} (P : A → Type ℓ) (p : A → Bool) (held : (a : A) → p a ≡ true → P a)
    (missed : (a : A) → p a ≡ false → ¬ P a) where
  keep_none : (xs : List A) → keep p xs ≡ [] → All (λ y. ¬ P y) xs
  keep_none [] h = tt
  keep_none (x ∷ xs) h = elim (Bool-cases (p x)) [
    | inl e ↦ absurd (cons-ne-nil (rw e at h))
    | inr e ↦ (missed x e, keep_none xs (rw e at h))
  ]
    where
      cons-ne-nil : {y : A} {ys : List A} → (y ∷ ys) ≡ [] → ⊥
      cons-ne-nil h = cc

  pub keep_one : (xs : List A) (y : A) → keep p xs ≡ y ∷ [] → IsOnly P xs y
  keep_one [] y h = absurd (cc)
  keep_one (x ∷ xs) y h = elim (Bool-cases (p x)) [
    | inl e ↦ first e (rw e at h)
    | inr e ↦
        let o = keep_one xs y (rw e at h) in
        record {
          before = x ∷ o.before;
          after = o.after;
          split = ap (λ t. x ∷ t) o.split;
          holds = o.holds;
          not_before = (missed x e, o.not_before);
          not_after = o.not_after;
        }
  ]
    where
      first : p x ≡ true → (x ∷ keep p xs) ≡ y ∷ [] → IsOnly P (x ∷ xs) y
      first e h =
          let same : x ≡ y = cc in
          record {
            before = [];
            after = xs;
            split = ap (λ t. t ∷ xs) same;
            holds = subst P same (held x e);
            not_before = tt;
            not_after = keep_none xs (cc);
          }

module _ {κ μ} {B : Type κ} {P : Type μ} where
  pub exact_keys-ok :
      (v : Value) (expected : List String) (label : String) (f : Object → Result B) {b : B}
      → (exact_keys v expected label >>= f) ≡ ok b
      → ((d : Object) → as_dict v ≡ some d → has_exactly expected d ≡ true → f d ≡ ok b → P)
      → P
  exact_keys-ok v expected label f h k =
      >>=-ok (exact_keys v expected label) f h
        λ d is_d h1. let p = exact_keys-dict v expected label d is_d in k d p.0 p.1 h1
