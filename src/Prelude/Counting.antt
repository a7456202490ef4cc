-- ===== src/Prelude/Counting.antt =====
-- Distinct elements of a list, counted.
use Prim.Native.Nat.{suc, ◌≤◌}
use mathlib.Core.Path.{◌≡◌, sym, ◌∙◌}
use mathlib.Core.Logic.{inl, inr}
use mathlib.Core.Bool.{true, false}
use mathlib.Core.List.{List, [], ◌∷◌}
use native.Mathlib.Omega.{arith}
use aros_toolchains.Prelude.Tests.{Eq, ◌==◌, contains, if◌then◌else◌, Bool-cases, eq_of_test}
use aros_toolchains.Prelude.Lists.{length, IsNodup}

module _ {ℓ} {A : Type ℓ} ⦃e : Eq A⦄ where
  -- Without the first element equal to `a`.
  abbrev remove : A → List A → List A
  remove a [] = []
  remove a (x ∷ xs) = if a == x then xs else x ∷ remove a xs

  length-remove :
      (a : A) (xs : List A) → contains xs a ≡ true → suc (length (remove a xs)) ≡ length xs
  length-remove a [] h = cc
  length-remove a (x ∷ xs) h = ground (arith, length-remove a xs)

  contains-remove :
      (a b : A) (xs : List A)
      → (b == a) ≡ false
      → contains xs b ≡ true
      → contains (remove a xs) b ≡ true
  contains-remove a b [] h k = cc
  contains-remove a b (x ∷ xs) h k = ground (arith, contains-remove a b xs)

  differs :
      (a b : A) (xs : List A) → contains xs a ≡ false → contains xs b ≡ true → (b == a) ≡ false
  differs a b [] h k = cc
  differs a b (x ∷ xs) h k = ground (arith, differs a b xs)

  -- Distinct elements of a list are no more than it has.
  length-le :
      (xs ys : List A)
      → IsNodup xs
      → ((b : A) → contains xs b ≡ true → contains ys b ≡ true)
      → length xs ≤ length ys
  length-le [] ys d h = omega arith
  length-le (x ∷ xs) ys d h = omega (
    arith,
    length-remove x ys (h x (ground arith)),
    length-le xs (remove x ys) d.1
        (λ b k. contains-remove x b ys (differs x b xs d.0 k) (h b (ground (arith, k)))),
  )

  -- As many distinct elements of a list as it has are all of its elements.
  pub contains_all :
      (xs ys : List A)
      → IsNodup xs
      → ((b : A) → contains xs b ≡ true → contains ys b ≡ true)
      → length xs ≡ length ys
      → (b : A) → contains ys b ≡ contains xs b
  contains_all xs ys d h n b = elim (Bool-cases (contains xs b)) [
    | inl here ↦ h b here ∙ sym here
    | inr out ↦ elim (Bool-cases (contains ys b)) [
      | inr none_there ↦ none_there ∙ sym out
      | inl there ↦
          let more : suc (length xs) ≤ length ys =
            length-le (b ∷ xs) ys (out, d)
              (λ c k. elim (Bool-cases (c == b)) [
                | inl same ↦ ground (arith, eq_of_test c b same)
                | inr other ↦ h c (ground arith)
              ]) in
          absurd (omega arith)
    ]
  ]
