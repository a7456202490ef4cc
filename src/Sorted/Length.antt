-- ===== src/Sorted/Length.antt =====
-- The members and the length of sorted lists.
use aros_toolchains.Prelude.{
  suc, false, ◌||◌, List, [], ◌∷◌, ◌≡◌, refl, arith, Eq, ◌==◌, map, length, contains, IsNodup, All,
  ap, ◌∙◌, ◌≤◌, true, Bool-cases, inl, inr,
}
use aros_toolchains.Sorted.{
  ascends, sorted_set-ascends, below-not-mem, Ord, insert_new, sorted_set, insert_by, sort_by,
}

module _ {ℓ} {A : Type ℓ} ⦃e : Eq A⦄ ⦃o : Ord A⦄ where
  contains-insert_new :
      (a : A) (xs : List A) (b : A) → contains (insert_new a xs) b ≡ (b == a || contains xs b)
  contains-insert_new a [] b = refl
  contains-insert_new a (x ∷ xs) b = ground (arith, contains-insert_new a xs b, o.total a x)

  pub contains-sorted_set : (xs : List A) (b : A) → contains (sorted_set xs) b ≡ contains xs b
  unfolding sorted_set
  contains-sorted_set [] b = refl
  contains-sorted_set (x ∷ xs) b =
      contains-insert_new x (sorted_set xs) b ∙ ap (λ t. b == x || t) (contains-sorted_set xs b)

  length-insert_new :
      (a : A) (xs : List A) → contains xs a ≡ false → length (insert_new a xs) ≡ suc (length xs)
  length-insert_new a [] h = refl
  length-insert_new a (x ∷ xs) h = ground (arith, length-insert_new a xs, o.total a x)

  -- Nothing is lost where nothing stands twice.
  pub length-sorted_set : (xs : List A) → IsNodup xs → length (sorted_set xs) ≡ length xs
  unfolding sorted_set
  length-sorted_set [] h = refl
  length-sorted_set (x ∷ xs) h =
      length-insert_new x (sorted_set xs) (contains-sorted_set xs x ∙ h.0)
      ∙ ap suc (length-sorted_set xs h.1)

  length-insert_new-le : (a : A) (xs : List A) → length (insert_new a xs) ≤ suc (length xs)
  length-insert_new-le a [] = omega arith
  length-insert_new-le a (x ∷ xs) = ground (arith, length-insert_new-le a xs)

  length-sorted_set-le : (xs : List A) → length (sorted_set xs) ≤ length xs
  unfolding sorted_set
  length-sorted_set-le [] = omega arith
  length-sorted_set-le (x ∷ xs) =
      omega (arith, length-insert_new-le x (sorted_set xs), length-sorted_set-le xs)

  length-insert_new_member :
      (a : A) (xs : List A)
      → ascends xs ≡ true
      → contains xs a ≡ true
      → length (insert_new a xs) ≤ length xs
  length-insert_new_member a [] k h = cc
  length-insert_new_member a (x ∷ xs) k h =
      ground (arith, length-insert_new_member a xs, below-not-mem a (x ∷ xs), o.irrefl a)

  -- The test of the scripts, `len(set(xs)) == len(xs)`: nothing stands twice.
  pub IsNodup-length-sorted_set : (xs : List A) → length (sorted_set xs) ≡ length xs → IsNodup xs
  unfolding sorted_set
  IsNodup-length-sorted_set [] h = tt
  IsNodup-length-sorted_set (x ∷ xs) h = elim (Bool-cases (contains xs x)) [
    | inl e ↦ absurd (
        omega (
          arith,
          h,
          length-sorted_set-le xs,
          length-insert_new_member x (sorted_set xs) (sorted_set-ascends xs)
              (contains-sorted_set xs x ∙ e),
        ))
    | inr e ↦ (
      e,
      IsNodup-length-sorted_set xs
          (omega (arith, h, length-sorted_set-le xs, length-insert_new-le x (sorted_set xs))),
    )
  ]

module _ {ℓ κ} {A : Type ℓ} {K : Type κ} ⦃e : Eq K⦄ ⦃o : Ord K⦄ (f : A → K) where
  contains-insert_by :
      (a : A) (xs : List A) (k : K)
      → contains (map f (insert_by f a xs)) k ≡ (k == f a || contains (map f xs) k)
  contains-insert_by a [] k = refl
  contains-insert_by a (x ∷ xs) k = ground (arith, contains-insert_by a xs k)

  pub contains-sort_by :
      (xs : List A) (k : K) → contains (map f (sort_by f xs)) k ≡ contains (map f xs) k
  unfolding sort_by
  contains-sort_by [] k = refl
  contains-sort_by (x ∷ xs) k =
      contains-insert_by x (sort_by f xs) k ∙ ap (λ t. k == f x || t) (contains-sort_by xs k)

  insert_by-IsNodup :
      (a : A) (xs : List A)
      → contains (map f xs) (f a) ≡ false
      → IsNodup (map f xs)
      → IsNodup (map f (insert_by f a xs))
  insert_by-IsNodup a [] h k = (refl, tt)
  insert_by-IsNodup a (x ∷ xs) h k =
      ground (arith, insert_by-IsNodup a xs, contains-insert_by a xs (f x))

  pub sort_by-IsNodup : (xs : List A) → IsNodup (map f xs) → IsNodup (map f (sort_by f xs))
  unfolding sort_by
  sort_by-IsNodup [] h = tt
  sort_by-IsNodup (x ∷ xs) h =
      insert_by-IsNodup x (sort_by f xs) (contains-sort_by xs (f x) ∙ h.0) (sort_by-IsNodup xs h.1)

module _ {ℓ κ} {A : Type ℓ} {K : Type κ} ⦃o : Ord K⦄ (f : A → K) where
  insert_by-All : (P : A → Type 0) (a : A) (xs : List A) → P a → All P xs → All P (insert_by f a xs)
  insert_by-All P a [] h k = (h, tt)
  insert_by-All P a (x ∷ xs) h k = ground (arith, insert_by-All P a xs h k.1)

  pub sort_by-All : (P : A → Type 0) (xs : List A) → All P xs → All P (sort_by f xs)
  unfolding sort_by
  sort_by-All P [] h = tt
  sort_by-All P (x ∷ xs) h = insert_by-All P x (sort_by f xs) h.0 (sort_by-All P xs h.1)

  length-insert_by : (a : A) (xs : List A) → length (insert_by f a xs) ≡ suc (length xs)
  length-insert_by a [] = refl
  length-insert_by a (x ∷ xs) = ground (arith, length-insert_by a xs)

  pub length-sort_by : (xs : List A) → length (sort_by f xs) ≡ length xs
  unfolding sort_by
  length-sort_by [] = refl
  length-sort_by (x ∷ xs) = length-insert_by x (sort_by f xs) ∙ ap suc (length-sort_by xs)
