-- ===== src/Sorted/Members.antt =====
-- Lists that strictly ascend in some order, by all pairs: what builds them, and that two of them
-- with the same members are one.
use mathlib.Core.Path.{ap₂, subst}
use aros_toolchains.Prelude.{
  Bool, true, false, List, [], ◌∷◌, ◌++◌, ◌≡◌, refl, arith, Eq, contains, All, All-append, All-map,
  All-contains, sym,
}

module _ {ℓ} {A : Type ℓ} where
  abbrev pub Ascends : (A → A → Bool) → List A → Type ℓ
  Ascends lt [] = Unit
  Ascends lt (x ∷ xs) = All (λ y. lt x y ≡ true) xs × Ascends lt xs

  unfoldable pub flat_map {κ} : {B : Type κ} → (A → List B) → List A → List B
  flat_map f [] = []
  flat_map f (x ∷ xs) = f x ++ flat_map f xs

module _ {ℓ} {A : Type ℓ} (lt : A → A → Bool) where
  pub Ascends-append :
      (xs ys : List A)
      → Ascends lt xs
      → Ascends lt ys
      → All (λ x. All (λ y. lt x y ≡ true) ys) xs
      → Ascends lt (xs ++ ys)
  Ascends-append [] ys h k b = k
  Ascends-append (x ∷ xs) ys h k b =
      (All-append (λ y. lt x y ≡ true) xs ys h.0 b.0, Ascends-append xs ys h.1 k b.1)

module _ {ℓ} {A : Type ℓ} where
  -- The order may change where it agrees on the members.
  pub Ascends-change :
      (lt lt' : A → A → Bool) (P : A → Type 0)
      → ((a b : A) → P a → P b → lt a b ≡ true → lt' a b ≡ true)
      → (xs : List A) → All P xs
      → Ascends lt xs
      → Ascends lt' xs
  Ascends-change lt lt' P f [] p h = tt
  Ascends-change lt lt' P f (x ∷ xs) p h = (go xs p.1 h.0, Ascends-change lt lt' P f xs p.1 h.1)
    where
      go : (ys : List A) → All P ys → All (λ y. lt x y ≡ true) ys → All (λ y. lt' x y ≡ true) ys
      go [] q k = tt
      go (y ∷ ys) q k = (f x y p.0 q.0 k.0, go ys q.1 k.1)

module _ {ℓ κ} {A : Type ℓ} {B : Type κ} (ltA : A → A → Bool) (ltB : B → B → Bool) (f : A → List B)
    (across : (x y : A) → ltA x y ≡ true → All (λ b. All (λ c. ltB b c ≡ true) (f y)) (f x)) where
  above-flat_map :
      (b : B) (xs : List A)
      → All (λ y. All (λ c. ltB b c ≡ true) (f y)) xs
      → All (λ c. ltB b c ≡ true) (flat_map f xs)
  unfolding flat_map
  above-flat_map b [] h = tt
  above-flat_map b (x ∷ xs) h =
      All-append (λ c. ltB b c ≡ true) (f x) (flat_map f xs) h.0 (above-flat_map b xs h.1)

  All-above :
      (bs : List B) (xs : List A)
      → All (λ y. All (λ b. All (λ c. ltB b c ≡ true) (f y)) bs) xs
      → All (λ b. All (λ c. ltB b c ≡ true) (flat_map f xs)) bs
  All-above [] xs h = tt
  All-above (b ∷ bs) xs h =
      (above-flat_map b xs (All-map (λ y k. k.0) xs h), All-above bs xs (All-map (λ y k. k.1) xs h))

  -- Blocks that ascend, put together in ascending order, ascend.
  pub flat_map-Ascends :
      (xs : List A) → Ascends ltA xs → All (λ x. Ascends ltB (f x)) xs → Ascends ltB (flat_map f xs)
  unfolding flat_map
  flat_map-Ascends [] h k = tt
  flat_map-Ascends (x ∷ xs) h k =
      Ascends-append ltB (f x) (flat_map f xs) k.0 (flat_map-Ascends xs h.1 k.1)
        (All-above (f x) xs (All-map (λ y. across x y) xs h.0))

module _ {ℓ} {A : Type ℓ} ⦃e : Eq A⦄ (lt : A → A → Bool) (irrefl : (a : A) → lt a a ≡ false)
    (trans : (a b c : A) → lt a b ≡ true → lt b c ≡ true → lt a c ≡ true) where
  not-mem-above : (a : A) (xs : List A) → All (λ y. lt a y ≡ true) xs → contains xs a ≡ false
  not-mem-above a [] h = refl
  not-mem-above a (x ∷ xs) h = ground (arith, irrefl a, not-mem-above a xs h.1)

  lt-of-mem :
      (a b : A) (xs : List A) → All (λ y. lt a y ≡ true) xs → contains xs b ≡ true → lt a b ≡ true
  lt-of-mem a b xs h m = All-contains (λ y. lt a y ≡ true) xs b h m

  head-eq :
      (x y : A) (xs ys : List A)
      → All (λ z. lt x z ≡ true) xs
      → All (λ z. lt y z ≡ true) ys
      → ((a : A) → contains (x ∷ xs) a ≡ contains (y ∷ ys) a)
      → x ≡ y
  head-eq x y xs ys h k same =
      ground (arith, same x, same y, lt-of-mem x y xs h, lt-of-mem y x ys k, trans x y x, irrefl x)

  tail-same :
      (x : A) (xs ys : List A)
      → All (λ z. lt x z ≡ true) xs
      → All (λ z. lt x z ≡ true) ys
      → (a : A) → contains (x ∷ xs) a ≡ contains (x ∷ ys) a
      → contains xs a ≡ contains ys a
  tail-same x xs ys h k a same = ground (arith, not-mem-above x xs h, not-mem-above x ys k)

  -- Two ascending lists with the same members are one list.
  pub Ascends-unique :
      (xs ys : List A)
      → Ascends lt xs
      → Ascends lt ys
      → ((a : A) → contains xs a ≡ contains ys a)
      → xs ≡ ys
  Ascends-unique [] [] h k same = refl
  Ascends-unique [] (y ∷ ys) h k same = ground (arith, same y)
  Ascends-unique (x ∷ xs) [] h k same = ground (arith, same x)
  Ascends-unique (x ∷ xs) (y ∷ ys) h k same =
      let p = head-eq x y xs ys h.0 k.0 same in
      let above : All (λ z. lt x z ≡ true) ys =
        subst (λ w. All (λ z. lt w z ≡ true) ys) (sym p) k.0 in
      ap₂ ◌∷◌ p (
        Ascends-unique xs ys h.1 k.1 λ a.
          tail-same x xs ys h.0 above a
            (subst (λ w. contains (x ∷ xs) a ≡ contains (w ∷ ys) a) (sym p) (same a)))
