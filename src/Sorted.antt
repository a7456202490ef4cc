-- ===== src/Sorted.antt =====
-- Python's `sorted(set(xs))`, lists that are compared with it, and `sorted(xs, key=f)`.
pub mod Members
pub mod Length
use aros_toolchains.Prelude.{
  ℕ, ltb, Bool, true, false, ◌&&◌, ◌||◌, if◌then◌else◌, List, [], ◌∷◌, ◌≡◌, ◌≢◌, refl, arith, Eq,
  ◌==◌, contains, IsNodup, Bool-cases, inl, inr, ◌↔◌, not,
}

-- A strict total order.
pub record Ord {ℓ} (A : Type ℓ) : Type ℓ where
  pub lt : A → A → Bool
  pub irrefl : (a : A) → lt a a ≡ false
  pub trans : (a b c : A) → lt a b ≡ true → lt b c ≡ true → lt a c ≡ true
  pub total : (a b : A) → lt a b ≡ false → lt b a ≡ false → a ≡ b

module _ {ℓ} {A : Type ℓ} ⦃o : Ord A⦄ where
  -- Put `a` in its place, unless it is there.
  abbrev pub insert_new : A → List A → List A
  insert_new a [] = a ∷ []
  insert_new a (x ∷ xs) =
      if o.lt a x then a ∷ x ∷ xs else (if o.lt x a then x ∷ insert_new a xs else x ∷ xs)

  -- `sorted(set(xs))`
  unfoldable pub sorted_set : List A → List A
  sorted_set [] = []
  sorted_set (x ∷ xs) = insert_new x (sorted_set xs)

  -- Every member is below the next.
  abbrev pub below : A → List A → Bool
  below a [] = true
  below a (x ∷ xs) = o.lt a x

  abbrev pub ascends : List A → Bool
  ascends [] = true
  ascends (x ∷ xs) = below x xs && ascends xs

  insert_new-ascends : (a : A) (xs : List A) → ascends xs ≡ true → ascends (insert_new a xs) ≡ true
  insert_new-ascends a [] h = refl
  insert_new-ascends a (x ∷ []) h = ground (arith)
  insert_new-ascends a (x ∷ y ∷ ys) h = ground (arith, insert_new-ascends a (y ∷ ys))

  pub sorted_set-ascends : (xs : List A) → ascends (sorted_set xs) ≡ true
  unfolding sorted_set
  sorted_set-ascends [] = refl
  sorted_set-ascends (x ∷ xs) = insert_new-ascends x (sorted_set xs) (sorted_set-ascends xs)

  sorted_set-of-ascends : (xs : List A) → ascends xs ≡ true → sorted_set xs ≡ xs
  unfolding sorted_set
  sorted_set-of-ascends [] h = refl
  sorted_set-of-ascends (x ∷ []) h = refl
  sorted_set-of-ascends (x ∷ y ∷ ys) h = ground (arith, sorted_set-of-ascends (y ∷ ys))

  -- The test of the scripts, `xs == sorted(set(xs))`.
  pub sorted_set-eq_iff : (xs : List A) → (sorted_set xs ≡ xs) ↔ (ascends xs ≡ true)
  sorted_set-eq_iff xs = (λ e. rw e at (sorted_set-ascends xs), sorted_set-of-ascends xs)

-- `sorted(xs, key=f)`, which keeps the order of members with one key.
module _ {ℓ κ} {A : Type ℓ} {K : Type κ} ⦃o : Ord K⦄ (f : A → K) where
  abbrev pub insert_by : A → List A → List A
  insert_by a [] = a ∷ []
  insert_by a (x ∷ xs) =
      let rest = insert_by a xs in if o.lt (f x) (f a) then x ∷ rest else a ∷ x ∷ xs

  unfoldable pub sort_by : List A → List A
  sort_by [] = []
  sort_by (x ∷ xs) = insert_by x (sort_by xs)

module _ {ℓ} {A : Type ℓ} ⦃e : Eq A⦄ ⦃o : Ord A⦄ where
  pub below-not-mem :
      (a : A) (xs : List A) → below a xs ≡ true → ascends xs ≡ true → contains xs a ≡ false
  below-not-mem a [] h k = refl
  below-not-mem a (x ∷ []) h k = ground (arith, o.irrefl a)
  below-not-mem a (x ∷ y ∷ ys) h k =
      ground (arith, o.irrefl a, o.trans a x y, below-not-mem a (y ∷ ys))

  -- What ascends repeats nothing.
  pub ascends-IsNodup : (xs : List A) → ascends xs ≡ true → IsNodup xs
  ascends-IsNodup [] h = tt
  ascends-IsNodup (x ∷ xs) h = ground (arith, below-not-mem x xs, ascends-IsNodup xs)

-- Python compares pairs by their first parts, then by their second.
module _ {ℓ κ} {A : Type ℓ} {B : Type κ} ⦃e : Eq A⦄ ⦃o : Ord A⦄ ⦃q : Ord B⦄ where
  pair_lt : A × B → A × B → Bool
  pair_lt (a, b) (c, d) = o.lt a c || (a == c && q.lt b d)

  pair_lt_irrefl : (s : A × B) → pair_lt s s ≡ false
  unfolding pair_lt
  pair_lt_irrefl (a, b) = ground (arith, o.irrefl a, q.irrefl b)

  pair_lt_trans : (s t u : A × B) → pair_lt s t ≡ true → pair_lt t u ≡ true → pair_lt s u ≡ true
  unfolding pair_lt
  pair_lt_trans (a, b) (c, d) (x, y) h k = ground (arith, o.trans a c x, q.trans b d y)

  pair_lt_total : (s t : A × B) → pair_lt s t ≡ false → pair_lt t s ≡ false → s ≡ t
  unfolding pair_lt
  pair_lt_total (a, b) (c, d) h k = ground (arith, o.total a c, q.total b d)

  instance unfoldable pub pair_ord : Ord (A × B)
  unfolding pair_lt pair_lt_irrefl pair_lt_trans pair_lt_total
  pair_ord = record {
    lt = pair_lt;
    irrefl = pair_lt_irrefl;
    trans = pair_lt_trans;
    total = pair_lt_total;
  }

pub ltb_irrefl : (a : ℕ) → ltb a a ≡ false
ltb_irrefl a = ground arith

pub ltb_trans : (a b c : ℕ) → ltb a b ≡ true → ltb b c ≡ true → ltb a c ≡ true
ltb_trans a b c h k = ground arith

pub ltb_total : (a b : ℕ) → ltb a b ≡ false → ltb b a ≡ false → a ≡ b
ltb_total a b h k = ground arith

-- The order of the numbers.
instance unfoldable pub nat_ord : Ord ℕ
nat_ord = record { lt = ltb; irrefl = ltb_irrefl; trans = ltb_trans; total = ltb_total }
