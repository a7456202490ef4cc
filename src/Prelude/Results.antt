-- ===== src/Prelude/Results.antt =====
-- Python exceptions as values. One constructor for each exception class that the modelled code
-- raises; a message is kept as the source writes it.
use Prim.Native.String.{String}
use mathlib.Core.Path.{◌≡◌, refl}
use mathlib.Core.Bool.{Bool, true, false, ◌&&◌}
use mathlib.Core.Option.{some, none}
use mathlib.Core.Logic.{◌≢◌}
use native.Mathlib.Omega.{arith}
use mathlib.Core.List.{List, [], ◌∷◌}
use aros_toolchains.Prelude.Lists.{All}

pub data Exception : Type 0 where
  plan_error origin_error route_error policy_error transport_error value_error lock_error
        admission_error owner_error selection_error :
      String → Exception
  -- `d[k]` at a key that is not there
  key_error : String → Exception
  -- a value of another type than the code takes
  type_error : Exception

pub data Result {ℓ} (A : Type ℓ) : Type ℓ where
  ok : A → Result A
  raise : Exception → Result A

-- The first exception ends a sequence. These compute wherever they stand.
module _ {ℓ κ} {A : Type ℓ} {B : Type κ} where
  infixl 10 ◌>>=◌ ◌>>◌
  abbrev pub ◌>>=◌ : Result A → (A → Result B) → Result B
  raise x >>= next = raise x
  ok a >>= next = next a

  abbrev pub ◌>>◌ : Result A → Result B → Result B
  first >> second = first >>= λ _. second

-- `if not condition: raise e`
abbrev pub require : Bool → Exception → Result (Unit {0})
require true e = ok tt
require false e = raise e

-- `if condition: raise e`
abbrev pub refuse : Bool → Exception → Result (Unit {0})
refuse true e = raise e
refuse false e = ok tt

-- `for x in xs: f(x)`
abbrev pub for_each {ℓ} : {A : Type ℓ} → (A → Result (Unit {0})) → List A → Result (Unit {0})
for_each f [] = ok tt
for_each f (x ∷ xs) = f x >> for_each f xs

-- `[f(x) for x in xs]`
abbrev pub traverse {ℓ κ} : {A : Type ℓ} {B : Type κ} → (A → Result B) → List A → Result (List B)
traverse f [] = ok []
traverse f (x ∷ xs) = f x >>= λ y. traverse f xs >>= λ ys. ok (y ∷ ys)

-- A loop that carries a state.
abbrev pub fold {ℓ κ} : {A : Type ℓ} {S : Type κ} → (S → A → Result S) → S → List A → Result S
fold f s [] = ok s
fold f s (x ∷ xs) = f s x >>= λ s'. fold f s' xs

-- A sequence that returned: its first step did, and so did the rest with what that gave.
module _ {ℓ κ} {A : Type ℓ} {B : Type κ} where
  pub >>=-eq-ok :
      (first : Result A) (next : A → Result B) {b : B}
      → (first >>= next) ≡ ok b
      → (a : A) × (first ≡ ok a) × (next a ≡ ok b)
  >>=-eq-ok (raise x) next e = cc
  >>=-eq-ok (ok a) next e = (a, refl, e)

pub require-eq-ok {ℓ} :
    {B : Type ℓ} (t : Bool) (e : Exception) (k : Result B) {b : B}
    → (require t e >> k) ≡ ok b
    → (t ≡ true) × (k ≡ ok b)
require-eq-ok true e k h = (refl, h)
require-eq-ok false e k h = cc

pub refuse-eq-ok {ℓ} :
    {B : Type ℓ} (t : Bool) (e : Exception) (k : Result B) {b : B}
    → (refuse t e >> k) ≡ ok b
    → (t ≡ false) × (k ≡ ok b)
refuse-eq-ok true e k h = cc
refuse-eq-ok false e k h = (refl, h)

pub some_injective {ℓ} : {A : Type ℓ} {a b : A} → some a ≡ some b → a ≡ b
some_injective h = cc

pub none-ne-some {ℓ} : {A : Type ℓ} {a : A} → none ≢ some a
none-ne-some h = cc

pub both_true : (a b : Bool) → (a && b) ≡ true → (a ≡ true) × (b ≡ true)
both_true a b h = ground arith

pub require_held : (b : Bool) (e : Exception) → require b e ≡ ok tt → b ≡ true
require_held b e h = ground arith

pub ok-injective {ℓ} : {A : Type ℓ} {a b : A} → ok a ≡ ok b → a ≡ b
ok-injective e = cc

-- An invariant of a loop: what holds before it, and is kept by each round that does not raise.
pub fold-invariant {ℓ κ μ} :
    {A : Type ℓ} {S : Type κ} (P : S → Type μ) (f : S → A → Result S)
    → ((s : S) (x : A) (t : S) → P s → f s x ≡ ok t → P t)
    → (s : S) (xs : List A) (t : S) → P s
    → fold f s xs ≡ ok t
    → P t
fold-invariant P f keep s [] t h e = rw (← ok-injective e) h
fold-invariant P f keep s (x ∷ xs) t h e =
    let (u, one, rest) = >>=-eq-ok (f s x) (λ s'. fold f s' xs) e in
    fold-invariant P f keep u xs t (keep s x u h one) rest

-- The same by continuation, for chains of many steps.
module _ {ℓ κ μ} {A : Type ℓ} {B : Type κ} {P : Type μ} where
  pub >>=-ok :
      (m : Result A) (f : A → Result B) {b : B}
      → (m >>= f) ≡ ok b
      → ((a : A) → m ≡ ok a → f a ≡ ok b → P)
      → P
  >>=-ok (ok a) f h k = k a refl h
  >>=-ok (raise e) f h k = cc

module _ {κ μ} {B : Type κ} {P : Type μ} where
  pub require-ok :
      (t : Bool) (e : Exception) (k : Result B) {b : B}
      → (require t e >> k) ≡ ok b
      → (t ≡ true → k ≡ ok b → P)
      → P
  require-ok true e k h f = f refl h
  require-ok false e k h f = cc

  pub refuse-ok :
      (t : Bool) (e : Exception) (k : Result B) {b : B}
      → (refuse t e >> k) ≡ ok b
      → (t ≡ false → k ≡ ok b → P)
      → P
  refuse-ok true e k h f = cc
  refuse-ok false e k h f = f refl h

-- A loop that returned did so in each round.
pub for_each-All {ℓ} :
    {A : Type ℓ} (f : A → Result (Unit {0})) (xs : List A)
    → for_each f xs ≡ ok tt
    → All (λ x. f x ≡ ok tt) xs
for_each-All f [] h = tt
for_each-All f (x ∷ xs) h =
    let (u, one, rest) = >>=-eq-ok (f x) (λ _. for_each f xs) h in (one, for_each-All f xs rest)
