-- ===== src/SdkOwners/Closure/Agreement.antt =====
-- The uses that the loops of _project_owners collect.
use mathlib.Core.Path.{subst}
use aros_toolchains.Prelude.{
  String, Bool, true, false, ◌&&◌, ◌||◌, not, if◌then◌else◌, List, [], ◌∷◌, ok, type_error,
  require-ok, >>=-ok, fold, fold-invariant, ok-injective, ◌==◌, contains, contains-append, Dict,
  lookup-insert, insert, string_eq, pair_eq, nat_eq, eq_of_test, Bool-cases, inl, inr, ◌≡◌, ap, ◌∙◌,
  arith,
}
use aros_toolchains.Json.{Value, as_dict, or_raise}
use aros_toolchains.Text.Order.{string_ord}
use aros_toolchains.Sorted.{pair_ord}
use aros_toolchains.SdkOwners.{
  Key, generation, Uses, sdks_of, add_new, add_use, text_at, list_at, add_reference, add_sdk,
}

abbrev pub Agrees : Uses → Type 0
Agrees s =
    (id : String) (k : Key)
    → contains s.expected (generation id k) ≡ contains (sdks_of s.owner_sdks k) id

contains-add_new :
    (id b : String) (ids : List String) → contains (add_new id ids) b ≡ (b == id || contains ids b)
contains-add_new id b ids = ground (arith, contains-append ids (id ∷ []) b, eq_of_test b id)

sdks_of-insert :
    (k j : Key) (ids : List String) (d : Dict Key (List String))
    → sdks_of (insert k ids d) j ≡ (if j == k then ids else sdks_of d j)
sdks_of-insert k j ids d = ground (arith, lookup-insert j k ids d)

-- Two generations are one where SDK and key are.
generation_test :
    (a b : String) (j k : Key) → (generation a j == generation b k) ≡ (a == b && j == k)
unfolding pair_eq
generation_test a b (g, (h, p)) (g', (h', p')) = ground arith

or_swap : (a b c : Bool) → a ≡ c → (a || (b && true)) ≡ (b || c)
or_swap a b c h = ground arith

or_none : (a b : Bool) → (a || (b && false)) ≡ a
or_none a b = ground arith

-- What one use changes, at any key.
use_changes :
    (b id : String) (j k : Key) (d : Dict Key (List String))
    → (contains (sdks_of d j) b || (b == id && j == k))
      ≡ contains (sdks_of (insert k (add_new id (sdks_of d k)) d) j) b
use_changes b id j k d = elim (Bool-cases (j == k)) [
  | inl e ↦ rw (sdks_of-insert k j (add_new id (sdks_of d k)) d) (
      rw (e, contains-add_new id b (sdks_of d k))
        (or_swap (contains (sdks_of d j) b) (b == id) (contains (sdks_of d k) b)
          (ap (λ t. contains (sdks_of d t) b) (eq_of_test j k e))))
  | inr e ↦
      rw (sdks_of-insert k j (add_new id (sdks_of d k)) d)
        (rw e (or_none (contains (sdks_of d j) b) (b == id)))
]

or_end : (a b : Bool) → (a || (b || false)) ≡ (a || b)
or_end a b = ground arith

add_use-Agrees :
    (id : String) (s : Uses) (k : Key) (t : Uses) → Agrees s → add_use id s k ≡ ok t → Agrees t
unfolding add_use
add_use-Agrees id s k t agrees h =
    require-ok (not (contains s.expected (generation id k))) _ _ h λ _ h1.
      subst Agrees (ok-injective h1) (λ b j.
        contains-append s.expected (generation id k ∷ []) (generation b j)
        ∙ (or_end (contains s.expected (generation b j)) (generation b j == generation id k)
            ∙ (ap (λ t. contains s.expected (generation b j) || t) (generation_test b id j k)
                ∙ (ap (λ t. t || (b == id && j == k)) (agrees b j)
                    ∙ use_changes b id j k s.owner_sdks))))

add_reference-Agrees :
    (hosts : List String) (id : String) (s : Uses) (value : Value) (t : Uses)
    → Agrees s
    → add_reference hosts id s value ≡ ok t
    → Agrees t
unfolding add_reference
add_reference-Agrees hosts id s value t agrees h =
    >>=-ok (or_raise (as_dict value) type_error) _ h λ d _ h1.
      >>=-ok (text_at d "group_id") _ h1 λ g _ h2. >>=-ok (text_at d "profile") _ h2 λ p _ h3.
        fold-invariant Agrees (λ s host. add_use id s (g, (host, p)))
          (λ s host t a e. add_use-Agrees id s (g, (host, p)) t a e) s hosts t agrees h3

pub add_sdk-Agrees :
    (hosts : List String) (s : Uses × List String) (value : Value) (t : Uses × List String)
    → Agrees s.0
    → add_sdk hosts s value ≡ ok t
    → Agrees t.0
unfolding add_sdk
add_sdk-Agrees hosts (s, ids) value t agrees h =
    >>=-ok (or_raise (as_dict value) type_error) _ h λ d _ h1.
      >>=-ok (text_at d "id") _ h1 λ id _ h2. require-ok (not (contains ids id)) _ _ h2 λ _ h3.
        >>=-ok (list_at d "compiler_profiles") _ h3 λ references _ h4.
          >>=-ok (fold (add_reference hosts id) s references) _ h4 λ u looped h5.
            subst (λ t. Agrees t.0) (ok-injective h5)
              (fold-invariant Agrees (add_reference hosts id)
                (λ s x t a e. add_reference-Agrees hosts id s x t a e) s references u agrees looped)
