-- ===== src/ChangePlan/Fields.antt =====
-- Fields closed by zero bytes, and how `data[:-1].split(b"\0")` reads them.
use aros_toolchains.Prelude.{
  ℕ, true, false, List, [], ◌∷◌, ◌++◌, ◌==◌, nat_eq, contains, eq_of_test, ◌≡◌, ◌≢◌, refl, arith,
  ap, ◌∙◌, All, Bool-cases, inl, inr,
}
use aros_toolchains.ChangePlan.Records.{Bytes, split_bytes, push_byte, drop_last, ends_in}

-- Each field and its zero byte.
unfoldable pub close_fields : List Bytes → Bytes
close_fields [] = []
close_fields (f ∷ fs) = f ++ (0 ∷ close_fields fs)

push_byte-ne-nil : (b : ℕ) (fs : List Bytes) → push_byte b fs ≢ []
push_byte-ne-nil b [] = λ h. cc
push_byte-ne-nil b (f ∷ fs) = λ h. cc

split_bytes-ne-nil : (sep : ℕ) (bs : Bytes) → split_bytes sep bs ≢ []
unfolding split_bytes
split_bytes-ne-nil sep [] = λ h. cc
split_bytes-ne-nil sep (b ∷ bs) = λ h. push_byte-ne-nil b (split_bytes sep bs) (ground arith)

close_fields-push_byte :
    (b : ℕ) (fs : List Bytes) → fs ≢ [] → close_fields (push_byte b fs) ≡ b ∷ close_fields fs
unfolding close_fields
close_fields-push_byte b [] h = absurd (h refl)
close_fields-push_byte b (f ∷ fs) h = refl

-- A text that ends in a zero byte is its fields, each closed.
pub close_fields-split_bytes :
    (bs : Bytes) → ends_in 0 bs ≡ true → close_fields (split_bytes 0 (drop_last bs)) ≡ bs
unfolding split_bytes close_fields
close_fields-split_bytes [] h = cc
close_fields-split_bytes (b ∷ []) h = ground arith
close_fields-split_bytes (b ∷ c ∷ bs) h =
    let rest = close_fields-split_bytes (c ∷ bs) h in
    elim (Bool-cases (b == 0)) [
      | inl e ↦ rw (e, rest) (ap (λ x. x ∷ c ∷ bs) (ground (arith, eq_of_test b 0 e)))
      | inr e ↦
          rw
            (
              e,
              close_fields-push_byte b (split_bytes 0 (drop_last (c ∷ bs)))
                  (split_bytes-ne-nil 0 (drop_last (c ∷ bs))),
              rest,
            )
            refl
    ]

-- A zero byte is in no field.
push_byte-no_zero :
    (b : ℕ) (fs : List Bytes)
    → (b == 0) ≡ false
    → All (λ f. contains f 0 ≡ false) fs
    → All (λ f. contains f 0 ≡ false) (push_byte b fs)
push_byte-no_zero b [] h k = (ground arith, tt)
push_byte-no_zero b (f ∷ fs) h k = (ground (arith, k.0), k.1)

pub no_zero-split_bytes : (bs : Bytes) → All (λ f. contains f 0 ≡ false) (split_bytes 0 bs)
unfolding split_bytes
no_zero-split_bytes [] = (refl, tt)
no_zero-split_bytes (b ∷ bs) = elim (Bool-cases (b == 0)) [
  | inl e ↦ rw e (refl, no_zero-split_bytes bs)
  | inr e ↦ rw e (push_byte-no_zero b (split_bytes 0 bs) e (no_zero-split_bytes bs))
]

split_bytes-plain : (f : Bytes) → contains f 0 ≡ false → split_bytes 0 f ≡ f ∷ []
unfolding split_bytes
split_bytes-plain [] h = refl
split_bytes-plain (b ∷ f) h = ground (arith, split_bytes-plain f)

split_bytes-append :
    (f ys : Bytes) → contains f 0 ≡ false → split_bytes 0 (f ++ (0 ∷ ys)) ≡ f ∷ split_bytes 0 ys
unfolding split_bytes
split_bytes-append [] ys h = ground arith
split_bytes-append (b ∷ f) ys h = ground (arith, split_bytes-append f ys)

drop_last-append :
    (f : Bytes) (y : ℕ) (ys : Bytes) → drop_last (f ++ (0 ∷ y ∷ ys)) ≡ f ++ (0 ∷ drop_last (y ∷ ys))
drop_last-append [] y ys = refl
drop_last-append (b ∷ []) y ys = refl
drop_last-append (b ∷ c ∷ f) y ys = ap (λ t. b ∷ t) (drop_last-append (c ∷ f) y ys)

drop_last-snoc : (f : Bytes) → drop_last (f ++ (0 ∷ [])) ≡ f
drop_last-snoc [] = refl
drop_last-snoc (b ∷ []) = refl
drop_last-snoc (b ∷ c ∷ f) = ap (λ t. b ∷ t) (drop_last-snoc (c ∷ f))

ends_in-append : (f : Bytes) (ys : Bytes) → ends_in 0 ys ≡ true → ends_in 0 (f ++ ys) ≡ true
ends_in-append [] ys h = h
ends_in-append (b ∷ []) [] h = cc
ends_in-append (b ∷ []) (y ∷ ys) h = h
ends_in-append (b ∷ c ∷ f) ys h = ends_in-append (c ∷ f) ys h

-- Closed fields end in a zero byte.
pub ends_in-close_fields : (f : Bytes) (fs : List Bytes) → ends_in 0 (close_fields (f ∷ fs)) ≡ true
unfolding close_fields
ends_in-close_fields f [] = ends_in-append f (0 ∷ []) (ground arith)
ends_in-close_fields f (g ∷ fs) =
    ends_in-append f (0 ∷ close_fields (g ∷ fs))
      (ends_in-append (0 ∷ []) (close_fields (g ∷ fs)) (ends_in-close_fields g fs))

drop_last-zero : (f ys : Bytes) → ys ≢ [] → drop_last (f ++ (0 ∷ ys)) ≡ f ++ (0 ∷ drop_last ys)
drop_last-zero f [] h = absurd (h refl)
drop_last-zero f (y ∷ ys) h = drop_last-append f y ys

close_fields-ne-nil : (f : Bytes) (fs : List Bytes) → close_fields (f ∷ fs) ≢ []
unfolding close_fields
close_fields-ne-nil [] fs = λ h. cc
close_fields-ne-nil (b ∷ f) fs = λ h. cc

drop_last-close :
    (f g : Bytes) (fs : List Bytes)
    → drop_last (close_fields (f ∷ g ∷ fs)) ≡ f ++ (0 ∷ drop_last (close_fields (g ∷ fs)))
unfolding close_fields
drop_last-close f g fs = drop_last-zero f (close_fields (g ∷ fs)) (close_fields-ne-nil g fs)

-- Fields without a zero byte are read back.
pub split_bytes-close_fields :
    (f : Bytes) (fs : List Bytes)
    → All (λ f. contains f 0 ≡ false) (f ∷ fs)
    → split_bytes 0 (drop_last (close_fields (f ∷ fs))) ≡ f ∷ fs
unfolding close_fields
split_bytes-close_fields f [] h = ap (split_bytes 0) (drop_last-snoc f) ∙ split_bytes-plain f h.0
split_bytes-close_fields f (g ∷ fs) h =
    ap (split_bytes 0) (drop_last-close f g fs)
    ∙ (split_bytes-append f (drop_last (close_fields (g ∷ fs))) h.0
        ∙ ap (λ r. f ∷ r) (split_bytes-close_fields g fs h.1))
