-- ===== src/ChangePlan/RawHeader.antt =====
-- `_RAW_HEADER_RE`: what it matches, and that it matches what is written in its form.
use mathlib.Core.Path.{subst}
use aros_toolchains.Prelude.{
  ℕ, zero, suc, Bool, true, [], ◌∷◌, ◌++◌, Option, none, some, nat_eq, length, all, ◌≡◌, refl,
  arith,
}
use aros_toolchains.ChangePlan.Records.{
  Bytes, take_class, take_byte, Header, match_header, accept_status, is_octal, is_hex_byte,
  is_status, ◌>>=◌,
}

-- A header written out.
unfoldable pub write_header : Header → Bytes
write_header m =
    58
    ∷ (m.old_mode
        ++ (32 ∷ (m.new_mode ++ (32 ∷ (m.old_oid ++ (32 ∷ (m.new_oid ++ (32 ∷ m.status))))))))

-- Each group is of its class.
pub record IsHeader (m : Header) : Type 0 where
  pub old_mode_octal : all is_octal m.old_mode ≡ true
  pub old_mode_length : length m.old_mode ≡ 6
  pub new_mode_octal : all is_octal m.new_mode ≡ true
  pub new_mode_length : length m.new_mode ≡ 6
  pub old_oid_hex : all is_hex_byte m.old_oid ≡ true
  pub old_oid_length : length m.old_oid ≡ 40
  pub new_oid_hex : all is_hex_byte m.new_oid ≡ true
  pub new_oid_length : length m.new_oid ≡ 40
  pub status_form : is_status m.status ≡ true

-- A chain that gave something, by continuation.
>>=-some {ℓ κ μ} :
    {A : Type ℓ} {B : Type κ} {P : Type μ} (m : Option A) (f : A → Option B) {b : B}
    → (m >>= f) ≡ some b
    → ((a : A) → m ≡ some a → f a ≡ some b → P)
    → P
>>=-some none f h k = cc
>>=-some (some a) f h k = k a refl h

module _ (p : ℕ → Bool) where
  take_class-append :
      (n : ℕ) (xs ys : Bytes)
      → all p xs ≡ true
      → length xs ≡ n
      → take_class n p (xs ++ ys) ≡ some (xs, ys)
  unfolding take_class
  take_class-append zero [] ys h k = refl
  take_class-append zero (x ∷ xs) ys h k = absurd (omega (arith, k))
  take_class-append (suc n) [] ys h k = absurd (omega (arith, k))
  take_class-append (suc n) (x ∷ xs) ys h k = ground (arith, take_class-append n xs ys)

  -- What was taken, in front of what is left.
  pub record IsTaken (n : ℕ) (bs : Bytes) (r : Bytes × Bytes) : Type 0 where
    pub class : all p r.0 ≡ true
    pub count : length r.0 ≡ n
    pub whole : bs ≡ r.0 ++ r.1

  take_class-IsTaken :
      (n : ℕ) (bs : Bytes) (r : Bytes × Bytes) → take_class n p bs ≡ some r → IsTaken n bs r
  unfolding take_class
  take_class-IsTaken zero bs r h = ground arith
  take_class-IsTaken (suc n) [] r h = cc
  take_class-IsTaken (suc n) (b ∷ bs) r h = >>=-some (take_class n p bs) _ h λ both one rest.
      let t = take_class-IsTaken n bs both one in
      record {
        class = ground (arith, t.class);
        count = ground (arith, t.count);
        whole = ground (arith, t.whole);
      }

take_byte-eq : (c : ℕ) (bs rest : Bytes) → take_byte c bs ≡ some rest → bs ≡ c ∷ rest
take_byte-eq c bs rest h = ground arith

-- A header that is written out matches, with its groups.
pub match_header-write_header : (m : Header) → IsHeader m → match_header (write_header m) ≡ some m
unfolding match_header write_header nat_eq
match_header-write_header m h =
    rw
      (
        take_class-append is_octal 6 m.old_mode
            (32 ∷ (m.new_mode ++ (32 ∷ (m.old_oid ++ (32 ∷ (m.new_oid ++ (32 ∷ m.status)))))))
            h.old_mode_octal h.old_mode_length,
        take_class-append is_octal 6 m.new_mode
            (32 ∷ (m.old_oid ++ (32 ∷ (m.new_oid ++ (32 ∷ m.status))))) h.new_mode_octal
            h.new_mode_length,
        take_class-append is_hex_byte 40 m.old_oid (32 ∷ (m.new_oid ++ (32 ∷ m.status)))
            h.old_oid_hex h.old_oid_length,
        take_class-append is_hex_byte 40 m.new_oid (32 ∷ m.status) h.new_oid_hex h.new_oid_length,
        h.status_form,
      )
      refl

accept_status-eq :
    (status : Bytes) (m n : Header)
    → accept_status status m ≡ some n
    → (is_status status ≡ true) × (m ≡ n)
accept_status-eq status m n h = ground arith

-- What matches is a header written out.
pub match_header_sound :
    (bs : Bytes) (m : Header) → match_header bs ≡ some m → IsHeader m × (bs ≡ write_header m)
unfolding match_header write_header
match_header_sound bs m h = >>=-some (take_byte 58 bs) _ h λ r0 e0 h0.
    >>=-some (take_class 6 is_octal r0) _ h0 λ t1 e1 h1.
      >>=-some (take_byte 32 t1.1) _ h1 λ r1 e2 h2.
        >>=-some (take_class 6 is_octal r1) _ h2 λ t2 e3 h3.
          >>=-some (take_byte 32 t2.1) _ h3 λ r2 e4 h4.
            >>=-some (take_class 40 is_hex_byte r2) _ h4 λ t3 e5 h5.
              >>=-some (take_byte 32 t3.1) _ h5 λ r3 e6 h6.
                >>=-some (take_class 40 is_hex_byte r3) _ h6 λ t4 e7 h7.
                  >>=-some (take_byte 32 t4.1) _ h7 λ status e8 h8.
                    let k1 = take_class-IsTaken is_octal 6 r0 t1 e1 in
                    let k2 = take_class-IsTaken is_octal 6 r1 t2 e3 in
                    let k3 = take_class-IsTaken is_hex_byte 40 r2 t3 e5 in
                    let k4 = take_class-IsTaken is_hex_byte 40 r3 t4 e7 in
                    let found : Header = record {
                      old_mode = t1.0;
                      new_mode = t2.0;
                      old_oid = t3.0;
                      new_oid = t4.0;
                      status = status;
                    } in
                    let last = accept_status-eq status found m h8 in
                    let whole : bs ≡ write_header found =
                      rw
                        (
                          take_byte-eq 58 bs r0 e0,
                          k1.whole,
                          take_byte-eq 32 t1.1 r1 e2,
                          k2.whole,
                          take_byte-eq 32 t2.1 r2 e4,
                          k3.whole,
                          take_byte-eq 32 t3.1 r3 e6,
                          k4.whole,
                          take_byte-eq 32 t4.1 status e8,
                        )
                        refl in
                    subst (λ n. IsHeader n × (bs ≡ write_header n)) last.1
                      (
                        record {
                          old_mode_octal = k1.class;
                          old_mode_length = k1.count;
                          new_mode_octal = k2.class;
                          new_mode_length = k2.count;
                          old_oid_hex = k3.class;
                          old_oid_length = k3.count;
                          new_oid_hex = k4.class;
                          new_oid_length = k4.count;
                          status_form = last.0;
                        },
                        whole,
                      )
