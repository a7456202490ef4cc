-- ===== src/ArtifactOrigin/Archive/Signed.antt =====
-- What a verified archive holds.
use mathlib.Core.Path.{subst}
use mathlib.Core.List.{append_assoc, append-nil}
use aros_toolchains.Prelude.{
  le_of_leb, not_held, ℕ, ◌+◌, ◌≤◌, String, true, false, ◌&&◌, not, List, [], ◌∷◌, ◌++◌, some,
  Result, ok, raise, origin_error, require-ok, ◌>>=◌, >>=-ok, fold, ok-injective, both_true,
  length-append, ◌==◌, string_eq, nat_eq, contains, Dict, keys, map, length, leb, eq_of_test, ◌≡◌,
  refl, arith, ap, sym, ◌∙◌,
}
use aros_toolchains.Json.{
  Value, int, pos, str, as_dict, as_str, as_nat, has_exactly, item, or_raise, or_raise-some,
}
use aros_toolchains.Json.Inversion.{as_str-eq, as_nat-eq}
use aros_toolchains.Text.{any_char, is_hex}
use aros_toolchains.ArtifactOrigin.{portable_path}
use aros_toolchains.ArtifactOrigin.Provider.{max_payload}
use aros_toolchains.ArtifactOrigin.Archive.{
  Measurement, exact_keys, ZipMember, is_ordinary, Hashed, add_block, ZipState, read_expected,
  add_zip_member,
}

-- The content that the blocks of a member make up.
abbrev pub read_all : List (Result (List ℕ)) → Result (List ℕ)
read_all [] = ok []
read_all (r ∷ rs) = r >>= λ b. read_all rs >>= λ bs. ok (b ++ bs)

-- The content is read without an error, from where the loop stands.
record IsHashed (s : Hashed) (blocks : List (Result (List ℕ))) (t : Hashed) : Type 0 where
  content : List ℕ
  read : read_all blocks ≡ ok content
  whole : t.content ≡ s.content ++ content
  counted : t.size ≡ s.size + length content

read_next :
    (r : Result (List ℕ)) (rs : List (Result (List ℕ))) (b c : List ℕ)
    → r ≡ ok b
    → read_all rs ≡ ok c
    → read_all (r ∷ rs) ≡ ok (b ++ c)
read_next r rs b c h k = rw (h, k) refl

add_block-ok :
    (file_size : ℕ) (s t : Hashed) (r : Result (List ℕ))
    → add_block file_size s r ≡ ok t
    → (b : List ℕ) × (r ≡ ok b) × (t.content ≡ s.content ++ b) × (t.size ≡ s.size + length b)
unfolding add_block
add_block-ok file_size s t (raise e) h = cc
add_block-ok file_size s t (ok b) h = require-ok (leb (s.size + length b) file_size) _ _ h λ _ h1. (
  b,
  refl,
  sym (ap (λ (u : Hashed). u.content) (ok-injective h1)),
  sym (ap (λ (u : Hashed). u.size) (ok-injective h1)),
)

blocks-IsHashed :
    (file_size : ℕ) (s : Hashed) (blocks : List (Result (List ℕ))) (t : Hashed)
    → fold (add_block file_size) s blocks ≡ ok t
    → IsHashed s blocks t
blocks-IsHashed file_size s [] t h = record {
  content = [];
  read = refl;
  whole = sym (append-nil s.content ∙ ap (λ (u : Hashed). u.content) (ok-injective h));
  counted = omega (arith, ap (λ (u : Hashed). u.size) (ok-injective h));
}
blocks-IsHashed file_size s (r ∷ blocks) t h = >>=-ok (add_block file_size s r) _ h λ u one more.
    let (b, got, whole, counted) = add_block-ok file_size s u r one in
    let rest = blocks-IsHashed file_size u blocks t more in
    record {
      content = b ++ rest.content;
      read = read_next r blocks b rest.content got rest.read;
      whole =
          rest.whole ∙ (ap (λ c. c ++ rest.content) whole ∙ append_assoc s.content b rest.content);
      counted = omega (arith, rest.counted, counted, length-append b rest.content);
    }

abbrev pub sum_sizes : List ZipMember → ℕ
sum_sizes [] = 0
sum_sizes (m ∷ ms) = m.file_size + sum_sizes ms

abbrev pub names_of : List ZipMember → List String
names_of ms = map (λ (m : ZipMember). m.filename) ms

pub keyed_dict :
    (v : Value) (names : List String) (entry : Dict String Value)
    → exact_keys v names ≡ ok entry
    → as_dict v ≡ some entry
unfolding exact_keys
keyed_dict v names entry h =
    >>=-ok (or_raise (as_dict v) (origin_error "origin metadata has unexpected fields")) _ h
      λ d is_dict h1.
        require-ok (has_exactly names d) _ _ h1
          λ _ h2. or_raise-some (as_dict v) d _ is_dict ∙ ap some (ok-injective h2)

module _ (sha256 : List ℕ → String) (files : Dict String Value) where
  -- The member is an ordinary file with a safe name, and has the size and the digest that are signed
  -- of that name.
  pub record IsSigned (m : ZipMember) : Type 0 where
    pub safe : portable_path m.filename ≡ true
    pub ordinary : is_ordinary m ≡ true
    pub entry_value : Value
    pub at_name : item files m.filename ≡ ok entry_value
    pub entry : Dict String Value
    pub is_entry : as_dict entry_value ≡ some entry
    pub content : List ℕ
    pub read : read_all m.blocks ≡ ok content
    pub sized : length content ≡ m.file_size
    pub signed_size : item entry "size" ≡ ok (int (pos (length content)))
    pub signed_digest : item entry "sha256" ≡ ok (str (sha256 content))

  record IsExpected (m : ZipMember) (e : Measurement) : Type 0 where
    entry_value : Value
    at_name : item files m.filename ≡ ok entry_value
    entry : Dict String Value
    is_entry : as_dict entry_value ≡ some entry
    signed_size : item entry "size" ≡ ok (int (pos e.size))
    signed_digest : item entry "sha256" ≡ ok (str e.sha256)
    sized : e.size ≡ m.file_size

  read_expected-IsExpected :
      (m : ZipMember) (e : Measurement) → read_expected files m ≡ ok e → IsExpected m e
  unfolding read_expected exact_keys
  read_expected-IsExpected m e h = >>=-ok (item files m.filename) _ h λ v at_name h1.
      >>=-ok (exact_keys v ("sha256" ∷ "size" ∷ [])) _ h1 λ entry keyed h2.
        >>=-ok (item entry "size") _ h2 λ size_value at_size h3.
          >>=-ok (or_raise (as_nat size_value) (origin_error "ZIP member measurement differs")) _ h3
            λ size is_size h4.
              require-ok (size == m.file_size && leb m.file_size max_payload) _ _ h4 λ fits h5.
                >>=-ok (item entry "sha256") _ h5 λ sha_value at_sha h6.
                  >>=-ok
                    (or_raise (as_str sha_value) (origin_error "ZIP member measurement differs")) _
                    h6
                    λ sha is_sha h7. require-ok (is_hex 64 sha) _ _ h7 λ _ h8.
                      subst (IsExpected m) (ok-injective h8) (record {
                        entry_value = v;
                        at_name = at_name;
                        entry = entry;
                        is_entry = keyed_dict v ("sha256" ∷ "size" ∷ []) entry keyed;
                        signed_size =
                            at_size
                            ∙ ap ok (
                                as_nat-eq size_value size
                                  (or_raise-some (as_nat size_value) size _ is_size));
                        signed_digest =
                            at_sha
                            ∙ ap ok (
                                as_str-eq sha_value sha
                                  (or_raise-some (as_str sha_value) sha _ is_sha));
                        sized =
                            eq_of_test size m.file_size (both_true (size == m.file_size) _ fits).0;
                      })

  pub record IsAdded (s : ZipState) (m : ZipMember) (t : ZipState) : Type 0 where
    pub signed : IsSigned m
    pub fresh : contains s.seen m.filename ≡ false
    pub selected : contains (keys files) m.filename ≡ true
    pub noted : t.seen ≡ m.filename ∷ s.seen
    pub counted : t.total ≡ s.total + m.file_size
    pub bounded : t.total ≤ max_payload

  pub add_zip_member-IsAdded :
      (s : ZipState) (m : ZipMember) (t : ZipState)
      → add_zip_member sha256 files s m ≡ ok t
      → IsAdded s m t
  unfolding add_zip_member
  add_zip_member-IsAdded s m t h =
      require-ok
        (m.orig_filename == m.filename
          && not (any_char (λ c. c == 0) m.orig_filename)
          && portable_path m.filename
          && not (contains s.seen m.filename)
          && contains (keys files) m.filename)
        _ _ h
        λ named h1. require-ok (is_ordinary m) _ _ h1 λ ordinary h2.
          >>=-ok (read_expected files m) _ h2 λ e expected h3.
            >>=-ok (fold (add_block m.file_size) (record { content = []; size = 0 }) m.blocks) _ h3
              λ hashed looped h4.
                require-ok
                  (leb (s.total + hashed.size) max_payload
                    && hashed.size == e.size
                    && sha256 hashed.content == e.sha256)
                  _ _ h4
                  λ equal h5.
                    let n = both_true _ (contains (keys files) m.filename) named in
                    let n1 = both_true _ (not (contains s.seen m.filename)) n.0 in
                    let n2 = both_true _ (portable_path m.filename) n1.0 in
                    let q = both_true _ (sha256 hashed.content == e.sha256) equal in
                    let q1 = both_true (leb (s.total + hashed.size) max_payload) _ q.0 in
                    let x = read_expected-IsExpected m e expected in
                    let c = blocks-IsHashed m.file_size _ m.blocks hashed looped in
                    let count : length c.content ≡ e.size =
                      omega (arith, c.counted, eq_of_test hashed.size e.size q1.1) in
                    let digest : sha256 c.content ≡ e.sha256 =
                      ap sha256 (sym c.whole) ∙ eq_of_test (sha256 hashed.content) e.sha256 q.1 in
                    let made : record { seen = m.filename ∷ s.seen; total = s.total + hashed.size }
                        ≡ t =
                      ok-injective h5 in
                    record {
                      signed = record {
                        safe = n2.1;
                        ordinary = ordinary;
                        entry_value = x.entry_value;
                        at_name = x.at_name;
                        entry = x.entry;
                        is_entry = x.is_entry;
                        content = c.content;
                        read = c.read;
                        sized = count ∙ x.sized;
                        signed_size = x.signed_size ∙ ap (λ k. ok (int (pos k))) (sym count);
                        signed_digest = x.signed_digest ∙ ap (λ d. ok (str d)) (sym digest);
                      };
                      fresh = not_held (contains s.seen m.filename) n1.1;
                      selected = n.1;
                      noted = sym (ap (λ (u : ZipState). u.seen) made);
                      counted =
                          omega
                            (arith, ap (λ (u : ZipState). u.total) made, c.counted, count, x.sized);
                      bounded =
                          subst (λ (u : ZipState). u.total ≤ max_payload) made
                            (le_of_leb (s.total + hashed.size) max_payload q1.0);
                    }
