-- ===== src/ArtifactOrigin/Archive/Verified.antt =====
-- What the archive of `verify_zip` holds, as a whole.
use mathlib.Core.Path.{subst}
use aros_toolchains.Prelude.{
  ℕ, ◌+◌, ◌≤◌, String, true, false, ◌&&◌, List, [], ◌∷◌, Option, some, ok, origin_error, require-ok,
  require_held, >>=-ok, fold, ok-injective, both_true, All, IsNodup, contains_all, length-map, ◌==◌,
  string_eq, nat_eq, contains, Dict, keys, length, eq_of_test, Bool-cases, inl, inr, ◌≡◌, refl,
  arith, ap, sym, ◌∙◌,
}
use aros_toolchains.Json.{Value, as_dict, or_raise, or_raise-some}
use aros_toolchains.ArtifactOrigin.{require_portable_inventory}
use aros_toolchains.ArtifactOrigin.Provider.{max_payload}
use aros_toolchains.ArtifactOrigin.Archive.{
  Measurement, same_measurement, ZipMember, ZipArchive, ZipState, add_zip_member, has_size,
  verify_zip,
}
use aros_toolchains.ArtifactOrigin.Archive.Signed.{
  IsSigned, add_zip_member-IsAdded, names_of, sum_sizes,
}

pub same_measurement-eq : (m n : Measurement) → same_measurement m n ≡ true → m ≡ n
same_measurement-eq m n h = ground arith

length-keys : (d : Dict String Value) → length (keys d) ≡ length d
length-keys [] = refl
length-keys ((k, v) ∷ d) = omega (arith, length-keys d)

module _ (m : ZipMember) (ms : List ZipMember) where
  not_again :
      (s t : ZipState)
      → t.seen ≡ m.filename ∷ s.seen
      → ((b : String) → contains (names_of ms) b ≡ true → contains t.seen b ≡ false)
      → contains (names_of ms) m.filename ≡ false
  not_again s t noted fresh = elim (Bool-cases (contains (names_of ms) m.filename)) [
    | inr out ↦ out
    | inl here ↦
        let seen : contains (m.filename ∷ s.seen) m.filename ≡ false =
          subst (λ l. contains l m.filename ≡ false) noted (fresh m.filename here) in
        absurd (ground (arith, seen))
  ]

  fresh_before :
      (s t : ZipState) (b : String)
      → t.seen ≡ m.filename ∷ s.seen
      → contains s.seen m.filename ≡ false
      → ((b : String) → contains (names_of ms) b ≡ true → contains t.seen b ≡ false)
      → contains (names_of (m ∷ ms)) b ≡ true
      → contains s.seen b ≡ false
  fresh_before s t b noted first fresh k = elim (Bool-cases (b == m.filename)) [
    | inl same ↦ subst (λ c. contains s.seen c ≡ false) (sym (eq_of_test b m.filename same)) first
    | inr other ↦
        let seen : contains (m.filename ∷ s.seen) b ≡ false =
          subst (λ l. contains l b ≡ false) noted (fresh b (ground arith)) in
        ground (arith, seen)
  ]

  selected_next :
      (names : List String) (b : String)
      → contains names m.filename ≡ true
      → ((b : String) → contains (names_of ms) b ≡ true → contains names b ≡ true)
      → contains (names_of (m ∷ ms)) b ≡ true
      → contains names b ≡ true
  selected_next names b first more k = elim (Bool-cases (b == m.filename)) [
    | inl same ↦ subst (λ c. contains names c ≡ true) (sym (eq_of_test b m.filename same)) first
    | inr other ↦ more b (ground arith)
  ]

module _ (sha256 : List ℕ → String) where
  -- What the loop over the members says of those that are left.
  record AreVerified (files : Dict String Value) (s : ZipState) (ms : List ZipMember) (t : ZipState)
      : Type 0 where
    signed : All (IsSigned sha256 files) ms
    distinct : IsNodup (names_of ms)
    fresh : (b : String) → contains (names_of ms) b ≡ true → contains s.seen b ≡ false
    selected : (b : String) → contains (names_of ms) b ≡ true → contains (keys files) b ≡ true
    counted : t.total ≡ s.total + sum_sizes ms
    bounded : s.total ≤ max_payload → t.total ≤ max_payload

  members-AreVerified :
      (files : Dict String Value) (s : ZipState) (ms : List ZipMember) (t : ZipState)
      → fold (add_zip_member sha256 files) s ms ≡ ok t
      → AreVerified files s ms t
  members-AreVerified files s [] t h = record {
    signed = tt;
    distinct = tt;
    fresh = λ b k. cc;
    selected = λ b k. cc;
    counted = omega (arith, ap (λ (u : ZipState). u.total) (ok-injective h));
    bounded = λ le. omega (arith, ap (λ (u : ZipState). u.total) (ok-injective h));
  }
  members-AreVerified files s (m ∷ ms) t h =
      >>=-ok (add_zip_member sha256 files s m) _ h λ u one more.
        let a = add_zip_member-IsAdded sha256 files s m u one in
        let rest = members-AreVerified files u ms t more in
        record {
          signed = (a.signed, rest.signed);
          distinct = (not_again m ms s u a.noted rest.fresh, rest.distinct);
          fresh = λ b k. fresh_before m ms s u b a.noted a.fresh rest.fresh k;
          selected = λ b k. selected_next m ms (keys files) b a.selected rest.selected k;
          counted = omega (arith, rest.counted, a.counted);
          bounded = λ _. rest.bounded a.bounded;
        }

  -- The archive that was measured is the signed one: it has the digest, and the size if one is given;
  -- the signed names are an accepted inventory, and each is that of one member and no other name is;
  -- and every member has the content that is signed of its name.
  pub record IsVerified (archive : ZipArchive) (files_value : Value) (digest : String)
      (size : Option ℕ) : Type 0 where
    pub measured : Measurement
    pub before : archive.before ≡ ok measured
    pub after : archive.after ≡ ok measured
    pub of_digest : measured.sha256 ≡ digest
    pub of_size : has_size size measured.size ≡ true
    pub files : Dict String Value
    pub are_files : as_dict files_value ≡ some files
    pub inventory : require_portable_inventory (keys files) ≡ ok tt
    pub members : List ZipMember
    pub are_members : archive.members ≡ ok members
    pub distinct : IsNodup (names_of members)
    pub covered : (name : String) → contains (keys files) name ≡ contains (names_of members) name
    pub signed : All (IsSigned sha256 files) members
    pub bounded : sum_sizes members ≤ max_payload

  -- An archive is accepted only if its digest, and its size if one is given, are those that are
  -- expected, before and after it was read; the signed names are an accepted inventory; its members
  -- have distinct names, and these are exactly the signed names; each member is an ordinary file whose
  -- whole content was read and has the size and the digest that are signed of its name; and the
  -- contents together are within the bound.
  pub verify_zip-IsVerified :
      (archive : ZipArchive) (files_value : Value) (digest : String) (size : Option ℕ)
      → verify_zip sha256 archive files_value digest size ≡ ok tt
      → IsVerified archive files_value digest size
  unfolding verify_zip
  verify_zip-IsVerified archive files_value digest size h =
      >>=-ok archive.before _ h λ measured before h1.
        require-ok (measured.sha256 == digest && has_size size measured.size) _ _ h1 λ expected h2.
          >>=-ok (or_raise (as_dict files_value) (origin_error "signed file inventory is invalid"))
            _ h2
            λ files are_files h3.
              >>=-ok (require_portable_inventory (keys files)) _ h3 λ _ inventory h4.
                >>=-ok archive.members _ h4 λ members listed h5.
                  require-ok (length members == length files) _ _ h5 λ as_many h6.
                    >>=-ok
                      (fold (add_zip_member sha256 files) (record { seen = []; total = 0 }) members)
                      _ h6
                      λ checked looped h7. >>=-ok archive.after _ h7 λ again after h8.
                        let e = both_true (measured.sha256 == digest) _ expected in
                        let v = members-AreVerified files _ members checked looped in
                        record {
                          measured = measured;
                          before = before;
                          after =
                              after
                              ∙ ap ok (
                                  same_measurement-eq again measured
                                    (require_held (same_measurement again measured) _ h8));
                          of_digest = eq_of_test measured.sha256 digest e.0;
                          of_size = e.1;
                          files = files;
                          are_files = or_raise-some (as_dict files_value) files _ are_files;
                          inventory = inventory;
                          members = members;
                          are_members = listed;
                          distinct = v.distinct;
                          covered =
                              contains_all (names_of members) (keys files) v.distinct v.selected (
                                length-map members (λ (m : ZipMember). m.filename)
                                ∙ (eq_of_test (length members) (length files) as_many
                                    ∙ sym (length-keys files)));
                          signed = v.signed;
                          bounded = omega (arith, v.counted, v.bounded (omega arith));
                        }
