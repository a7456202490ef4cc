-- ===== src/RuntimeLock/Accepted/Assets.antt =====
-- The four assets of a host in a lock of validate_lock.
use mathlib.Core.Path.{subst}
use aros_toolchains.Prelude.{
  String, Bool, true, false, not, List, [], ◌∷◌, ◌++◌, some, ok, lock_error, require-ok,
  require_held, >>=-ok, fold, IsNodup, contains, ◌<>◌, ◌==◌, string_eq, ok-injective, eq_of_test,
  ◌≡◌, refl, ap, sym, ◌∙◌, arith,
}
use aros_toolchains.Json.{Value, as_str, as_dict, item, or_raise, or_raise-some, has_exactly}
use aros_toolchains.RuntimeLock.{
  Object, require_exact_keys, require_hex, validate_asset, text_of, is_positive_size, is_basename,
  asset_fields, name_in, add_asset, asset_kinds, archive_name, check_names,
}

pub record IsAdded (entry : Object) (seen : List String) (field : String) (t : List String)
    : Type 0 where
  pub name : String
  pub named : name_in entry field ≡ ok name
  pub fresh : contains seen name ≡ false
  pub extended : name ∷ seen ≡ t

pub require_exact_keys-dict :
    (value : Value) (expected : List String) (label : String) (d : Object)
    → require_exact_keys value expected label ≡ ok d
    → as_dict value ≡ some d
unfolding require_exact_keys
require_exact_keys-dict value expected label d h =
    >>=-ok
      (or_raise (as_dict value) (lock_error (label <> " must contain exactly the expected fields")))
      _ h
      λ top given h1.
        require-ok (has_exactly expected top) _ _ h1
          λ _ h2. or_raise-some (as_dict value) top _ given ∙ ap some (ok-injective h2)

validate_asset-dict :
    (value : Value) (label : String) (asset : Object)
    → validate_asset value label ≡ ok asset
    → as_dict value ≡ some asset
unfolding validate_asset
validate_asset-dict value label asset h =
    >>=-ok (require_exact_keys value asset_fields label) _ h λ d keyed h1.
      >>=-ok (item d "name") _ h1 λ name _ h2. require-ok (is_basename name) _ _ h2 λ _ h3.
        >>=-ok (item d "sha256") _ h3 λ sha256 _ h4.
          >>=-ok (require_hex sha256 64 (label <> ".sha256")) _ h4 λ _ _ h5.
            >>=-ok (item d "size") _ h5 λ size _ h6.
              require-ok (is_positive_size size) _ _ h6 λ _ h7.
                require_exact_keys-dict value asset_fields label d keyed ∙ ap some (ok-injective h7)

refuted : (b : Bool) → not b ≡ true → b ≡ false
refuted b h = ground arith

add_asset-IsAdded :
    (entry : Object) (host : String) (seen : List String) (field : String) (t : List String)
    → add_asset entry host seen field ≡ ok t
    → IsAdded entry seen field t
unfolding add_asset name_in
add_asset-IsAdded entry host seen field t h = >>=-ok (item entry field) _ h λ value found h1.
    >>=-ok (validate_asset value (host <> "." <> field)) _ h1 λ asset checked h2.
      >>=-ok (item asset "name") _ h2 λ name_value given h3.
        >>=-ok (text_of name_value "runtime lock reuses asset name") _ h3 λ name texted h4.
          require-ok (not (contains seen name)) _ _ h4 λ new h5.
            let dict = validate_asset-dict value (host <> "." <> field) asset checked in
            let text = or_raise-some (as_str name_value) name _ texted in
            record {
              name = name;
              named = rw found (rw dict (rw given (rw text refl)));
              fresh = refuted (contains seen name) new;
              extended = ok-injective h5;
            }

-- The names of a host's four assets, the last first.
abbrev pub locked_names : String → String → List String
locked_names tag target =
    (archive_name tag target <> ".manifest.json.sigstore.json")
    ∷ (archive_name tag target <> ".sigstore.json")
    ∷ (archive_name tag target <> ".manifest.json")
    ∷ archive_name tag target
    ∷ []

-- The host's entry names its assets after the tag and the target.
pub record HasNames (hosts : Object) (tag : String) (h : String × String) : Type 0 where
  pub value : Value
  pub entry : Object
  pub at_host : item hosts h.0 ≡ ok value
  pub is_entry : as_dict value ≡ some entry
  pub archive : name_in entry "archive" ≡ ok (archive_name tag h.1)
  pub manifest : name_in entry "manifest" ≡ ok (archive_name tag h.1 <> ".manifest.json")
  pub archive_bundle :
      name_in entry "archive_bundle" ≡ ok (archive_name tag h.1 <> ".sigstore.json")
  pub manifest_bundle :
      name_in entry "manifest_bundle" ≡ ok (archive_name tag h.1 <> ".manifest.json.sigstore.json")

-- What one host adds.
pub record IsHostAdded (hosts : Object) (tag : String) (seen : List String) (h : String × String)
    (t : List String) : Type 0 where
  pub names : HasNames hosts tag h
  pub extended : t ≡ locked_names tag h.1 ++ seen
  pub distinct : IsNodup seen → IsNodup t

-- What check_names compared.
pub record AreChecked (entry : Object) (tag target : String) : Type 0 where
  pub archive : name_in entry "archive" ≡ ok (archive_name tag target)
  pub manifest : name_in entry "manifest" ≡ ok (archive_name tag target <> ".manifest.json")
  pub archive_bundle :
      name_in entry "archive_bundle" ≡ ok (archive_name tag target <> ".sigstore.json")
  pub manifest_bundle :
      name_in entry "manifest_bundle"
      ≡ ok (archive_name tag target <> ".manifest.json.sigstore.json")

pub check_names-AreChecked :
    (entry : Object) (host tag target : String)
    → check_names entry host tag target ≡ ok tt
    → AreChecked entry tag target
unfolding check_names
check_names-AreChecked entry host tag target h = >>=-ok (name_in entry "archive") _ h λ a ra h1.
    require-ok (a == archive_name tag target) _ _ h1 λ ea h2.
      >>=-ok (name_in entry "manifest") _ h2 λ m rm h3.
        require-ok (m == a <> ".manifest.json") _ _ h3 λ em h4.
          >>=-ok (name_in entry "archive_bundle") _ h4 λ b rb h5.
            require-ok (b == a <> ".sigstore.json") _ _ h5 λ eb h6.
              >>=-ok (name_in entry "manifest_bundle") _ h6 λ c rc h7.
                let ec = require_held (c == a <> ".manifest.json.sigstore.json") _ h7 in
                let a' = eq_of_test a (archive_name tag target) ea in
                record {
                  archive = ra ∙ ap ok a';
                  manifest =
                      rm
                      ∙ ap ok (
                          eq_of_test m (a <> ".manifest.json") em
                          ∙ ap (λ t. t <> ".manifest.json") a');
                  archive_bundle =
                      rb
                      ∙ ap ok (
                          eq_of_test b (a <> ".sigstore.json") eb
                          ∙ ap (λ t. t <> ".sigstore.json") a');
                  manifest_bundle =
                      rc
                      ∙ ap ok (
                          eq_of_test c (a <> ".manifest.json.sigstore.json") ec
                          ∙ ap (λ t. t <> ".manifest.json.sigstore.json") a');
                }

-- The four rounds over a host's assets.
pub record AreAdded (entry : Object) (seen t : List String) : Type 0 where
  pub archive : String
  pub manifest : String
  pub archive_bundle : String
  pub manifest_bundle : String
  pub archived : name_in entry "archive" ≡ ok archive
  pub manifested : name_in entry "manifest" ≡ ok manifest
  pub bundled : name_in entry "archive_bundle" ≡ ok archive_bundle
  pub signed : name_in entry "manifest_bundle" ≡ ok manifest_bundle
  pub extended : t ≡ manifest_bundle ∷ archive_bundle ∷ manifest ∷ archive ∷ seen
  pub distinct : IsNodup seen → IsNodup t

pub assets-AreAdded :
    (entry : Object) (host : String) (seen t : List String)
    → fold (add_asset entry host) seen asset_kinds ≡ ok t
    → AreAdded entry seen t
assets-AreAdded entry host seen t h = >>=-ok (add_asset entry host seen "archive") _ h λ s1 r1 h1.
    >>=-ok (add_asset entry host s1 "manifest") _ h1 λ s2 r2 h2.
      >>=-ok (add_asset entry host s2 "archive_bundle") _ h2 λ s3 r3 h3.
        >>=-ok (add_asset entry host s3 "manifest_bundle") _ h3 λ s4 r4 h4.
          let a = add_asset-IsAdded entry host seen "archive" s1 r1 in
          let m = add_asset-IsAdded entry host s1 "manifest" s2 r2 in
          let b = add_asset-IsAdded entry host s2 "archive_bundle" s3 r3 in
          let c = add_asset-IsAdded entry host s3 "manifest_bundle" s4 r4 in
          let last : s4 ≡ t = ok-injective h4 in
          let whole : t ≡ c.name ∷ b.name ∷ m.name ∷ a.name ∷ seen =
            sym last
            ∙ (sym c.extended
                ∙ (ap (λ s. c.name ∷ s) (sym b.extended)
                    ∙ (ap (λ s. c.name ∷ b.name ∷ s) (sym m.extended)
                        ∙ ap (λ s. c.name ∷ b.name ∷ m.name ∷ s) (sym a.extended)))) in
          record {
            archive = a.name;
            manifest = m.name;
            archive_bundle = b.name;
            manifest_bundle = c.name;
            archived = a.named;
            manifested = m.named;
            bundled = b.named;
            signed = c.named;
            extended = whole;
            distinct = λ d. subst IsNodup last (
                subst IsNodup c.extended (
                  c.fresh,
                  subst IsNodup b.extended (
                    b.fresh,
                    subst IsNodup m.extended (m.fresh, subst IsNodup a.extended (a.fresh, d)),
                  ),
                ));
          }
