-- ===== src/RuntimeLock/Accepted.antt =====
-- What an accepted runtime lock holds.
mod Assets
mod Released
use mathlib.Core.Path.{subst}
use aros_toolchains.Prelude.{
  String, Bool, true, false, not, List, [], ◌∷◌, ◌++◌, some, ok, lock_error, require-ok,
  require_held, >>=-ok, fold, All, IsNodup, contains, ltb, ◌<>◌, ◌==◌, string_eq, ok-injective,
  eq_of_test, ◌≡◌, refl, ap, sym, ◌∙◌, arith,
}
use aros_toolchains.Json.{
  Value, str, as_str, as_dict, is_str, item, or_raise, or_raise-some, has_exactly,
}
use aros_toolchains.Json.Inversion.{as_str-eq, is_str-eq}
use aros_toolchains.Text.{char_count}
use aros_toolchains.RuntimeLock.{
  Object, Release, host_targets, host_names, host_fields, lock_fields, require_exact_keys,
  require_hex, validate_asset, text_of, is_repository, is_positive_int, is_positive_size,
  is_basename, asset_fields, expected_workflow, expected_identity, issuer, check_release, name_in,
  add_asset, asset_kinds, archive_name, check_names, add_host, validate_lock,
}
use aros_toolchains.RuntimeLock.Accepted.Released.{IsReleased, check_release-IsReleased}
use aros_toolchains.RuntimeLock.Accepted.Assets.{
  require_exact_keys-dict, locked_names, HasNames, IsHostAdded, check_names-AreChecked,
  assets-AreAdded,
}

-- The name is new, and the next to be seen.
add_host-IsHostAdded :
    (hosts : Object) (tag : String) (seen : List String) (h : String × String) (t : List String)
    → add_host hosts tag seen h ≡ ok t
    → IsHostAdded hosts tag seen h t
unfolding add_host
add_host-IsHostAdded hosts tag seen (host, target) t h =
    >>=-ok (item hosts host) _ h λ value found h1.
      >>=-ok (require_exact_keys value host_fields host) _ h1 λ entry keyed h2.
        >>=-ok (item entry "target") _ h2 λ at _ h3. require-ok (is_str at target) _ _ h3 λ _ h4.
          >>=-ok (fold (add_asset entry host) seen asset_kinds) _ h4 λ s added h5.
            >>=-ok (check_names entry host tag target) _ h5 λ _ checked h6.
              let c = check_names-AreChecked entry host tag target checked in
              let a = assets-AreAdded entry host seen s added in
              let same : s ≡ t = ok-injective h6 in
              record {
                names = record {
                  value = value;
                  entry = entry;
                  at_host = found;
                  is_entry = require_exact_keys-dict value host_fields host entry keyed;
                  archive = c.archive;
                  manifest = c.manifest;
                  archive_bundle = c.archive_bundle;
                  manifest_bundle = c.manifest_bundle;
                };
                extended =
                    sym same
                    ∙ (a.extended
                        ∙ named seen a.archive a.manifest a.archive_bundle a.manifest_bundle
                            (ok-injective (sym a.archived ∙ c.archive))
                            (ok-injective (sym a.manifested ∙ c.manifest))
                            (ok-injective (sym a.bundled ∙ c.archive_bundle))
                            (ok-injective (sym a.signed ∙ c.manifest_bundle)));
                distinct = λ d. subst IsNodup same (a.distinct d);
              }
  where
    named :
        (seen : List String) (a m b c : String)
        → a ≡ archive_name tag target
        → m ≡ archive_name tag target <> ".manifest.json"
        → b ≡ archive_name tag target <> ".sigstore.json"
        → c ≡ archive_name tag target <> ".manifest.json.sigstore.json"
        → c ∷ b ∷ m ∷ a ∷ seen ≡ locked_names tag target ++ seen
    named seen a m b c ea em eb ec = rw (ea, em, eb, ec) refl

-- The release that the texts of a lock name.
pub record IsLocked (top : Object) : Type 0 where
  pub release : Release
  pub released : IsReleased top release
  pub hosts_value : Value
  pub hosts : Object
  pub at_hosts : item top "hosts" ≡ ok hosts_value
  pub are_hosts : as_dict hosts_value ≡ some hosts
  pub exact : has_exactly host_names hosts ≡ true
  pub named : All (HasNames hosts release.tag) host_targets
  pub distinct : IsNodup (
      locked_names release.tag "aarch64-apple-darwin"
      ++ (locked_names release.tag "aarch64-unknown-linux-gnu"
          ++ (locked_names release.tag "x86_64-unknown-linux-gnu" ++ [])))

-- An accepted lock has the hosts of `HOST_TARGETS` and no other; its tag is `v` and its version,
-- and its signer's workflow and certificate are the ones of its repository and that tag; each host
-- names its archive, manifest and the two bundles after the tag and the host's target; and the
-- twelve names differ.
pub validate_lock-IsLocked :
    (value : Value) (top : Object) → validate_lock value ≡ ok top → IsLocked top
unfolding validate_lock
validate_lock-IsLocked value top h =
    >>=-ok (require_exact_keys value lock_fields "runtime lock") _ h λ d _ h1.
      >>=-ok (check_release d) _ h1 λ r released h2.
        >>=-ok (item d "hosts") _ h2 λ hosts_value at_hosts h3.
          >>=-ok
            (or_raise (as_dict hosts_value)
              (lock_error "runtime lock hosts are not those expected"))
            _ h3
            λ hosts are_hosts h4. require-ok (has_exactly host_names hosts) _ _ h4 λ exact h5.
              >>=-ok (fold (add_host hosts r.tag) [] host_targets) _ h5 λ seen looped h6.
                subst IsLocked (ok-injective h6) (
                  with_hosts d r hosts_value hosts (check_release-IsReleased d r released) at_hosts
                    (or_raise-some (as_dict hosts_value) hosts _ are_hosts) exact seen looped)
  where
    with_hosts :
        (d : Object) (r : Release) (hosts_value : Value) (hosts : Object)
        → IsReleased d r
        → item d "hosts" ≡ ok hosts_value
        → as_dict hosts_value ≡ some hosts
        → has_exactly host_names hosts ≡ true
        → (seen : List String) → fold (add_host hosts r.tag) [] host_targets ≡ ok seen
        → IsLocked d
    with_hosts d r hosts_value hosts released at_hosts are_hosts exact seen looped =
        >>=-ok (add_host hosts r.tag [] ("linux-x86_64", "x86_64-unknown-linux-gnu")) _ looped
          λ s1 r1 h1.
            >>=-ok (add_host hosts r.tag s1 ("linux-aarch64", "aarch64-unknown-linux-gnu")) _ h1
              λ s2 r2 h2.
                >>=-ok (add_host hosts r.tag s2 ("macos-aarch64", "aarch64-apple-darwin")) _ h2
                  λ s3 r3 h3.
                    let a = add_host-IsHostAdded hosts r.tag [] _ s1 r1 in
                    let b = add_host-IsHostAdded hosts r.tag s1 _ s2 r2 in
                    let c = add_host-IsHostAdded hosts r.tag s2 _ s3 r3 in
                    record {
                      release = r;
                      released = released;
                      hosts_value = hosts_value;
                      hosts = hosts;
                      at_hosts = at_hosts;
                      are_hosts = are_hosts;
                      exact = exact;
                      named = (a.names, (b.names, (c.names, tt)));
                      distinct =
                          subst IsNodup
                            (c.extended
                              ∙ (ap (λ s. locked_names r.tag "aarch64-apple-darwin" ++ s) b.extended
                                  ∙ ap
                                      (λ s.
                                        locked_names r.tag "aarch64-apple-darwin"
                                        ++ (locked_names r.tag "aarch64-unknown-linux-gnu" ++ s))
                                      a.extended))
                            (c.distinct (b.distinct (a.distinct tt)));
                    }
