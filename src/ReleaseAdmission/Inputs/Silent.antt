-- ===== src/ReleaseAdmission/Inputs/Silent.antt =====
-- The event and the checkout are read without a request, and on the main branch only.
use mathlib.Core.Path.{subst}
use aros_toolchains.Prelude.{
  ℕ, List, String, true, ◌&&◌, not, if◌then◌else◌, Option, none, some, Result, ok, admission_error,
  ◌==◌, string_eq, both_true, ok-injective, eq_of_test, Bool-cases, inl, inr, ◌≡◌, ap, arith, sym,
  ◌∙◌,
}
use aros_toolchains.Json.{Value, get, as_str, or_raise}
use aros_toolchains.ReleaseAdmission.Checks.{
  own_repository, main_ref, is_semver, max_event_bytes, max_local_input_bytes, required_object,
}
use aros_toolchains.ReleaseAdmission.Session.{World, next-ok, parse_json, committed_input}
use aros_toolchains.ReleaseAdmission.Session.Returned.{
  lift-ok, hold-ok, parse_json_silent, committed_input_silent,
}
use aros_toolchains.ReleaseAdmission.Inputs.{
  Event, dispatched, root_package, manifest_version, decode_version, is_version_file,
  committed_release_version, event_of, read_event, event_context,
}

event_of_silent :
    (document : Value) (head : String) (w : World) (n m : ℕ) (e : Option Event)
    → event_of document head w n ≡ ok (e, m)
    → m ≡ n
unfolding event_of
event_of_silent document head w n m e h =
    lift-ok (required_object document "workflow_run event") w n _ h λ event _ h1.
      lift-ok (required_object (get event "workflow_run") "workflow_run event object") w n _ h1
        λ run _ h2. sym (ap (λ t. t.1) (ok-injective h2))

read_event_silent :
    (head : String) (w : World) (n m : ℕ) (e : Option Event)
    → read_event head w n ≡ ok (e, m)
    → m ≡ n
unfolding read_event
read_event_silent head w n m e h =
    lift-ok (or_raise w.event_file (admission_error "workflow_run event metadata is unavailable")) w
      n _ h
      λ raw _ h1.
        next-ok (parse_json raw "workflow_run event" max_event_bytes w n) _ h1 λ document k read h2.
          event_of_silent document head w k m e h2
          ∙ parse_json_silent raw "workflow_run event" max_event_bytes w n k document read

-- An event was found: it is one of the repository's main branch.
pub record IsOwnEvent (w : World) (n m : ℕ) : Type 0 where
  pub silent : m ≡ n
  pub own : w.repository ≡ own_repository
  pub main : w.ref ≡ main_ref

pub event_context-IsOwnEvent :
    (head : String) (w : World) (n m : ℕ) (e : Event)
    → event_context head w n ≡ ok (some e, m)
    → IsOwnEvent w n m
unfolding event_context
event_context-IsOwnEvent head w n m e h =
    elim (Bool-cases (w.repository == own_repository && w.ref == main_ref)) [
      | inr foreign ↦ absurd (none_found (rw foreign at h))
      | inl ours ↦
          let parts = both_true (w.repository == own_repository) (w.ref == main_ref) ours in
          record {
            silent = named (rw ours at h);
            own = eq_of_test w.repository own_repository parts.0;
            main = eq_of_test w.ref main_ref parts.1;
          }
    ]
  where
    none_found : ◌≡◌ {A = Result (Option Event × ℕ)} (ok (none, n)) (ok (some e, m)) → ⊥
    none_found h = cc

    named :
        (if w.event_name == "workflow_dispatch"
            then ok (some dispatched, n)
            else if not (w.event_name == "workflow_run")
            then ok (none, n)
            else read_event head w n)
          ≡ ok (some e, m)
        → m ≡ n
    named h = ground (arith, h, read_event_silent head w n m (some e))

decode_version_silent :
    (raw : List ℕ) (w : World) (n m : ℕ) (text : String)
    → decode_version raw w n ≡ ok (text, m)
    → m ≡ n
unfolding decode_version
decode_version_silent raw w n m text h = ground arith

-- The committed version is a version number of three parts.
pub record IsVersion (n m : ℕ) (version : String) : Type 0 where
  pub silent : m ≡ n
  pub semver : is_semver version ≡ true

manifest_version-IsVersion :
    (manifest : Value) (w : World) (n m : ℕ) (version : String)
    → manifest_version manifest w n ≡ ok (version, m)
    → IsVersion n m version
unfolding manifest_version
manifest_version-IsVersion manifest w n m version h =
    lift-ok
      (or_raise (root_package manifest)
        (admission_error "committed release manifest must contain only the root package"))
      w n _ h
      λ root _ h1.
        lift-ok
          (or_raise (as_str root)
            (admission_error "committed release version is not canonical stable SemVer"))
          w n _ h1
          λ text _ h2.
            hold-ok (is_semver text) "committed release version is not canonical stable SemVer" w n
              _ h2
              λ semver h3.
                let same : (text, n) ≡ (version, m) = ok-injective h3 in
                record {
                  silent = sym (ap (λ t. t.1) same);
                  semver = subst (λ v. is_semver v ≡ true) (ap (λ t. t.0) same) semver;
                }

pub committed_release_version-IsVersion :
    (w : World) (n m : ℕ) (version : String)
    → committed_release_version w n ≡ ok (version, m)
    → IsVersion n m version
unfolding committed_release_version
committed_release_version-IsVersion w n m version h =
    next-ok (committed_input ".release-please-manifest.json" w n) _ h λ raw n1 r1 h1.
      next-ok (parse_json raw "committed release manifest" max_local_input_bytes w n1) _ h1
        λ manifest n2 r2 h2.
          next-ok (committed_input "version.txt" w n2) _ h2 λ version_raw n3 r3 h3.
            next-ok (decode_version version_raw w n3) _ h3 λ file n4 r4 h4.
              next-ok (manifest_version manifest w n4) _ h4 λ text n5 r5 h5.
                hold-ok (is_version_file file text)
                  "committed version.txt differs from the release manifest" w n5 _ h5
                  λ _ h6.
                    let found = manifest_version-IsVersion manifest w n4 n5 text r5 in
                    let same : (text, n5) ≡ (version, m) = ok-injective h6 in
                    record {
                      silent =
                          sym (ap (λ t. t.1) same)
                          ∙ (found.silent
                              ∙ (decode_version_silent version_raw w n3 n4 file r4
                                  ∙ (committed_input_silent "version.txt" w n2 n3 version_raw r3
                                      ∙ (parse_json_silent raw "committed release manifest"
                                            max_local_input_bytes w n1 n2 manifest r2
                                          ∙ committed_input_silent ".release-please-manifest.json" w
                                              n n1 raw r1))));
                      semver = subst (λ v. is_semver v ≡ true) (ap (λ t. t.0) same) found.semver;
                    }
