-- ===== src/ReleaseAdmission/Admit/Fit/Digests.antt =====
-- The digests of the committed inputs.
use mathlib.Core.Path.{subst}
use aros_toolchains.Prelude.{
  ℕ, String, true, ◌&&◌, List, [], ◌∷◌, ok, Dict, keys, map, all, contains, All, string_eq,
  ok-injective, ◌==◌, ◌≡◌, refl, ap, sym, ◌∙◌,
}
use aros_toolchains.Json.{has_exactly}
use aros_toolchains.ReleaseAdmission.Checks.{is_sha256, input_paths, max_local_input_bytes}
use aros_toolchains.ReleaseAdmission.Session.{
  World, Session, ◌>>=◌, pure, lift, each, attempt, next-ok, parse_json, committed_input,
}
use aros_toolchains.ReleaseAdmission.Session.Returned.{hold-ok}
use aros_toolchains.ReleaseAdmission.Inputs.{
  Inputs, content, manifest_version, decode_version, is_version_file, tools_commit_of,
  load_runtime_validator, check_lock, input_context,
}

-- Exactly the paths of INPUT_PATHS, each with a digest.
pub record AreDigests (digests : Dict String String) : Type 0 where
  pub exact : has_exactly input_paths digests ≡ true
  pub digested : All (λ e. is_sha256 e.1 ≡ true) digests

abbrev read_input : String → Session (String × List ℕ)
read_input path = committed_input path >>= λ raw. pure (path, raw)

keys-each :
    (paths : List String) (w : World) (n m : ℕ) (contents : Dict String (List ℕ))
    → each read_input paths w n ≡ ok (contents, m)
    → keys contents ≡ paths
keys-each [] w n m contents h =
    let same : ◌≡◌ {A = Dict String (List ℕ) × ℕ} ([], n) (contents, m) = ok-injective h in
    sym (ap (λ (t : Dict String (List ℕ) × ℕ). keys t.0) same)
keys-each (p ∷ paths) w n m contents h = next-ok (read_input p w n) _ h λ e n1 read h1.
    next-ok (each read_input paths w n1) _ h1 λ es n2 rest h2.
      let same : ◌≡◌ {A = Dict String (List ℕ) × ℕ} (e ∷ es, n2) (contents, m) = ok-injective h2 in
      sym (ap (λ (t : Dict String (List ℕ) × ℕ). keys t.0) same)
      ∙ (ap (λ t. t ∷ keys es) (named e n1 read)
          ∙ ap (λ t. p ∷ t) (keys-each paths w n1 n2 es rest))
  where
    named : (e : String × List ℕ) (k : ℕ) → read_input p w n ≡ ok (e, k) → e.0 ≡ p
    named e k r = next-ok (committed_input p w n) _ r λ raw j _ r1.
        let same : ◌≡◌ {A = (String × List ℕ) × ℕ} ((p, raw), j) (e, k) = ok-injective r1 in
        sym (ap (λ (t : (String × List ℕ) × ℕ). t.0.0) same)

itself : (all (contains input_paths) input_paths && all (contains input_paths) input_paths) ≡ true
unfolding string_eq
itself = refl

module _ (sha256 : List ℕ → String) (fits : (raw : List ℕ) → is_sha256 (sha256 raw) ≡ true) where
  abbrev digests_of : Dict String (List ℕ) → Dict String String
  digests_of contents = map (λ e. (e.0, sha256 e.1)) contents

  keys-digests_of : (contents : Dict String (List ℕ)) → keys (digests_of contents) ≡ keys contents
  keys-digests_of [] = refl
  keys-digests_of ((path, raw) ∷ contents) = ap (λ t. path ∷ t) (keys-digests_of contents)

  all_digested :
      (contents : Dict String (List ℕ)) → All (λ e. is_sha256 e.1 ≡ true) (digests_of contents)
  all_digested [] = tt
  all_digested ((path, raw) ∷ contents) = (fits raw, all_digested contents)

  digests_of-AreDigests :
      (contents : Dict String (List ℕ))
      → keys contents ≡ input_paths
      → AreDigests (digests_of contents)
  digests_of-AreDigests contents h = record {
    exact = exactly (digests_of contents) (keys-digests_of contents ∙ h);
    digested = all_digested contents;
  }
    where
      exactly : (d : Dict String String) → keys d ≡ input_paths → has_exactly input_paths d ≡ true
      exactly d e =
          ap (λ ks. all (contains input_paths) ks && all (contains ks) input_paths) e ∙ itself

pub input_context-AreDigests :
    (w : World) (n m : ℕ) (version : String) (inputs : Inputs)
    → ((raw : List ℕ) → is_sha256 (w.sha256 raw) ≡ true)
    → input_context version w n ≡ ok (inputs, m)
    → AreDigests inputs.digests
unfolding input_context
input_context-AreDigests w n m version inputs fits h =
    next-ok (each read_input input_paths w n) _ h λ contents n1 read h1.
      next-ok
        (parse_json (content contents ".release-please-manifest.json") "committed release manifest"
          max_local_input_bytes w n1)
        _ h1
        λ manifest n2 _ h2.
          next-ok (decode_version (content contents "version.txt") w n2) _ h2 λ file n3 _ h3.
            next-ok
              (parse_json (content contents "toolchains/compiler-sdk-ci-selection-v2.json")
                "committed CI selection" max_local_input_bytes w n3)
              _ h3
              λ selection n4 _ h4.
                next-ok
                  (parse_json (content contents "toolchains/aros-tools-runtime-v1.json")
                    "committed runtime lock" max_local_input_bytes w n4)
                  _ h4
                  λ runtime_lock n5 _ h5.
                    next-ok (manifest_version manifest w n5) _ h5 λ found n6 _ h6.
                      hold-ok (found == version && is_version_file file found)
                        "committed version.txt differs from the release manifest" w n6 _ h6
                        λ _ h7. next-ok (tools_commit_of selection w n6) _ h7 λ commit n7 _ h8.
                          next-ok (load_runtime_validator w n7) _ h8 λ validate n8 _ h9.
                            next-ok
                              (attempt (lift (validate runtime_lock))
                                "committed aros-tools runtime lock is invalid" w n8)
                              _ h9
                              λ lock n9 _ h10.
                                next-ok (check_lock lock commit w n9) _ h10 λ _ n10 _ h11.
                                  let same = ok-injective h11 in
                                  subst AreDigests (ap (λ t. t.0.digests) same) (
                                    digests_of-AreDigests w.sha256 fits contents
                                      (keys-each input_paths w n n1 contents read))
