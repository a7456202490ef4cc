-- ===== src/RuntimeLock/Accepted/Released.antt =====
-- The release that an accepted lock of validate_lock names.
use mathlib.Core.Path.{subst}
use aros_toolchains.Prelude.{
  true, ok, require-ok, >>=-ok, ltb, ◌<>◌, string_eq, ok-injective, ◌≡◌, refl, ap, ◌∙◌,
}
use aros_toolchains.Json.{str, as_str, is_str, item, or_raise-some}
use aros_toolchains.Json.Inversion.{as_str-eq, is_str-eq}
use aros_toolchains.Text.{char_count}
use aros_toolchains.RuntimeLock.{
  Object, Release, require_hex, text_of, is_repository, is_positive_int, expected_workflow,
  expected_identity, issuer, check_release,
}

pub record IsReleased (top : Object) (r : Release) : Type 0 where
  pub at_repository : item top "repository" ≡ ok (str r.repository)
  pub is_name : is_repository r.repository ≡ true
  pub at_version : item top "version" ≡ ok (str r.version)
  pub is_tag : r.tag ≡ "v" <> r.version
  pub at_tag : item top "tag" ≡ ok (str r.tag)
  pub at_signer : item top "signer_workflow" ≡ ok (str (expected_workflow r.repository))
  pub at_identity :
      item top "certificate_identity" ≡ ok (str (expected_identity r.repository r.tag))

pub check_release-IsReleased :
    (top : Object) (r : Release) → check_release top ≡ ok r → IsReleased top r
unfolding check_release
check_release-IsReleased top r h = >>=-ok (item top "schema") _ h λ schema _ h1.
    require-ok (is_str schema "aros-tools-runtime-v1") _ _ h1 λ _ h2.
      >>=-ok (item top "repository") _ h2 λ repository_value at_repository h3.
        >>=-ok (text_of repository_value "runtime lock repository must be an OWNER/REPO name") _ h3
          λ repository is_repo h4. require-ok (is_repository repository) _ _ h4 λ is_name h5.
            >>=-ok (item top "release_id") _ h5 λ release_id _ h6.
              require-ok (is_positive_int release_id) _ _ h6 λ _ h7.
                >>=-ok (item top "version") _ h7 λ version_value at_version h8.
                  >>=-ok (text_of version_value "runtime lock version must be non-empty") _ h8
                    λ version is_version h9. require-ok (ltb 0 (char_count version)) _ _ h9 λ _ h10.
                      >>=-ok (item top "tag") _ h10 λ tag at_tag h11.
                        require-ok (is_str tag ("v" <> version)) _ _ h11 λ is_tag h12.
                          >>=-ok (item top "tag_object") _ h12 λ tag_object _ h13.
                            >>=-ok (require_hex tag_object 40 "runtime lock tag_object") _ h13
                              λ _ _ h14.
                                >>=-ok (item top "source_commit") _ h14 λ source_commit _ h15.
                                  >>=-ok (require_hex source_commit 40 "runtime lock source_commit")
                                    _ h15
                                    λ _ _ h16.
                                      >>=-ok (item top "source_tree") _ h16 λ source_tree _ h17.
                                        >>=-ok
                                          (require_hex source_tree 40 "runtime lock source_tree") _
                                          h17
                                          λ _ _ h18.
                                            >>=-ok (item top "source_date_epoch") _ h18
                                              λ epoch _ h19.
                                                require-ok (is_positive_int epoch) _ _ h19 λ _ h20.
                                                  >>=-ok (item top "signer_workflow") _ h20
                                                    λ signer at_signer h21.
                                                      require-ok
                                                        (is_str signer
                                                          (expected_workflow repository))
                                                        _ _ h21
                                                        λ is_signer h22.
                                                          >>=-ok (item top "certificate_identity") _
                                                            h22
                                                            λ identity at_identity h23.
                                                            require-ok
                                                            (is_str identity (
                                                            expected_identity repository
                                                            ("v" <> version)))
                                                            _ _ h23
                                                            λ is_identity h24.
                                                            >>=-ok
                                                            (item top "certificate_oidc_issuer") _
                                                            h24
                                                            λ oidc _ h25.
                                                            require-ok (is_str oidc issuer) _ _ h25
                                                            λ _ h26.
                                                            let made : Release = record {
                                                            repository = repository;
                                                            version = version;
                                                            tag = "v" <> version;
                                                            } in
                                                            let texted : IsReleased top made =
                                                            record {
                                                            at_repository =
                                                            at_repository
                                                            ∙ ap ok (
                                                            as_str-eq repository_value repository (
                                                            or_raise-some (as_str repository_value)
                                                            repository _ is_repo));
                                                            is_name = is_name;
                                                            at_version =
                                                            at_version
                                                            ∙ ap ok (
                                                            as_str-eq version_value version (
                                                            or_raise-some (as_str version_value)
                                                            version _ is_version));
                                                            is_tag = refl;
                                                            at_tag =
                                                            at_tag
                                                            ∙ ap ok
                                                            (is_str-eq tag ("v" <> version) is_tag);
                                                            at_signer =
                                                            at_signer
                                                            ∙ ap ok (
                                                            is_str-eq signer
                                                            (expected_workflow repository)
                                                            is_signer);
                                                            at_identity =
                                                            at_identity
                                                            ∙ ap ok (
                                                            is_str-eq identity
                                                            (expected_identity repository
                                                            ("v" <> version))
                                                            is_identity);
                                                            } in
                                                            subst (IsReleased top)
                                                            (ok-injective h26) texted

-- A lock of a release with its hosts.
