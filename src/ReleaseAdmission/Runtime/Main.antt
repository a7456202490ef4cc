-- ===== src/ReleaseAdmission/Runtime/Main.antt =====
-- What an accepted observation of the main branch says.
use aros_toolchains.Prelude.{
  ℕ, suc, String, true, false, some, ok, admission_error, ◌<>◌, ◌==◌, string_eq, ok-injective,
  eq_of_test, ◌≡◌, ap, sym, ◌∙◌,
}
use aros_toolchains.Json.{Value, bool, str, get, is_true, as_dict, as_str, or_raise, or_raise-some}
use aros_toolchains.Json.Inversion.{is_true-eq, as_str-eq}
use aros_toolchains.ReleaseAdmission.Checks.{Object, own_repository, is_oid, required_object}
use aros_toolchains.ReleaseAdmission.Session.{World, answered}
use aros_toolchains.ReleaseAdmission.Session.Returned.{lift-ok, hold-ok, api-ok, answered_lem}
use aros_toolchains.ReleaseAdmission.Runtime.{require_main}

abbrev pub main_path : String
main_path = "repos/" <> own_repository <> "/branches/main"

-- The answer to the request `n` says that main is protected and at the commit.
pub record IsMain (w : World) (n : ℕ) (head : String) : Type 0 where
  pub response : Value
  pub answer : w.reply n main_path ≡ answered response
  pub branch : Object
  pub is_branch : as_dict response ≡ some branch
  pub protected : get branch "protected" ≡ bool true
  pub commit : Object
  pub is_commit : as_dict (get branch "commit") ≡ some commit
  pub at_head : get commit "sha" ≡ str head

pub required_object_lem :
    (v : Value) (label : String) (d : Object) → required_object v label ≡ ok d → as_dict v ≡ some d
unfolding required_object
required_object_lem v label d h = or_raise-some (as_dict v) d _ h

pub require_main-IsMain :
    (w : World) (n m : ℕ) (head : String)
    → require_main head w n ≡ ok (true, m)
    → (m ≡ suc n) × IsMain w n head
unfolding require_main
require_main-IsMain w n m head h = api-ok main_path false false w n _ h λ response replied h1.
    lift-ok (required_object response "main branch metadata") w (suc n) _ h1 λ branch is_branch h2.
      hold-ok (is_true (get branch "protected")) "main is not protected" w (suc n) _ h2
        λ protected h3.
          lift-ok
            (or_raise (as_dict (get branch "commit"))
              (admission_error "provider main commit metadata is malformed"))
            w (suc n) _ h3
            λ commit is_commit h4.
              lift-ok
                (or_raise (as_str (get commit "sha"))
                  (admission_error "provider main commit metadata is malformed"))
                w (suc n) _ h4
                λ sha is_sha h5.
                  hold-ok (is_oid sha) "provider main commit metadata is malformed" w (suc n) _ h5
                    λ _ h6.
                      let same : (sha == head, suc n) ≡ (true, m) = ok-injective h6 in
                      (
                        sym (ap (λ t. t.1) same),
                        record {
                          response = response;
                          answer = answered_lem (w.reply n main_path) main_path response replied;
                          branch = branch;
                          is_branch =
                              required_object_lem response "main branch metadata" branch is_branch;
                          protected = is_true-eq (get branch "protected") protected;
                          commit = commit;
                          is_commit =
                              or_raise-some (as_dict (get branch "commit")) commit _ is_commit;
                          at_head =
                              as_str-eq (get commit "sha") sha
                                (or_raise-some (as_str (get commit "sha")) sha _ is_sha)
                              ∙ ap str (eq_of_test sha head (ap (λ t. t.0) same));
                        },
                      )
