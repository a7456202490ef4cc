-- ===== src/ArtifactOrigin/Examples.antt =====
-- Runs of artifact-origin.py on small inventories and observations.
use aros_toolchains.Prelude.{
  ℕ, ◌<◌, ◌≤◌, ◌<>◌, String, false, List, [], ◌∷◌, ok, raise, origin_error, string_eq, list_eq,
  nat_eq, pair_eq, ◌≡◌, refl,
}
use aros_toolchains.Json.{Value, int, pos, str, bool, array, object}
use aros_toolchains.Sorted.{nat_ord}
use aros_toolchains.ArtifactOrigin.Provider.{
  Context, SelectedJob, positive, select_job, select_artifact,
}
use aros_toolchains.ArtifactOrigin.Token.{Claims, require_oidc_claims}
use aros_toolchains.ArtifactOrigin.Token.Bound.{IsBound, require_oidc_claims-IsBound}
use aros_toolchains.ArtifactOrigin.Provider.Numbers.{IsNumber, positive-IsNumber}
use aros_toolchains.ArtifactOrigin.Provider.Jobs.{IsOwner, select_job-IsOwner}
use aros_toolchains.ArtifactOrigin.{Place, directory, kind_eq, require_portable_inventory, places}
use aros_toolchains.ArtifactOrigin.Inventory.{require_portable_inventory_unaliased}

abbrev names : List String
names = "bin/gcc" ∷ "bin/ld" ∷ "lib/crt0.o" ∷ []

names_accepted : require_portable_inventory names ≡ ok tt
unfolding require_portable_inventory string_eq list_eq nat_eq pair_eq kind_eq
names_accepted = refl

case_alias_refused :
    require_portable_inventory ("bin/gcc" ∷ "Bin/ld" ∷ [])
    ≡ raise (origin_error "signed paths are case-aliased or have file/directory conflicts")
unfolding require_portable_inventory string_eq list_eq nat_eq pair_eq kind_eq
case_alias_refused = refl

file_above_refused :
    require_portable_inventory ("bin" ∷ "bin/ld" ∷ [])
    ≡ raise (origin_error "signed paths are case-aliased or have file/directory conflicts")
unfolding require_portable_inventory string_eq list_eq nat_eq pair_eq kind_eq
file_above_refused = refl

abbrev bin : Place
bin = ("bin", directory)

require_portable_inventory_unaliased_example : bin ≡ bin
unfolding places string_eq nat_eq pair_eq kind_eq
require_portable_inventory_unaliased_example =
    require_portable_inventory_unaliased names bin bin names_accepted refl refl refl

abbrev pub context : Context
context = record {
  repository = "metaneutrons/aros-toolchains";
  repository_id = 7;
  producer_commit = "0123456789abcdef0123456789abcdef01234567";
  source_ref = "refs/tags/v1";
  workflow = ".github/workflows/toolchain-release.yml";
  run_id = 17;
  run_attempt = 1;
}

abbrev job : ℕ → String → Value
job id url = object (
    ("id", int (pos id))
    ∷ ("check_run_url", str url)
    ∷ ("name", str "Native compiler")
    ∷ ("head_sha", str "0123456789abcdef0123456789abcdef01234567")
    ∷ ("run_id", int (pos 17))
    ∷ ("status", str "completed")
    ∷ ("conclusion", str "success")
    ∷ [])

abbrev pub pages : Value
pages = array (
    object (
      ("total_count", int (pos 2))
      ∷ (
        "jobs",
        array (
            job 41 "https://api.github.com/repos/metaneutrons/aros-toolchains/check-runs/91"
            ∷ job 42 "https://api.github.com/repos/metaneutrons/aros-toolchains/check-runs/92"
            ∷ []),
      )
      ∷ [])
    ∷ [])

abbrev pub selected : SelectedJob
selected = record { id = 42; check_run_id = 92; name = "Native compiler" }

job_selected : select_job pages context 92 "Native compiler" "completed" ≡ ok selected
unfolding select_job string_eq nat_eq nat_ord
job_selected = refl

no_such_check :
    select_job pages context 93 "Native compiler" "completed"
    ≡ raise (origin_error "OIDC check ID does not select exactly one owning job")
unfolding select_job string_eq nat_eq nat_ord
no_such_check = refl

abbrev pub digest : String
digest = "0123456789abcdef0123456789abcdef0123456789abcdef0123456789abcdef"

artifact_selected :
    select_artifact
      (object (
        ("id", int (pos 5))
        ∷ ("name", str "native")
        ∷ ("digest", str ("sha256:" <> digest))
        ∷ ("expired", bool false)
        ∷ ("size_in_bytes", int (pos 1000))
        ∷ (
          "workflow_run",
          object (
              ("id", int (pos 17))
              ∷ ("head_sha", str "0123456789abcdef0123456789abcdef01234567")
              ∷ ("repository_id", int (pos 7))
              ∷ ("head_repository_id", int (pos 7))
              ∷ []),
        )
        ∷ []))
      context
      5
      "native"
      digest
    ≡ ok (record { id = 5; name = "native"; sha256 = digest; size_in_bytes = 1000 })
unfolding select_artifact string_eq nat_eq
artifact_selected = refl

select_job-IsOwner_example : IsOwner pages context 92 "Native compiler" "completed" selected
select_job-IsOwner_example =
    select_job-IsOwner pages context 92 "Native compiler" "completed" selected job_selected

number_read : positive (str "42") ≡ ok 42
unfolding positive
number_read = refl

positive-IsNumber_example : IsNumber (str "42") 42 × (0 < 42) × (42 ≤ 9007199254740991)
positive-IsNumber_example = positive-IsNumber (str "42") 42 number_read

abbrev claims_until : ℕ → Claims
claims_until expires =
    ("iss", str "https://token.actions.githubusercontent.com")
    ∷ ("aud", str "aros-toolchain-artifact-origin")
    ∷ ("event_name", str "push")
    ∷ ("repository", str "metaneutrons/aros-toolchains")
    ∷ ("sha", str "0123456789abcdef0123456789abcdef01234567")
    ∷ ("ref", str "refs/tags/v1")
    ∷ (
      "workflow_ref",
      str "metaneutrons/aros-toolchains/.github/workflows/toolchain-release.yml@refs/tags/v1",
    )
    ∷ ("workflow_sha", str "0123456789abcdef0123456789abcdef01234567")
    ∷ ("runner_environment", str "github-hosted")
    ∷ ("repository_id", str "7")
    ∷ ("run_id", str "17")
    ∷ ("run_attempt", str "1")
    ∷ ("iat", int (pos 1000))
    ∷ ("nbf", int (pos 1000))
    ∷ ("exp", int (pos expires))
    ∷ ("check_run_id", str "92")
    ∷ []

token_accepted : require_oidc_claims (object (claims_until 1300)) context 1010 "push" ≡ ok 92
unfolding require_oidc_claims string_eq nat_eq
token_accepted = refl

expired_refused :
    require_oidc_claims (object (claims_until 1040)) context 1010 "push"
    ≡ raise (origin_error "OIDC token is expired or outside its time bound")
unfolding require_oidc_claims string_eq nat_eq
expired_refused = refl

require_oidc_claims-IsBound_example : IsBound (claims_until 1300) context 1010 "push" 92
require_oidc_claims-IsBound_example =
    require_oidc_claims-IsBound (object (claims_until 1300)) context 1010 "push" 92
      (claims_until 1300) refl token_accepted
