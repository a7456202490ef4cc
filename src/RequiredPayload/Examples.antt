-- ===== src/RequiredPayload/Examples.antt =====
-- Runs of required-compiler-payload-v2.py on the plan of the release matrix examples.
use aros_toolchains.Prelude.{
  String, List, [], ◌∷◌, ok, raise, policy_error, string_eq, list_eq, nat_eq, pair_eq, Dict, ◌≡◌,
  refl,
}
use aros_toolchains.Json.{Value, str, object, array, strings}
use aros_toolchains.Text.Order.{string_ord}
use aros_toolchains.ReleaseMatrix.{is_safe_id, is_profile_id, is_sdk_id, is_sdk_profile_id}
use aros_toolchains.ReleaseMatrix.Examples.{digest, commit, plan, hosts, validated, constant_digest}
use aros_toolchains.ReleaseMatrix.Project.{Projection, assemble}
use aros_toolchains.RequiredPayload.{Selection, Selected, request_of, select_required_payload}
use aros_toolchains.RequiredPayload.Documents.{validate_path, validate_policy, PolicyGroup}
use aros_toolchains.RequiredPayload.Selections.{IsSelected, select_required_payload-IsSelected}

drive_path_refused :
    validate_path (str "c:/bin/cc")
    ≡ raise (policy_error "required path is not a safe relative file path")
unfolding validate_path string_eq nat_eq
drive_path_refused = refl

abbrev paths : List String
paths = "bin/cc" ∷ "lib/crt0.o" ∷ []

abbrev policy : Value
policy = object (
    ("schema", str "aros-toolchain-required-payload-v1")
    ∷ (
      "groups",
      array (
          object (
            ("group_id", str "gnu")
            ∷ ("source_lock_sha256", str digest)
            ∷ ("profiles_sha256", str digest)
            ∷ ("profiles", object (("pc-x86_64", strings paths) ∷ []))
            ∷ [])
          ∷ []),
    )
    ∷ [])

abbrev groups : Dict String PolicyGroup
groups =
    (
      "gnu",
      record {
        source_lock_sha256 = digest;
        profiles_sha256 = digest;
        profiles = ("pc-x86_64", paths) ∷ [];
      },
    )
    ∷ []

policy_accepted : validate_policy policy ≡ ok groups
unfolding validate_policy string_eq list_eq nat_eq is_safe_id is_profile_id string_ord
policy_accepted = refl

projection : Projection
unfolding assemble
projection = assemble (request_of digest digest commit commit) hosts validated

abbrev selection_on : String → Selection
selection_on host = record {
  group_id = "gnu";
  host = host;
  target_profile = "pc-x86_64";
  required_paths = paths;
}

abbrev selected : Selected
selected = record {
  selected_policy_sha256 = digest;
  projection = projection;
  selections =
      selection_on "linux-aarch64"
      ∷ selection_on "linux-x86_64"
      ∷ selection_on "macos-aarch64"
      ∷ [];
}

payload_selected :
    select_required_payload constant_digest [] policy digest [] plan digest digest commit commit
    ≡ ok selected
unfolding select_required_payload projection string_eq list_eq nat_eq pair_eq is_safe_id
    is_profile_id is_sdk_id is_sdk_profile_id string_ord
payload_selected = refl

select_required_payload-IsSelected_example :
    IsSelected constant_digest [] digest [] plan digest digest commit commit selected
select_required_payload-IsSelected_example =
    select_required_payload-IsSelected constant_digest [] policy digest [] plan digest digest commit
      commit selected payload_selected
