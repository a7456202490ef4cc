-- ===== src/ReleaseMatrix/Examples.antt =====
-- Runs of select-release-matrix-v2.py on a small plan, and the theorems at it.
use aros_toolchains.Prelude.{
  ℕ, String, true, false, List, [], ◌∷◌, none, ok, string_eq, list_eq, nat_eq, pair_eq, Dict, keys,
  map, IsNodup, ◌↔◌, ◌≡◌, refl,
}
use aros_toolchains.Json.{Value, int, str, pos, array, object, strings}
use aros_toolchains.Sorted.{ascends}
use aros_toolchains.Text.Order.{string_ord}
use aros_toolchains.ReleaseMatrix.{
  active_hosts, is_safe_id, is_profile_id, is_sdk_id, is_sdk_profile_id,
}
use aros_toolchains.ReleaseMatrix.Lanes.{Lane}
use aros_toolchains.ReleaseMatrix.Plan.{Expected, Validated, validate_plan}
use aros_toolchains.ReleaseMatrix.Plan.Grid.{validate_plan_grid}
use aros_toolchains.ReleaseMatrix.Lanes.Crossing.Grid.{crossing}
use aros_toolchains.ReleaseMatrix.Project.{
  Request, Projection, select_scope, verify_entry, assemble, project,
}
use aros_toolchains.ReleaseMatrix.Project.Scope.{Route, select_scope_iff}
use aros_toolchains.ReleaseMatrix.Project.Complete.{
  expected_of, build_key, verify_key, project_complete, project_distinct,
}

abbrev pub digest : String
digest = "0123456789abcdef0123456789abcdef0123456789abcdef0123456789abcdef"

abbrev pub commit : String
commit = "0123456789abcdef0123456789abcdef01234567"

abbrev reference : String → Value
reference file = object (("file", str file) ∷ ("sha256", str digest) ∷ [])

abbrev group : Value
group = object (
    ("group_id", str "gnu")
    ∷ ("source_commit", str commit)
    ∷ ("source_tree", str commit)
    ∷ ("upstream_commit", str commit)
    ∷ ("recipe", reference "recipe.json")
    ∷ ("source_lock", reference "lock.json")
    ∷ ("profiles", reference "profiles.json")
    ∷ [])

abbrev lane : String → String → Value
lane host profile =
    object (("group_id", str "gnu") ∷ ("host", str host) ∷ ("target_profile", str profile) ∷ [])

abbrev pub hosts : List String
hosts = "linux-aarch64" ∷ "linux-x86_64" ∷ "macos-aarch64" ∷ []

abbrev sdk : Value
sdk = object (
    ("id", str "sdk-1")
    ∷ ("identity", reference "sdk.json")
    ∷ ("source_preset", str "pc")
    ∷ (
      "compiler_profiles",
      array (object (("group_id", str "gnu") ∷ ("profile", str "pc-x86_64") ∷ []) ∷ []),
    )
    ∷ [])

abbrev fields_with : List Value → ℕ → Dict String Value
fields_with lanes lane_count =
    ("schema", str "aros-toolchain-producer-stage-v2")
    ∷ ("operation", str "release-plan")
    ∷ ("release_format", str "family-v2")
    ∷ ("assurance", str "input-binding-only")
    ∷ ("inputs_sha256", str digest)
    ∷ ("producer_commit", str commit)
    ∷ ("tools_commit", str commit)
    ∷ ("hosts", strings hosts)
    ∷ ("groups", array (group ∷ []))
    ∷ ("lane_count", int (pos lane_count))
    ∷ ("lanes", array lanes)
    ∷ ("sdks", array (sdk ∷ []))
    ∷ ("sdk_count", int (pos 1))
    ∷ []

abbrev pub plan_fields : Dict String Value
plan_fields =
    fields_with
      (lane "linux-aarch64" "pc-x86_64"
        ∷ lane "linux-x86_64" "pc-x86_64"
        ∷ lane "macos-aarch64" "pc-x86_64"
        ∷ [])
      3

abbrev pub plan : Value
plan = object plan_fields

abbrev expected : Expected
expected = record { inputs_sha256 = digest; producer_commit = commit; tools_commit = commit }

abbrev lane_on : String → Lane
lane_on host = record { group_id = "gnu"; host = host; target_profile = "pc-x86_64" }

abbrev pub validated : Validated
validated = record {
  lanes = lane_on "linux-aarch64" ∷ lane_on "linux-x86_64" ∷ lane_on "macos-aarch64" ∷ [];
  group_ids = "gnu" ∷ [];
  lane_count = 3;
  sdks = sdk ∷ [];
}

plan_accepted : validate_plan plan expected ≡ ok validated
unfolding validate_plan string_eq list_eq nat_eq pair_eq is_safe_id is_profile_id is_sdk_id
    is_sdk_profile_id
plan_accepted = refl

-- A stand-in for SHA-256 under which every text has the digest above.
abbrev pub constant_digest : List ℕ → String
constant_digest raw = digest

abbrev request : Request
request = record {
  plan_sha256 = digest;
  inputs_sha256 = digest;
  producer_commit = commit;
  tools_commit = commit;
  event = "push";
  scope = "full";
  full_qualification = false;
  diagnostic_group = none;
}

projection : Projection
unfolding assemble
projection = assemble request hosts validated

plan_projected : project constant_digest [] plan request ≡ ok projection
unfolding project projection string_eq list_eq nat_eq pair_eq is_safe_id is_profile_id is_sdk_id
    is_sdk_profile_id
plan_projected = refl

validate_plan_grid_example :
    (profiles : Dict String (List String)) × (keys profiles ≡ validated.group_ids)
    × (ascends validated.group_ids ≡ true)
    × (validated.lanes ≡ crossing profiles)
validate_plan_grid_example = validate_plan_grid plan expected validated plan_accepted

select_scope_iff_example :
    (select_scope "push" "full" false ≡ ok active_hosts) ↔ Route "push" "full" false active_hosts
select_scope_iff_example = select_scope_iff "push" "full" false active_hosts

project_complete_example :
    (v : Validated) × (validate_plan plan (expected_of request) ≡ ok v)
    × (projection.verify_matrix ≡ map verify_entry v.lanes)
    × (projection.sdk_matrix ≡ v.sdks)
    × (projection.lane_count ≡ v.lane_count)
unfolding projection string_eq
project_complete_example =
    project_complete constant_digest [] plan request projection plan_projected refl

project_distinct_example :
    IsNodup (map build_key projection.build_matrix)
    × IsNodup (map verify_key projection.verify_matrix)
project_distinct_example =
    project_distinct constant_digest [] plan request projection plan_projected
