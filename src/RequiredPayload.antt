-- ===== src/RequiredPayload.antt =====
-- scripts/toolchain/required-compiler-payload-v2.py: the policy of required paths, and its
-- projection onto the lanes of a release plan.
pub mod Documents
pub mod Policy
pub mod Selections
pub mod Examples
use aros_toolchains.Prelude.{
  ℕ, ◌+◌, ◌*◌, String, Bool, true, false, ◌&&◌, ◌||◌, not, List, [], ◌∷◌, ◌++◌, Option, none, some,
  Result, ok, raise, policy_error, type_error, require, refuse, fold, for_each, traverse, ◌>>=◌,
  ◌>>◌, ◌==◌, ◌<>◌, contains, string_eq, list_eq, nat_eq, Dict, keys, lookup, insert, map, length,
  leb, ltb, all, any, if◌then◌else◌,
}
use aros_toolchains.Json.{
  Value, str, as_str, as_list, as_dict, is_str, entries, item, has_exactly, or_raise,
}
use aros_toolchains.Text.{
  any_char, all_chars, first_char, last_char, one_of, is_alnum, is_hex, is_run, char_count,
}
use aros_toolchains.Text.Bytes.{encode}
use aros_toolchains.Text.Split.{split}
use aros_toolchains.Text.Order.{string_ord}
use aros_toolchains.Sorted.{sorted_set}
use aros_toolchains.ReleaseMatrix.{require_safe_id, require_profile_id}
use aros_toolchains.ReleaseMatrix.Project.{VerifyEntry, Projection, Request, project}
use aros_toolchains.CompilerOwners.{add_group}
use aros_toolchains.RequiredPayload.Documents.{
  max_policy_bytes, max_plan_bytes, require_policy_digest, PolicyGroup, validate_policy,
}

-- `set(xs) == set(ys)`
abbrev pub same_members : List String → List String → Bool
same_members xs ys = all (contains ys) xs && all (contains xs) ys

-- `plan_profiles[group_id].add(profile)`
unfoldable pub add_plan_profile :
    Dict String (List String) → VerifyEntry → Result (Dict String (List String))
add_plan_profile plan_profiles lane = do
  profiles ← item plan_profiles lane.group_id
  ok (insert lane.group_id (profiles ++ lane.profile ∷ []) plan_profiles)

-- `plan_group[name]["sha256"]`
unfoldable pub reference_digest : Dict String Value → String → Result Value
reference_digest plan_group name = do
  reference ← item plan_group name
  fields ← or_raise (as_dict reference) type_error
  item fields "sha256"

abbrev pub is_empty_list {ℓ} : {A : Type ℓ} → List A → Bool
is_empty_list [] = true
is_empty_list (x ∷ xs) = false

abbrev pub paths_of : String × List String → List String
paths_of entry = entry.1

-- One round of the loop over the policy's groups.
unfoldable pub check_policy_group :
    Dict String (Dict String Value)
    → Dict String (List String)
    → String × PolicyGroup
    → Result (Unit {0})
unfolding reference_digest
check_policy_group plan_groups plan_profiles (group_id, group) = do
  plan_group ← item plan_groups group_id
  expected ← item plan_profiles group_id
  require (same_members (keys group.profiles) expected)
      (policy_error ("policy profiles do not exactly match plan group " <> group_id))
  refuse (any (λ entry. is_empty_list (paths_of entry)) group.profiles)
      (policy_error "every selected profile requires at least one path")
  lock ← reference_digest plan_group "source_lock"
  require (is_str lock group.source_lock_sha256)
      (policy_error ("policy source-lock digest differs for group " <> group_id))
  profiles ← reference_digest plan_group "profiles"
  require (is_str profiles group.profiles_sha256)
      (policy_error ("policy profiles digest differs for group " <> group_id))

pub record Selection : Type 0 where
  pub group_id : String
  pub host : String
  pub target_profile : String
  pub required_paths : List String

unfoldable pub select_lane : Dict String PolicyGroup → VerifyEntry → Result Selection
select_lane policy lane = do
  group ← item policy lane.group_id
  paths ← item group.profiles lane.profile
  ok (record {
    group_id = lane.group_id;
    host = lane.host;
    target_profile = lane.profile;
    required_paths = paths;
  })

-- What is selected, without the constant fields and those copied from the projection.
pub record Selected : Type 0 where
  pub selected_policy_sha256 : String
  pub projection : Projection
  pub selections : List Selection

abbrev pub request_of : String → String → String → String → Request
request_of plan_sha256 inputs_sha256 producer_commit tools_commit = record {
  plan_sha256 = plan_sha256;
  inputs_sha256 = inputs_sha256;
  producer_commit = producer_commit;
  tools_commit = tools_commit;
  event = "workflow_dispatch";
  scope = "full";
  full_qualification = true;
  diagnostic_group = none;
}

-- The part after the policy was accepted and the plan projected.
unfoldable pub select_on :
    Dict String PolicyGroup → Dict String Value → Projection → Result (List Selection)
unfolding add_group add_plan_profile check_policy_group select_lane
select_on policy plan projection = do
  require
      (projection.event == "workflow_dispatch"
        && projection.scope == "full"
        && projection.complete_selection)
      (policy_error "native plan is not a complete full-qualification selection")
  groups_value ← item plan "groups"
  group_values ← or_raise (as_list groups_value) type_error
  plan_groups ← fold add_group [] group_values
  require (same_members (keys policy) (keys plan_groups))
      (policy_error "policy groups do not exactly match the selected plan")
  plan_profiles ←
      fold add_plan_profile (map (λ group_id. (group_id, [])) (keys plan_groups))
        projection.verify_matrix
  for_each (check_policy_group plan_groups plan_profiles) policy
  traverse (select_lane policy) projection.verify_matrix

-- The documents are those that the parser returned for the bytes.
module _ (sha256 : List ℕ → String) where
  unfoldable pub select_required_payload :
      List ℕ → Value → String → List ℕ → Value → String → String → String → String → Result Selected
  unfolding validate_policy select_on project
  select_required_payload raw_policy policy_value expected raw_plan plan_value plan_sha256
        inputs_sha256 producer_commit tools_commit =
      do
        require (leb (length raw_policy) max_policy_bytes)
            (policy_error "policy exceeds the bounded byte limit")
        require (leb (length raw_plan) max_plan_bytes)
            (policy_error "plan exceeds the bounded byte limit")
        plan ← or_raise (as_dict plan_value) (policy_error "plan must be a JSON object")
        digest ← require_policy_digest (str expected) "selected policy digest"
        require (sha256 raw_policy == digest)
            (policy_error "policy bytes do not match the independently selected digest")
        or_raise (as_dict policy_value) (policy_error "policy must be a JSON object")
        policy ← validate_policy policy_value
        projection ←
            project sha256 raw_plan plan_value
              (request_of plan_sha256 inputs_sha256 producer_commit tools_commit)
        selections ← select_on policy plan projection
        ok (record {
          selected_policy_sha256 = digest;
          projection = projection;
          selections = selections;
        })
