-- ===== src/ReleaseMatrix/Sdks.antt =====
-- `_validate_plan`: the loop over the SDK selections.
use aros_toolchains.Prelude.{
  String, Bool, true, false, ◌&&◌, not, List, Option, none, some, Result, ok, plan_error, refuse,
  require, fold, traverse, ◌>>=◌, ◌>>◌, ◌==◌, contains, string_eq, list_eq, nat_eq, pair_eq, Dict,
  lookup, length, leb,
}
use aros_toolchains.Json.{Value, as_list, as_nat, item, or_raise}
use aros_toolchains.Sorted.{sorted_set, pair_ord}
use aros_toolchains.Text.Order.{str_ltb, string_ord}
use aros_toolchains.ReleaseMatrix.{
  max_sdks, max_sdk_compiler_profiles, sdk_fields, sdk_compiler_profile_fields,
  require_exact_fields, require_safe_id, require_sdk_id, require_sdk_profile_id,
}
use aros_toolchains.ReleaseMatrix.References.{validate_reference}

-- Whether the validated lanes have this profile in this group.
abbrev pub declares : Dict String (List String) → String → String → Bool
declares profiles_by_group group_id profile = elim (lookup group_id profiles_by_group) [
  | none ↦ false
  | some profiles ↦ contains profiles profile
]

unfoldable pub validate_profile_reference :
    Dict String (List String) → Value → Result (String × String)
unfolding require_exact_fields require_safe_id require_sdk_profile_id
validate_profile_reference profiles_by_group profile_value = do
  profile_reference ←
      require_exact_fields profile_value sdk_compiler_profile_fields
        "SDK compiler profile reference"
  group_id_value ← item profile_reference "group_id"
  group_id ← require_safe_id group_id_value "SDK compiler group ID"
  profile_id ← item profile_reference "profile"
  profile ← require_sdk_profile_id profile_id "SDK compiler profile"
  require (declares profiles_by_group group_id profile)
      (plan_error "SDK compiler profile does not match a declared group/profile")
  ok (group_id, profile)

pub record SdkState : Type 0 where
  pub previous_sdk_id : Option String
  pub used_files : List String

abbrev pub comes_after : String → Option String → Bool
comes_after sdk_id none = true
comes_after sdk_id (some previous) = str_ltb previous sdk_id

-- One round of the loop over `plan["sdks"]`.
unfoldable pub validate_sdk : Dict String (List String) → SdkState → Value → Result SdkState
unfolding require_exact_fields require_sdk_id require_sdk_profile_id validate_reference
    validate_profile_reference sorted_set str_ltb
validate_sdk profiles_by_group s sdk_value = do
  sdk ← require_exact_fields sdk_value sdk_fields "SDK selection"
  id ← item sdk "id"
  sdk_id ← require_sdk_id id
  require (comes_after sdk_id s.previous_sdk_id) (plan_error "SDK IDs must be sorted and unique")
  identity ← item sdk "identity"
  used_files ← validate_reference identity s.used_files
  source_preset ← item sdk "source_preset"
  require_sdk_profile_id source_preset "SDK source preset"
  compiler_profiles_value ← item sdk "compiler_profiles"
  compiler_profiles ←
      or_raise (as_list compiler_profiles_value)
        (plan_error "each SDK requires 1..64 compiler profile references")
  require
      (leb 1 (length compiler_profiles) && leb (length compiler_profiles) max_sdk_compiler_profiles)
      (plan_error "each SDK requires 1..64 compiler profile references")
  profile_references ← traverse (validate_profile_reference profiles_by_group) compiler_profiles
  refuse (not (profile_references == sorted_set profile_references))
      (plan_error "SDK compiler profile references must be sorted and unique")
  ok (record { previous_sdk_id = some sdk_id; used_files = used_files })

-- The selections as they stand in the plan.
unfoldable pub validate_sdks :
    Dict String (List String) → List String → Value → Value → Result (List Value)
unfolding validate_sdk
validate_sdks profiles_by_group used_files sdk_count_value sdks_value = do
  sdk_count ←
      or_raise (as_nat sdk_count_value) (plan_error "SDK count must match the 0..32 SDK array")
  require (leb sdk_count max_sdks) (plan_error "SDK count must match the 0..32 SDK array")
  sdk_values ← or_raise (as_list sdks_value) (plan_error "SDK count must match the 0..32 SDK array")
  require (sdk_count == length sdk_values) (plan_error "SDK count must match the 0..32 SDK array")
  fold (validate_sdk profiles_by_group) (record { previous_sdk_id = none; used_files = used_files })
      sdk_values
  ok sdk_values
