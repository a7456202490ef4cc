-- ===== src/ReleaseMatrix.antt =====
-- scripts/toolchain/select-release-matrix-v2.py: the validated release plan and its projection
-- into CI matrices. This file has the limits, the closed field sets and the scalar validators.
pub mod References
pub mod Lanes
pub mod Sdks
pub mod Plan
pub mod Project
pub mod Examples
use aros_toolchains.Prelude.{
  ℕ, String, Bool, ◌&&◌, ◌||◌, not, if◌then◌else◌, List, [], ◌∷◌, Option, none, some, Result, ok,
  raise, plan_error, refuse, ◌>>=◌, ◌>>◌, ◌==◌, contains, string_eq, Dict, ◌<>◌,
}
use aros_toolchains.Text.{
  is_hex, is_run, is_bracketed, is_lower_alnum, is_alnum, is_lower, is_digit, one_of,
}
use aros_toolchains.Json.{Value, as_str, as_dict, has_exactly}

abbrev pub max_groups : ℕ
max_groups = 32

abbrev pub max_sdks : ℕ
max_sdks = 32

abbrev pub max_sdk_compiler_profiles : ℕ
max_sdk_compiler_profiles = 64

abbrev pub max_build_entries : ℕ
max_build_entries = 256

abbrev pub active_hosts : List String
active_hosts = "linux-aarch64" ∷ "linux-x86_64" ∷ "macos-aarch64" ∷ []

abbrev pub runners : Dict String String
runners =
    ("linux-aarch64", "ubuntu-24.04-arm")
    ∷ ("linux-x86_64", "ubuntu-24.04")
    ∷ ("macos-aarch64", "macos-15")
    ∷ []

abbrev pub top_level_fields : List String
top_level_fields =
    "schema" ∷ "operation" ∷ "release_format" ∷ "assurance" ∷ "inputs_sha256" ∷ "producer_commit"
    ∷ "tools_commit" ∷ "hosts" ∷ "groups" ∷ "lane_count" ∷ "lanes" ∷ "sdks" ∷ "sdk_count" ∷ []

abbrev pub group_fields : List String
group_fields =
    "group_id" ∷ "source_commit" ∷ "source_tree" ∷ "upstream_commit" ∷ "recipe" ∷ "source_lock"
    ∷ "profiles" ∷ []

abbrev pub reference_fields : List String
reference_fields = "file" ∷ "sha256" ∷ []

abbrev pub lane_fields : List String
lane_fields = "group_id" ∷ "host" ∷ "target_profile" ∷ []

abbrev pub sdk_fields : List String
sdk_fields = "id" ∷ "identity" ∷ "source_preset" ∷ "compiler_profiles" ∷ []

abbrev pub sdk_compiler_profile_fields : List String
sdk_compiler_profile_fields = "group_id" ∷ "profile" ∷ []

-- A dict with just these keys.
unfoldable pub require_exact_fields : Value → List String → String → Result (Dict String Value)
require_exact_fields value expected description =
    let refusal = plan_error (description <> " has missing, unknown, or invalid fields") in
    elim (as_dict value) [
      | none ↦ raise refusal
      | some d ↦ if has_exactly expected d then ok d else raise refusal
    ]

-- A text that passes a test.
unfoldable pub require_text : (String → Bool) → Value → String → Result String
require_text test value message = elim (as_str value) [
  | none ↦ raise (plan_error message)
  | some s ↦ if test s then ok s else raise (plan_error message)
]

abbrev pub is_digest : String → Bool
is_digest = is_hex 64

abbrev pub is_commit : String → Bool
is_commit = is_hex 40

unfoldable pub require_digest : Value → String → Result String
unfolding require_text
require_digest value description =
    require_text is_digest value (description <> " must be a lowercase SHA-256 digest")

unfoldable pub require_commit : Value → String → Result String
unfolding require_text
require_commit value description =
    require_text is_commit value (description <> " must be a lowercase Git object ID")

-- SAFE_ID
unfoldable pub is_safe_id : String → Bool
is_safe_id = is_bracketed is_lower_alnum (λ c. is_lower_alnum c || one_of "-" c) 64

unfoldable pub require_safe_id : Value → String → Result String
unfolding require_text
require_safe_id value description =
    require_text is_safe_id value (description <> " is not a safe identifier")

-- SAFE_PROFILE, but neither "." nor ".."
unfoldable pub is_profile_id : String → Bool
is_profile_id s =
    is_run (λ c. is_alnum c || one_of "._-" c) 128 s && not (contains ("." ∷ ".." ∷ []) s)

unfoldable pub require_profile_id : Value → Result String
unfolding require_text
require_profile_id value =
    require_text is_profile_id value "target profile ID is not a safe native profile identifier"

-- SAFE_SDK_ID
unfoldable pub is_sdk_id : String → Bool
is_sdk_id = is_bracketed is_lower_alnum (λ c. is_lower_alnum c || one_of "-._+" c) 96

unfoldable pub require_sdk_id : Value → Result String
unfolding require_text
require_sdk_id value = require_text is_sdk_id value "SDK ID is not a safe native SDK identifier"

-- SAFE_SDK_PROFILE
unfoldable pub is_sdk_profile_id : String → Bool
is_sdk_profile_id = is_bracketed is_lower_alnum (λ c. is_lower_alnum c || one_of "-_" c) 128

unfoldable pub require_sdk_profile_id : Value → String → Result String
unfolding require_text
require_sdk_profile_id value description =
    require_text is_sdk_profile_id value
      (description <> " is not a safe native SDK profile identifier")
