-- ===== src/RequiredPayload/Documents.antt =====
-- required-compiler-payload-v2.py: the policy document, from its paths to its groups.
use aros_toolchains.Prelude.{
  ℕ, ◌+◌, ◌*◌, String, Bool, ◌&&◌, ◌||◌, not, List, [], ◌∷◌, none, some, Result, ok, raise,
  policy_error, require, refuse, fold, traverse, ◌>>=◌, ◌>>◌, ◌==◌, ◌<>◌, contains, string_eq,
  list_eq, nat_eq, Dict, keys, insert, length, leb, ltb, all,
}
use aros_toolchains.Json.{Value, str, as_str, as_list, as_dict, is_str, item, has_exactly, or_raise}
use aros_toolchains.Text.{any_char, first_char, last_char, one_of, is_alnum, is_hex, is_run}
use aros_toolchains.Text.Bytes.{encode}
use aros_toolchains.Text.Split.{split}
use aros_toolchains.Text.Order.{string_ord}
use aros_toolchains.Sorted.{sorted_set}
use aros_toolchains.ReleaseMatrix.{require_safe_id, require_profile_id}

abbrev pub max_policy_bytes : ℕ
max_policy_bytes = 1024 * 1024

abbrev pub max_plan_bytes : ℕ
max_plan_bytes = 1024 * 1024

abbrev pub max_policy_groups : ℕ
max_policy_groups = 32

abbrev pub max_profiles_per_group : ℕ
max_profiles_per_group = 64

abbrev pub max_total_profiles : ℕ
max_total_profiles = 128

abbrev pub max_paths_per_profile : ℕ
max_paths_per_profile = 256

abbrev pub max_total_paths : ℕ
max_total_paths = 8192

abbrev pub max_required_path_bytes : ℕ
max_required_path_bytes = 1024

abbrev pub max_total_path_bytes : ℕ
max_total_path_bytes = 768 * 1024

-- `_require_exact_fields`
unfoldable pub require_policy_fields : Value → List String → String → Result (Dict String Value)
require_policy_fields value expected description = elim (as_dict value) [
  | none ↦ raise (policy_error (description <> " has missing, unknown, or invalid fields"))
  | some d ↦
      require (has_exactly expected d)
        (policy_error (description <> " has missing, unknown, or invalid fields"))
      >> ok d
]

-- `_require_digest`
unfoldable pub require_policy_digest : Value → String → Result String
require_policy_digest value description = do
  digest ←
      or_raise (as_str value) (policy_error (description <> " must be a lowercase SHA-256 digest"))
  require (is_hex 64 digest) (policy_error (description <> " must be a lowercase SHA-256 digest"))
  ok digest

-- `part not in {".", ".."}` and SAFE_PATH_COMPONENT
abbrev pub is_safe_component : String → Bool
is_safe_component part =
    not (part == "." || part == "..") && is_run (λ c. is_alnum c || one_of "._+-" c) 128 part

-- The tests of `_validate_path` on a text.
abbrev pub is_bounded_path : String → Bool
is_bounded_path path = not (path == "") && leb (length (encode path)) max_required_path_bytes

abbrev pub is_relative_path : String → Bool
is_relative_path path =
    not (first_char (λ c. c == 47) path || last_char (λ c. c == 47) path)
    && not (any_char (λ c. c == 92 || c == 58) path)

unfoldable pub validate_path : Value → Result String
unfolding split
validate_path value = do
  path ← or_raise (as_str value) (policy_error "required path must be a nonempty bounded file path")
  require (is_bounded_path path) (policy_error "required path must be a nonempty bounded file path")
  require (is_relative_path path) (policy_error "required path is not a safe relative file path")
  require (all is_safe_component (split "/" path))
      (policy_error "required path contains an unsafe component")
  ok path

pub record PolicyGroup : Type 0 where
  pub source_lock_sha256 : String
  pub profiles_sha256 : String
  pub profiles : Dict String (List String)

-- The variables of the loop over the profiles of a group.
pub record ProfileState : Type 0 where
  pub profile_map : Dict String (List String)
  pub total_paths : ℕ
  pub total_path_bytes : ℕ

abbrev pub path_bytes : List String → ℕ
path_bytes [] = 0
path_bytes (p ∷ ps) = length (encode p) + path_bytes ps

-- The paths of one profile.
unfoldable pub validate_paths : Value → Result (List String)
unfolding validate_path sorted_set
validate_paths paths_value = do
  values ←
      or_raise (as_list paths_value) (policy_error "each profile requires 1..256 required paths")
  require (leb 1 (length values) && leb (length values) max_paths_per_profile)
      (policy_error "each profile requires 1..256 required paths")
  paths ← traverse validate_path values
  require (paths == sorted_set paths) (policy_error "required paths must be sorted and unique")
  ok paths

unfoldable pub add_profile : ProfileState → String × Value → Result ProfileState
unfolding require_profile_id validate_paths
add_profile s (profile_value, paths_value) = do
  profile ← require_profile_id (str profile_value)
  refuse (contains (keys s.profile_map) profile) (policy_error "policy profile IDs must be unique")
  paths ← validate_paths paths_value
  let total_paths = s.total_paths + length paths
  let total_path_bytes = s.total_path_bytes + path_bytes paths
  refuse (ltb max_total_paths total_paths || ltb max_total_path_bytes total_path_bytes)
      (policy_error "policy required paths exceed the aggregate size limit")
  ok (record {
    profile_map = insert profile paths s.profile_map;
    total_paths = total_paths;
    total_path_bytes = total_path_bytes;
  })

-- The variables of the loop over the groups.
pub record PolicyState : Type 0 where
  pub result : Dict String PolicyGroup
  pub total_profiles : ℕ
  pub group_paths : ℕ
  pub group_path_bytes : ℕ

unfoldable pub policy_fields : List String
policy_fields = "schema" ∷ "groups" ∷ []

unfoldable pub policy_group_fields : List String
policy_group_fields = "group_id" ∷ "source_lock_sha256" ∷ "profiles_sha256" ∷ "profiles" ∷ []

unfoldable pub add_policy_group : PolicyState → Value → Result PolicyState
unfolding require_policy_fields require_policy_digest require_safe_id add_profile
    policy_group_fields
add_policy_group s group_value = do
  group ← require_policy_fields group_value policy_group_fields "policy group"
  id_value ← item group "group_id"
  group_id ← require_safe_id id_value "policy group ID"
  refuse (contains (keys s.result) group_id) (policy_error "policy group IDs must be unique")
  lock_value ← item group "source_lock_sha256"
  source_lock_sha256 ← require_policy_digest lock_value "policy source-lock digest"
  digest_value ← item group "profiles_sha256"
  profiles_sha256 ← require_policy_digest digest_value "policy profiles digest"
  profiles_value ← item group "profiles"
  profiles ←
      or_raise (as_dict profiles_value) (policy_error "each policy group requires 1..64 profiles")
  require (leb 1 (length profiles) && leb (length profiles) max_profiles_per_group)
      (policy_error "each policy group requires 1..64 profiles")
  t ←
      fold add_profile
        (record {
          profile_map = [];
          total_paths = s.group_paths;
          total_path_bytes = s.group_path_bytes;
        })
        profiles
  let total_profiles = s.total_profiles + length t.profile_map
  refuse (ltb max_total_profiles total_profiles) (policy_error "policy profile count exceeds 128")
  ok (record {
    result =
        insert group_id
          (record {
            source_lock_sha256 = source_lock_sha256;
            profiles_sha256 = profiles_sha256;
            profiles = t.profile_map;
          })
          s.result;
    total_profiles = total_profiles;
    group_paths = t.total_paths;
    group_path_bytes = t.total_path_bytes;
  })

unfoldable pub validate_policy : Value → Result (Dict String PolicyGroup)
unfolding add_policy_group policy_fields
validate_policy policy = do
  value ← require_policy_fields policy policy_fields "policy"
  schema ← item value "schema"
  require (is_str schema "aros-toolchain-required-payload-v1")
      (policy_error "policy schema is unsupported")
  groups_value ← item value "groups"
  groups ← or_raise (as_list groups_value) (policy_error "policy requires 1..32 groups")
  require (leb 1 (length groups) && leb (length groups) max_policy_groups)
      (policy_error "policy requires 1..32 groups")
  s ←
      fold add_policy_group
        (record { result = []; total_profiles = 0; group_paths = 0; group_path_bytes = 0 }) groups
  ok s.result
