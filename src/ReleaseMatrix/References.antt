-- ===== src/ReleaseMatrix/References.antt =====
-- `_validate_reference`, and the loop of `_validate_plan` over the groups.
use Prim.Native.String.{len}
use aros_toolchains.Prelude.{
  String, Bool, false, ◌&&◌, ◌||◌, not, List, [], ◌∷◌, ◌++◌, Result, ok, plan_error, refuse,
  require, fold, ◌>>=◌, ◌>>◌, ◌==◌, contains, string_eq, list_eq, length, leb, ltb, all,
}
use aros_toolchains.Text.{all_chars, is_lower, is_digit, one_of, starts_with, char_count}
use aros_toolchains.Text.Split.{split}
use aros_toolchains.Sorted.{sorted_set}
use aros_toolchains.Text.Order.{string_ord}
use aros_toolchains.Json.{Value, as_str, as_list, item, or_raise}
use aros_toolchains.ReleaseMatrix.{
  max_groups, group_fields, reference_fields, require_exact_fields, require_digest, require_commit,
  require_safe_id,
}

abbrev pub reserved_files : List String
reserved_files =
    "SHA256SUMS" ∷ "toolchain-index-v1.json" ∷ "toolchain-index-v2.json"
    ∷ "toolchain-release-inputs-v2.json" ∷ "toolchain-provenance.sigstore.json"
    ∷ "toolchain-recipe-v2.json" ∷ "profiles-v1.json" ∷ "toolchain-manifest-v1.schema.json"
    ∷ "toolchain-manifest-v2.schema.json" ∷ "tree-digest-v1.fixture.json" ∷ []

-- `[a-z0-9_-]+`
abbrev is_file_part : String → Bool
is_file_part s =
    leb 1 (char_count s) && all_chars (λ c. is_lower c || is_digit c || one_of "_-" c) s

-- SAFE_FILE, `[a-z0-9_-]+(?:\.[a-z0-9_-]+)*\.json`, by the parts between the dots: the last is
-- "json" and there is one before it.
abbrev ends_json : List String → Bool
ends_json [] = false
ends_json (w ∷ []) = w == "json"
ends_json (w ∷ v ∷ ws) = ends_json (v ∷ ws)

unfoldable pub is_safe_file : String → Bool
unfolding split
is_safe_file s =
    let parts = split "." s in ltb 1 (length parts) && all is_file_part parts && ends_json parts

unfoldable pub is_unsafe_filename : String → Bool
unfolding is_safe_file
is_unsafe_filename filename =
    ltb 128 (len filename)
    || starts_with "." filename
    || not (is_safe_file filename)
    || contains reserved_files filename

-- The names that are used after this one.
unfoldable pub validate_reference : Value → List String → Result (List String)
unfolding is_unsafe_filename require_exact_fields require_digest
validate_reference value used_names = do
  reference ← require_exact_fields value reference_fields "document reference"
  file ← item reference "file"
  filename ← or_raise (as_str file) (plan_error "document reference filename is unsafe or reserved")
  refuse (is_unsafe_filename filename)
      (plan_error "document reference filename is unsafe or reserved")
  refuse (contains used_names filename) (plan_error "document reference filenames must be unique")
  sha256 ← item reference "sha256"
  require_digest sha256 "document reference digest"
  ok (used_names ++ filename ∷ [])

pub record GroupState : Type 0 where
  pub group_ids : List String
  pub used_files : List String

-- One round of the loop over `plan["groups"]`.
unfoldable pub validate_group : GroupState → Value → Result GroupState
unfolding require_exact_fields require_safe_id require_commit validate_reference
validate_group s group_value = do
  group ← require_exact_fields group_value group_fields "group"
  group_id_value ← item group "group_id"
  group_id ← require_safe_id group_id_value "group ID"
  source_commit_value ← item group "source_commit"
  source_commit ← require_commit source_commit_value "source commit"
  source_tree ← item group "source_tree"
  require_commit source_tree "source tree"
  upstream_commit_value ← item group "upstream_commit"
  upstream_commit ← require_commit upstream_commit_value "upstream commit"
  refuse (not (source_commit == upstream_commit))
      (plan_error "group source and upstream commits differ")
  recipe ← item group "recipe"
  after_recipe ← validate_reference recipe s.used_files
  source_lock ← item group "source_lock"
  after_lock ← validate_reference source_lock after_recipe
  profiles ← item group "profiles"
  used_files ← validate_reference profiles after_lock
  ok (record { group_ids = s.group_ids ++ group_id ∷ []; used_files = used_files })

unfoldable pub validate_groups : Value → Result GroupState
unfolding validate_group sorted_set
validate_groups groups_value = do
  groups ← or_raise (as_list groups_value) (plan_error "plan requires 1..32 groups")
  require (leb 1 (length groups) && leb (length groups) max_groups)
      (plan_error "plan requires 1..32 groups")
  s ← fold validate_group (record { group_ids = []; used_files = [] }) groups
  refuse (not (s.group_ids == sorted_set s.group_ids))
      (plan_error "group IDs must be sorted and unique")
  ok s
