-- ===== src/ReleaseMatrix/Plan.antt =====
-- `_validate_plan` as a whole.
pub mod Grid
pub mod Groups
use aros_toolchains.Prelude.{
  ℕ, String, ◌&&◌, ◌||◌, not, List, Result, ok, plan_error, refuse, require, ◌>>=◌, ◌>>◌, ◌==◌,
  string_eq, Dict,
}
use aros_toolchains.Json.{Value, is_str, is_str_list, item}
use aros_toolchains.ReleaseMatrix.{
  active_hosts, top_level_fields, require_exact_fields, require_digest, require_commit,
}
use aros_toolchains.ReleaseMatrix.References.{validate_groups}
use aros_toolchains.ReleaseMatrix.Lanes.{Lane, validate_lanes}
use aros_toolchains.ReleaseMatrix.Sdks.{validate_sdks}

-- What the caller selected independently of the plan.
pub record Expected : Type 0 where
  pub inputs_sha256 : String
  pub producer_commit : String
  pub tools_commit : String

-- The scalars of the plan: its schema, and its bindings to what is expected.
unfoldable pub validate_header : Dict String Value → Expected → Result (Unit {0})
unfolding require_digest require_commit
validate_header value expected = do
  schema ← item value "schema"
  require (is_str schema "aros-toolchain-producer-stage-v2")
      (plan_error "plan schema is unsupported")
  operation ← item value "operation"
  release_format ← item value "release_format"
  require (is_str operation "release-plan" && is_str release_format "family-v2")
      (plan_error "plan operation or release format is unsupported")
  assurance ← item value "assurance"
  require (is_str assurance "input-binding-only") (plan_error "plan assurance is unsupported")
  inputs_value ← item value "inputs_sha256"
  inputs_sha256 ← require_digest inputs_value "plan inputs digest"
  producer_value ← item value "producer_commit"
  producer_commit ← require_commit producer_value "plan producer commit"
  tools_value ← item value "tools_commit"
  tools_commit ← require_commit tools_value "plan tools commit"
  require (inputs_sha256 == expected.inputs_sha256)
      (plan_error "plan differs from the independently selected inputs digest")
  require (producer_commit == expected.producer_commit && tools_commit == expected.tools_commit)
      (plan_error "plan commits differ from independently selected commits")
  hosts ← item value "hosts"
  require (is_str_list hosts active_hosts)
      (plan_error "plan hosts do not equal the sorted active host set")

-- The tuple that `_validate_plan` returns.
pub record Validated : Type 0 where
  pub lanes : List Lane
  pub group_ids : List String
  pub lane_count : ℕ
  pub sdks : List Value

unfoldable pub validate_plan : Value → Expected → Result Validated
unfolding require_exact_fields validate_header validate_groups validate_lanes validate_sdks
validate_plan plan expected = do
  value ← require_exact_fields plan top_level_fields "plan"
  validate_header value expected
  groups_value ← item value "groups"
  groups ← validate_groups groups_value
  lanes_value ← item value "lanes"
  lane_count_value ← item value "lane_count"
  counted ← validate_lanes groups.group_ids lanes_value lane_count_value
  sdk_count_value ← item value "sdk_count"
  sdks_value ← item value "sdks"
  sdks ← validate_sdks counted.1.profiles_by_group groups.used_files sdk_count_value sdks_value
  ok (record {
    lanes = counted.1.lanes;
    group_ids = groups.group_ids;
    lane_count = counted.0;
    sdks = sdks;
  })
