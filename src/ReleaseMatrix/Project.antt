-- ===== src/ReleaseMatrix/Project.antt =====
-- `_select_scope` and `project`: a validated plan, cut down to the selected hosts and group and
-- laid out as the matrices of a CI run.
pub mod Scope
pub mod Matrices
pub mod Complete
use aros_toolchains.Prelude.{
  ℕ, String, Bool, true, false, ◌&&◌, ◌||◌, not, if◌then◌else◌, List, [], ◌∷◌, ◌++◌, Option, none,
  some, Result, ok, raise, plan_error, refuse, require, ◌>>=◌, ◌>>◌, ◌==◌, contains, string_eq,
  Dict, lookup, map, keep, any, length, leb, ltb,
}
use aros_toolchains.Json.{Value, str, as_str, as_list, as_dict, is_str, item, or_raise}
use aros_toolchains.ReleaseMatrix.{
  active_hosts, runners, max_build_entries, require_digest, require_commit, require_safe_id,
}
use aros_toolchains.ReleaseMatrix.Lanes.{Lane}
use aros_toolchains.ReleaseMatrix.Plan.{Expected, Validated, validate_plan}

abbrev pub events : List String
events = "push" ∷ "workflow_dispatch" ∷ []

abbrev pub scopes : List String
scopes = "full" ∷ "linux-x86_64" ∷ "linux" ∷ []

-- The hosts of a scope. A set is the list of its members.
unfoldable pub select_scope : String → String → Bool → Result (List String)
select_scope event scope full_qualification = do
  refuse (not (contains events event) || not (contains scopes scope))
      (plan_error "event or scope is unsupported")
  refuse (full_qualification && (not (event == "workflow_dispatch") || not (scope == "full")))
      (plan_error "full qualification requires a complete manual dispatch scope")
  refuse (event == "push" && not (scope == "full"))
      (plan_error "push events require the complete scope")
  refuse (event == "workflow_dispatch" && scope == "full" && not full_qualification)
      (plan_error "manual dispatch cannot select the complete scope")
  ok (
      if scope == "full"
      then active_hosts
      else if scope == "linux-x86_64"
      then "linux-x86_64" ∷ []
      else "linux-aarch64" ∷ "linux-x86_64" ∷ [])

pub record HostEntry : Type 0 where
  pub host : String
  pub runner : String

pub record VerifyEntry : Type 0 where
  pub group_id : String
  pub host : String
  pub runner : String
  pub profile : String

pub record BuildEntry : Type 0 where
  pub entry : VerifyEntry
  pub open entry use *
  pub copy : String

-- RUNNERS[host], where the host is an active one
abbrev pub runner_of : String → String
runner_of host = elim (lookup host runners) [ none ↦ "" | some runner ↦ runner ]

unfoldable pub verify_entry : Lane → VerifyEntry
verify_entry lane = record {
  group_id = lane.group_id;
  host = lane.host;
  runner = runner_of lane.host;
  profile = lane.target_profile;
}

-- Two independent builds, "a" and "b", of each entry.
unfoldable pub build_entries : List VerifyEntry → List BuildEntry
build_entries [] = []
build_entries (entry ∷ entries) =
    record { entry = entry; copy = "a" }
    ∷ record { entry = entry; copy = "b" }
    ∷ build_entries entries

-- `profile_reference["group_id"] == diagnostic_group` for one of the SDK's compiler profiles. The
-- values are validated, so the fields are there.
abbrev pub refers_to : String → Value → Bool
refers_to group v = elim (as_dict v) [
  | none ↦ false
  | some d ↦ elim (lookup "group_id" d) [ none ↦ false | some w ↦ is_str w group ]
]

unfoldable pub sdk_uses : String → Value → Bool
sdk_uses group sdk = elim (as_dict sdk) [
  | none ↦ false
  | some d ↦ elim (lookup "compiler_profiles" d) [
    | none ↦ false
    | some w ↦ elim (as_list w) [ none ↦ false | some profiles ↦ any (refers_to group) profiles ]
  ]
]

abbrev pub in_group : Option String → Lane → Bool
in_group none lane = true
in_group (some group) lane = lane.group_id == group

-- The lanes on the selected hosts, of the diagnostic group if there is one.
unfoldable pub select_lanes : List String → Option String → List Lane → List Lane
select_lanes hosts group lanes =
    keep (in_group group) (keep (λ (l : Lane). contains hosts l.host) lanes)

unfoldable pub select_sdks : Option String → List Value → List Value
unfolding sdk_uses
select_sdks none sdks = sdks
select_sdks (some group) sdks = keep (sdk_uses group) sdks

-- The checks on `--diagnostic-group`.
unfoldable pub check_diagnostic_group :
    Option String → String → String → List String → Result (Unit {0})
unfolding require_safe_id
check_diagnostic_group none event scope group_ids = ok tt
check_diagnostic_group (some group) event scope group_ids = do
  refuse (not (event == "workflow_dispatch") || scope == "full")
      (plan_error "diagnostic group requires a non-full manual dispatch scope")
  require_safe_id (str group) "diagnostic group ID"
  require (contains group_ids group)
      (plan_error "diagnostic group is not present in the validated plan")

abbrev pub is_none {ℓ} : {A : Type ℓ} → Option A → Bool
is_none none = true
is_none (some a) = false

-- What was asked for, and the digest that the plan's bytes were selected by.
pub record Request : Type 0 where
  pub plan_sha256 : String
  pub inputs_sha256 : String
  pub producer_commit : String
  pub tools_commit : String
  pub event : String
  pub scope : String
  pub full_qualification : Bool
  pub diagnostic_group : Option String

-- The projected document; the constant fields `schema` and `assurance` are left out.
pub record Projection : Type 0 where
  pub inputs_sha256 : String
  pub plan_sha256 : String
  pub producer_commit : String
  pub tools_commit : String
  pub event : String
  pub scope : String
  pub complete_selection : Bool
  pub host_matrix : List HostEntry
  pub verify_matrix : List VerifyEntry
  pub build_matrix : List BuildEntry
  pub sdk_matrix : List Value
  pub build_count : ℕ
  pub lane_count : ℕ
  pub sdk_count : ℕ
  pub diagnostic_group : Option String

-- The document, from the validated plan and the selected hosts.
unfoldable pub assemble : Request → List String → Validated → Projection
unfolding select_lanes select_sdks verify_entry build_entries
assemble r selected_hosts plan =
    let verify_entries =
      map verify_entry (select_lanes selected_hosts r.diagnostic_group plan.lanes) in
    let builds = build_entries verify_entries in
    let selected_sdks = select_sdks r.diagnostic_group plan.sdks in
    record {
      inputs_sha256 = r.inputs_sha256;
      plan_sha256 = r.plan_sha256;
      producer_commit = r.producer_commit;
      tools_commit = r.tools_commit;
      event = r.event;
      scope = r.scope;
      complete_selection = r.scope == "full" && is_none r.diagnostic_group;
      host_matrix =
          map (λ h. record { host = h; runner = runner_of h })
            (keep (contains selected_hosts) active_hosts);
      verify_matrix = verify_entries;
      build_matrix = builds;
      sdk_matrix = selected_sdks;
      build_count = length builds;
      lane_count = length verify_entries;
      sdk_count = length selected_sdks;
      diagnostic_group = r.diagnostic_group;
    }

-- It is returned if it is within the bounds.
unfoldable pub lay_out : Request → List String → Validated → Result Projection
lay_out r selected_hosts plan = do
  let result = assemble r selected_hosts plan
  refuse (ltb max_build_entries (length result.build_matrix))
      (plan_error "projected build matrix exceeds 256 entries")
  refuse (ltb plan.lane_count (length result.verify_matrix))
      (plan_error "projected lane count exceeds the validated owner lane count")
  ok result

-- `sha256` is that of the standard library, as a lowercase hexadecimal text.
module _ (sha256 : List ℕ → String) where
  unfoldable pub project : List ℕ → Value → Request → Result Projection
  unfolding require_digest require_commit validate_plan select_scope check_diagnostic_group lay_out
  project raw plan r = do
    plan_sha256 ← require_digest (str r.plan_sha256) "selected plan digest"
    require (plan_sha256 == sha256 raw)
        (plan_error "plan bytes do not match the selected plan digest")
    inputs_sha256 ← require_digest (str r.inputs_sha256) "selected inputs digest"
    producer_commit ← require_commit (str r.producer_commit) "selected producer commit"
    tools_commit ← require_commit (str r.tools_commit) "selected tools commit"
    validated ← validate_plan plan (record {
      inputs_sha256 = inputs_sha256;
      producer_commit = producer_commit;
      tools_commit = tools_commit;
    })
    selected_hosts ← select_scope r.event r.scope r.full_qualification
    check_diagnostic_group r.diagnostic_group r.event r.scope validated.group_ids
    lay_out r selected_hosts validated
