-- ===== src/ReleaseAdmission/Inputs.antt =====
-- What release-admission-v2.py reads of the checkout and of the event: committed_release_version,
-- input_context, _event_context and _load_head.
pub mod Silent
use aros_toolchains.Prelude.{
  ℕ, String, Bool, true, false, ◌&&◌, ◌||◌, not, if◌then◌else◌, List, [], ◌∷◌, Option, none, some,
  Result, ok, raise, admission_error, ◌==◌, ◌<>◌, string_eq, nat_eq, Dict, lookup, map,
}
use aros_toolchains.Json.{Value, str, get, is_str, as_dict, as_str, has_exactly, or_raise}
use aros_toolchains.RuntimeLock.{validate_lock}
use aros_toolchains.ReleaseAdmission.Checks.{
  Object, own_repository, runtime_repository, main_ref, ci_workflow, ci_workflow_name,
  max_local_input_bytes, max_event_bytes, input_paths, is_semver, is_oid, is_text, positive_number,
  positive_int, required_object,
}
use aros_toolchains.ReleaseAdmission.Session.{
  World, Session, ◌>>=◌, ◌>>◌, pure, lift, hold, fail, ask, each, attempt, parse_json,
  committed_input,
}

unfoldable pub load_head : Session String
load_head = do head ← ask (λ w. w.head); hold (is_oid head) "local Git HEAD is malformed"; pure head

-- A document that is an object with the one key ".".
abbrev pub root_package : Value → Option Value
root_package manifest = elim (as_dict manifest) [
  | none ↦ none
  | some members ↦ if has_exactly ("." ∷ []) members then some (get members ".") else none
]

unfoldable pub manifest_version : Value → Session String
unfolding is_semver
manifest_version manifest = do
  root ← lift (
      or_raise (root_package manifest)
        (admission_error "committed release manifest must contain only the root package"))
  version ← lift (
      or_raise (as_str root)
        (admission_error "committed release version is not canonical stable SemVer"))
  hold (is_semver version) "committed release version is not canonical stable SemVer"
  pure version

unfoldable pub decode_version : List ℕ → Session String
decode_version raw w n =
    lift (or_raise (w.decode raw) (admission_error "committed version file is not UTF-8")) w n

-- `version_file in {version, version + "\n"}`
abbrev pub is_version_file : String → String → Bool
is_version_file file version = file == version || file == version <> "\n"

unfoldable pub committed_release_version : Session String
unfolding committed_input parse_json decode_version manifest_version
committed_release_version = do
  raw ← committed_input ".release-please-manifest.json"
  manifest ← parse_json raw "committed release manifest" max_local_input_bytes
  version_raw ← committed_input "version.txt"
  version_file ← decode_version version_raw
  version ← manifest_version manifest
  hold (is_version_file version_file version)
      "committed version.txt differs from the release manifest"
  pure version

-- `contents[path]` of the bytes that were read
abbrev pub content : Dict String (List ℕ) → String → List ℕ
content contents path = elim (lookup path contents) [ none ↦ [] | some raw ↦ raw ]

abbrev pub validator_path : String
validator_path = "scripts/toolchain/materialize-aros-tools-runtime.py"

-- The committed validator is loaded from its text; it is the one of RuntimeLock.
unfoldable pub load_runtime_validator : Session (Value → Result Object)
unfolding committed_input decode_version
load_runtime_validator =
    attempt
      (do raw ← committed_input validator_path; source ← decode_version raw; pure validate_lock)
      "runtime lock validator could not be loaded"

-- The checks of the lock after its validator.
unfoldable pub check_lock : Object → String → Session (Unit {0})
unfolding positive_int is_semver
check_lock lock tools_commit = do
  release_id ← lift (positive_int (get lock "release_id") "runtime lock release_id")
  epoch ← lift (positive_int (get lock "source_date_epoch") "runtime lock source_date_epoch")
  hold (is_str (get lock "repository") runtime_repository)
      "runtime lock names an unexpected repository"
  hold (is_text is_semver (get lock "version"))
      "runtime lock version is not canonical stable SemVer"
  hold (is_str (get lock "source_commit") tools_commit)
      "committed CI tools_commit differs from the runtime lock source_commit"

unfoldable pub tools_commit_of : Value → Session String
unfolding required_object
tools_commit_of ci_selection = do
  selection ← lift (required_object ci_selection "committed CI selection")
  tools_commit ← lift (
      or_raise (as_str (get selection "tools_commit"))
        (admission_error "committed CI tools_commit is malformed"))
  hold (is_oid tools_commit) "committed CI tools_commit is malformed"
  pure tools_commit

pub record Inputs : Type 0 where
  pub digests : Dict String String
  pub lock : Object

unfoldable pub input_context : String → Session Inputs
unfolding committed_input parse_json decode_version manifest_version tools_commit_of
    load_runtime_validator check_lock
input_context expected_version = do
  contents ← each (λ path. committed_input path >>= λ raw. pure (path, raw)) input_paths
  manifest ←
      parse_json (content contents ".release-please-manifest.json") "committed release manifest"
        max_local_input_bytes
  version_file ← decode_version (content contents "version.txt")
  ci_selection ←
      parse_json (content contents "toolchains/compiler-sdk-ci-selection-v2.json")
        "committed CI selection" max_local_input_bytes
  runtime_lock ←
      parse_json (content contents "toolchains/aros-tools-runtime-v1.json") "committed runtime lock"
        max_local_input_bytes
  version ← manifest_version manifest
  hold (version == expected_version && is_version_file version_file version)
      "committed version.txt differs from the release manifest"
  tools_commit ← tools_commit_of ci_selection
  validate ← load_runtime_validator
  lock ← attempt (lift (validate runtime_lock)) "committed aros-tools runtime lock is invalid"
  check_lock lock tools_commit
  sha256 ← ask (λ w. w.sha256)
  pure (record { digests = map (λ e. (e.0, sha256 e.1)) contents; lock = lock })

-- The event that started the admission, with the run and its attempt if it is one of a run.
pub data Event : Type 0 where
  dispatched : Event
  completed_run : ℕ → ℕ → Event

abbrev pub is_main_push : Object → String → Bool
is_main_push run head =
    is_str (get run "event") "push"
    && is_str (get run "head_branch") "main"
    && is_str (get run "head_sha") head

abbrev pub is_own : Option Object → Bool
is_own none = false
is_own (some repository) = is_str (get repository "full_name") own_repository

-- `run.get("head_repository")` is the repository's own.
abbrev pub is_own_run : Object → Bool
is_own_run run = is_own (as_dict (get run "head_repository"))

abbrev pub is_ci_workflow : Object → Bool
is_ci_workflow run = is_str (get run "name") ci_workflow_name && is_str (get run "path") ci_workflow

abbrev pub is_success : Object → Bool
is_success run = is_str (get run "conclusion") "success" && is_str (get run "status") "completed"

abbrev pub run_event : Option ℕ → Option ℕ → Option Event
run_event (some id) (some attempt) = some (completed_run id attempt)
run_event _ _ = none

-- The event of a document that was read.
unfoldable pub event_of : Value → String → Session (Option Event)
unfolding required_object
event_of document head = do
  event ← lift (required_object document "workflow_run event")
  run ← lift (required_object (get event "workflow_run") "workflow_run event object")
  λ w n. ok (
    if is_own_run run && is_ci_workflow run && is_main_push run head && is_success run
        then run_event (positive_number (get run "id")) (positive_number (get run "run_attempt"))
        else none,
    n,
  )

unfoldable pub read_event : String → Session (Option Event)
unfolding parse_json event_of
read_event head = do
  file ← ask (λ w. w.event_file)
  raw ← lift (or_raise file (admission_error "workflow_run event metadata is unavailable"))
  document ← parse_json raw "workflow_run event" max_event_bytes
  event_of document head

unfoldable pub event_context : String → Session (Option Event)
unfolding read_event
event_context head w n =
    if not (w.repository == own_repository && w.ref == main_ref)
    then ok (none, n)
    else if w.event_name == "workflow_dispatch"
    then ok (some dispatched, n)
    else if not (w.event_name == "workflow_run")
    then ok (none, n)
    else read_event head w n
