-- ===== src/ReleaseAdmission/Checks.antt =====
-- The constants of release-admission-v2.py and its checks of single values.
pub mod Inverted
use aros_toolchains.Prelude.{
  ℕ, suc, String, Bool, true, false, ◌&&◌, ◌||◌, if◌then◌else◌, List, [], ◌∷◌, Option, none, some,
  Result, ok, raise, admission_error, type_error, require, ◌>>=◌, ◌>>◌, ◌==◌, ◌<>◌, string_eq,
  nat_eq, ltb, Dict,
}
use aros_toolchains.Json.{
  pos, Value, null, bool, int, float, str, arr, obj, as_dict, or_raise, has_exactly, no_elements,
  element, no_members, member,
}
use aros_toolchains.Json.Canonical.{is_number}
use aros_toolchains.Text.{
  char_count, all_chars, is_digit, is_hex, is_alnum, one_of, between, first_char, strip_prefix,
}
use aros_toolchains.Text.Split.{split}

abbrev pub own_repository : String
own_repository = "metaneutrons/aros-toolchains"

abbrev pub runtime_repository : String
runtime_repository = "metaneutrons/aros-tools"

abbrev pub main_ref : String
main_ref = "refs/heads/main"

abbrev pub ci_workflow : String
ci_workflow = ".github/workflows/ci.yml"

abbrev pub ci_workflow_name : String
ci_workflow_name = "Producer contracts"

abbrev pub ci_job_name : String
ci_job_name = "contracts"

abbrev pub bot_logins : List String
bot_logins = "metaneutrons-release-please[bot]" ∷ "app/metaneutrons-release-please" ∷ []

abbrev pub max_local_input_bytes : ℕ
max_local_input_bytes = 4194304

abbrev pub max_event_bytes : ℕ
max_event_bytes = 1048576

abbrev pub max_pages : ℕ
max_pages = 20

abbrev pub page_size : ℕ
page_size = 100

abbrev pub governance_receipt_seconds : ℕ
governance_receipt_seconds = 900

abbrev pub input_paths : List String
input_paths =
    ".release-please-manifest.json" ∷ "version.txt" ∷ "CHANGELOG.md"
    ∷ "toolchains/aros-tools-runtime-v1.json" ∷ "toolchains/compiler-sdk-ci-selection-v2.json"
    ∷ ci_workflow ∷ "scripts/toolchain/materialize-aros-tools-runtime.py" ∷ []

abbrev pub receipt_keys : List String
receipt_keys =
    "schema" ∷ "assurance" ∷ "repository" ∷ "commit" ∷ "version" ∷ "tag" ∷ "pull_request" ∷ "runs"
    ∷ "governance" ∷ "inputs" ∷ "release_absence" ∷ []

abbrev pub Object : Type 0
Object = Dict String Value

-- `release-please--[A-Za-z0-9._-]+`
abbrev pub is_branch_rest : Option String → Bool
is_branch_rest none = false
is_branch_rest (some rest) =
    ltb 0 (char_count rest) && all_chars (λ c. is_alnum c || one_of "._-" c) rest

abbrev pub is_release_branch : String → Bool
is_release_branch s = is_branch_rest (strip_prefix "release-please--" s)

-- `0|[1-9][0-9]*`
abbrev pub is_version_number : String → Bool
is_version_number s = s == "0" || (first_char (between b'1' b'9') s && all_chars is_digit s)

abbrev pub are_version_numbers : List String → Bool
are_version_numbers (major ∷ minor ∷ patch ∷ []) =
    is_version_number major && is_version_number minor && is_version_number patch
are_version_numbers _ = false

-- `SEMVER`
unfoldable pub is_semver : String → Bool
unfolding split
is_semver s = are_version_numbers (split "." s)

abbrev pub is_oid : String → Bool
is_oid = is_hex 40

abbrev pub is_sha256 : String → Bool
is_sha256 = is_hex 64

-- `isinstance(value, str)` and a test of the text
abbrev pub is_text : (String → Bool) → Value → Bool
is_text test (str s) = test s
is_text test _ = false

abbrev pub positive_number : Value → Option ℕ
positive_number (int (pos (suc n))) = some (suc n)
positive_number _ = none

unfoldable pub positive_int : Value → String → Result ℕ
positive_int value label =
    or_raise (positive_number value) (admission_error (label <> " must be a positive integer"))

unfoldable pub required_object : Value → String → Result Object
required_object value label =
    or_raise (as_dict value) (admission_error (label <> " must be an object"))

unfoldable pub exact_keys : Value → List String → String → Result Object
unfolding required_object
exact_keys value expected label = do
  result ← required_object value label
  require (has_exactly expected result) (admission_error (label <> " has an unexpected field set"))
  ok result

-- `bool(value)`
unfoldable pub is_truthy : Value → Bool
unfolding is_number
is_truthy null = false
is_truthy (bool b) = b
is_truthy (int z) = if is_number (int z) 0 then false else true
is_truthy (float text) = if is_number (float text) 0 then false else true
is_truthy (str s) = ltb 0 (char_count s)
is_truthy (arr no_elements) = false
is_truthy (arr (element v vs)) = true
is_truthy (obj no_members) = false
is_truthy (obj (member k v fs)) = true

-- A list or a dict is no member of a set: the test of it raises.
abbrev pub require_hashable : Value → Result (Unit {0})
require_hashable (arr vs) = raise type_error
require_hashable (obj fs) = raise type_error
require_hashable _ = ok tt
