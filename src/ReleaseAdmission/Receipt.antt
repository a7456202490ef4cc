-- ===== src/ReleaseAdmission/Receipt.antt =====
-- `validate_receipt` of release-admission-v2.py, and the receipt that an admission writes.
pub mod Accepted
use aros_toolchains.Prelude.{
  ℕ, String, Bool, true, false, ◌&&◌, ◌||◌, not, if◌then◌else◌, List, [], ◌∷◌, Option, none, some,
  Result, ok, raise, admission_error, require, refuse, ◌>>=◌, ◌>>◌, ◌==◌, ◌<>◌, string_eq, nat_eq,
  Dict, all, map,
}
use aros_toolchains.Json.{Value, int, pos, negsuc, str, get, is_str, as_str, or_raise, object}
use aros_toolchains.Json.Canonical.{is_number}
use aros_toolchains.ReleaseAdmission.Checks.{
  Object, own_repository, receipt_keys, input_paths, is_semver, is_oid, is_sha256, is_text,
  positive_int, exact_keys,
}
use aros_toolchains.ReleaseAdmission.Ci.{Attempt}

abbrev pub is_integer : Value → Bool
is_integer (int z) = true
is_integer _ = false

abbrev pub governance_keys : List String
governance_keys = "ruleset_id" ∷ "policy_sha256" ∷ "checked_at" ∷ []

abbrev pub absence_keys : List String
absence_keys =
    "candidate_tag_ref" ∷ "visible_release" ∷ "private_draft_absence" ∷ "required_start_recheck"
    ∷ []

abbrev pub recheck_keys : List String
recheck_keys = "method" ∷ "endpoint" ∷ "permission" ∷ "absence_status" ∷ []

abbrev pub release_endpoint : String → String
release_endpoint tag = "repos/" <> own_repository <> "/releases/tags/" <> tag

unfoldable pub check_runs : Object → Result (Unit {0})
unfolding exact_keys positive_int
check_runs receipt = do
  runs ← exact_keys (get receipt "runs") ("producer_contracts" ∷ []) "admission receipt runs"
  ci ←
      exact_keys (get runs "producer_contracts") ("id" ∷ "attempt" ∷ [])
        "producer contracts receipt"
  id ← positive_int (get ci "id") "admission receipt CI run id"
  attempt ← positive_int (get ci "attempt") "admission receipt CI attempt"
  ok tt

unfoldable pub check_governance : Object → Result (Unit {0})
unfolding exact_keys positive_int
check_governance receipt = do
  governance ← exact_keys (get receipt "governance") governance_keys "admission receipt governance"
  id ← positive_int (get governance "ruleset_id") "admission receipt ruleset id"
  require (is_text is_sha256 (get governance "policy_sha256"))
      (admission_error "admission receipt governance digest is malformed")
  require (is_integer (get governance "checked_at"))
      (admission_error "admission receipt governance time is malformed")

unfoldable pub check_inputs : Object → Result (Unit {0})
unfolding exact_keys
check_inputs receipt = do
  inputs ← exact_keys (get receipt "inputs") input_paths "admission receipt input hashes"
  require (all (λ e. is_text is_sha256 e.1) inputs)
      (admission_error "admission receipt input hash is malformed")

unfoldable pub check_absence : Object → String → Result (Unit {0})
unfolding exact_keys is_number
check_absence receipt tag = do
  absence ←
      exact_keys (get receipt "release_absence") absence_keys "admission receipt release absence"
  recheck ←
      exact_keys (get absence "required_start_recheck") recheck_keys
        "privileged release absence recheck"
  require
      (is_str (get absence "candidate_tag_ref") "absent"
        && is_str (get absence "visible_release") "absent"
        && is_str (get absence "private_draft_absence") "unproven"
        && is_str (get recheck "method") "GET"
        && is_str (get recheck "endpoint") (release_endpoint tag)
        && is_str (get recheck "permission") "contents:write"
        && is_number (get recheck "absence_status") 404)
      (admission_error
        "admission receipt overstates release absence or omits its privileged start recheck")

-- The version of the receipt, of which its tag is made.
unfoldable pub check_release : Object → Result String
unfolding is_semver positive_int
check_release receipt = do
  require
      (is_str (get receipt "schema") "aros-toolchains-release-admission-v2"
        && is_str (get receipt "assurance") "metadata-only"
        && is_str (get receipt "repository") own_repository)
      (admission_error "admission receipt identity is malformed")
  require (is_text is_oid (get receipt "commit"))
      (admission_error "admission receipt commit is malformed")
  version ←
      or_raise (as_str (get receipt "version"))
        (admission_error "admission receipt version or tag is malformed")
  require (is_semver version && is_str (get receipt "tag") ("v" <> version))
      (admission_error "admission receipt version or tag is malformed")
  number ← positive_int (get receipt "pull_request") "admission receipt pull request"
  ok version

unfoldable pub validate_receipt : Value → Result Object
unfolding exact_keys check_release check_runs check_governance check_inputs check_absence
validate_receipt value = do
  receipt ← exact_keys value receipt_keys "admission receipt"
  version ← check_release receipt
  check_runs receipt
  check_governance receipt
  check_inputs receipt
  check_absence receipt ("v" <> version)
  ok receipt

-- `_release_absence_requirement`
abbrev pub release_absence_requirement : String → Value
release_absence_requirement tag = object (
    ("candidate_tag_ref", str "absent")
    ∷ ("visible_release", str "absent")
    ∷ ("private_draft_absence", str "unproven")
    ∷ (
      "required_start_recheck",
      object (
          ("method", str "GET")
          ∷ ("endpoint", str (release_endpoint tag))
          ∷ ("permission", str "contents:write")
          ∷ ("absence_status", int (pos 404))
          ∷ []),
    )
    ∷ [])

-- What an admission found.
pub record Admitted : Type 0 where
  pub commit : String
  pub version : String
  pub pull_request : ℕ
  pub run : Attempt
  pub governance : Value
  pub digests : Dict String String

abbrev pub receipt_of : Admitted → Value
receipt_of a = object (
    ("schema", str "aros-toolchains-release-admission-v2")
    ∷ ("assurance", str "metadata-only")
    ∷ ("repository", str own_repository)
    ∷ ("commit", str a.commit)
    ∷ ("version", str a.version)
    ∷ ("tag", str ("v" <> a.version))
    ∷ ("pull_request", int (pos a.pull_request))
    ∷ (
      "runs",
      object (
          (
            "producer_contracts",
            object (("id", int (pos a.run.run_id)) ∷ ("attempt", int (pos a.run.number)) ∷ []),
          )
          ∷ []),
    )
    ∷ ("governance", a.governance)
    ∷ ("inputs", object (map (λ e. (e.0, str e.1)) a.digests))
    ∷ ("release_absence", release_absence_requirement ("v" <> a.version))
    ∷ [])
