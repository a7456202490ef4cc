-- ===== src/ReleaseAdmission/Admit.antt =====
-- `admission` of release-admission-v2.py, the recheck of a saved receipt, and the probe of what the
-- job's token sees.
pub mod Fit
pub mod Observed
pub mod Probed
pub mod Rechecked
use aros_toolchains.Prelude.{
  ℕ, String, Bool, true, false, ◌&&◌, not, if◌then◌else◌, List, [], ◌∷◌, Option, none, some, Result,
  ok, raise, admission_error, ◌==◌, ◌<>◌, string_eq, nat_eq, keep, lookup, length,
}
use aros_toolchains.Prelude as P
use aros_toolchains.Json.{
  Value, null, bool, arr, obj, int, pos, str, get, is_str, as_list, elements, or_raise, object,
}
use aros_toolchains.Json.Canonical.{canonical_json}
use aros_toolchains.Json.Equality.{py_equal}
use aros_toolchains.Text.Bytes.{decimal, encode}
use aros_toolchains.ReleaseAdmission.Checks.{Object, own_repository, positive_int, required_object}
use aros_toolchains.ReleaseAdmission.Session.{
  World, Session, ◌>>=◌, ◌>>◌, pure, lift, hold, fail, ask, api,
}
use aros_toolchains.ReleaseAdmission.Pages.{Listing, paginated, plain}
use aros_toolchains.ReleaseAdmission.Inputs.{
  Event, dispatched, completed_run, Inputs, load_head, event_context, committed_release_version,
  input_context,
}
use aros_toolchains.ReleaseAdmission.Runtime.{
  require_main, require_active_repository, require_runtime,
}
use aros_toolchains.ReleaseAdmission.Governance.{governance, is_active_tag, public_policy}
use aros_toolchains.ReleaseAdmission.Governance.Bypass.{is_int}
use aros_toolchains.ReleaseAdmission.Pull.{candidate_pull}
use aros_toolchains.ReleaseAdmission.Ci.{Attempt, require_ci, no_candidate_tag_or_release}
use aros_toolchains.ReleaseAdmission.Receipt.{Admitted, receipt_of, validate_receipt}

-- `if not test: return None`
abbrev pub only_if {ℓ} : {A : Type ℓ} → Bool → Session (Option A) → Session (Option A)
only_if false rest = pure none
only_if true rest = rest

-- `if value is None: return None`
abbrev pub if_found {ℓ κ} :
    {A : Type ℓ} {B : Type κ} → Option A → (A → Session (Option B)) → Session (Option B)
if_found none rest = pure none
if_found (some a) rest = rest a

abbrev pub event_run : Event → Option Attempt
event_run dispatched = none
event_run (completed_run id attempt) = some (record { run_id = id; number = attempt })

-- From the tag on: the repository is active, there is no tag, and main is still the commit.
unfoldable pub conclude : Admitted → Session (Option Value)
unfolding require_active_repository no_candidate_tag_or_release require_main validate_receipt
conclude a = do
  require_active_repository
  absent ← no_candidate_tag_or_release ("v" <> a.version)
  only_if absent (do
    require_active_repository
    current ← require_main a.commit
    only_if current
        (do receipt ← lift (validate_receipt (receipt_of a)); pure (some (receipt_of a))))

-- From the pull request on.
unfoldable pub admit_pull : Option Value → String → Event → String → ℕ → Session (Option Value)
unfolding input_context governance require_runtime require_ci conclude
admit_pull governance_receipt head event version number = do
  inputs ← input_context version
  policy ← governance governance_receipt
  require_runtime inputs.lock
  run ← require_ci head (event_run event)
  if_found run (λ attempt. conclude (record {
    commit = head;
    version = version;
    pull_request = number;
    run = attempt;
    governance = policy;
    digests = inputs.digests;
  }))

-- From the first look at main on.
unfoldable pub admit_current : Option Value → String → Event → Session (Option Value)
unfolding committed_release_version candidate_pull admit_pull
admit_current governance_receipt head event = do
  clean ← ask (λ w. w.is_clean)
  hold clean "tracked checkout differs from HEAD"
  version ← committed_release_version
  pull ← candidate_pull head version
  if_found pull (admit_pull governance_receipt head event version)

-- From the event on.
unfoldable pub admit_event : Option Value → String → Event → Session (Option Value)
unfolding require_main admit_current
admit_event governance_receipt head event = do
  current ← require_main head
  only_if current (admit_current governance_receipt head event)

unfoldable pub admission : Option Value → Session (Option Value)
unfolding load_head event_context admit_event
admission governance_receipt = do
  head ← load_head
  event ← event_context head
  if_found event (admit_event governance_receipt head)

-- What `admit` appends to the output of its job.
unfoldable pub github_output : Option Value → String
unfolding canonical_json
github_output none = "ready=false\n"
github_output (some receipt) = "ready=true\nadmission=" <> canonical_json receipt <> "\n"

abbrev pub same_receipt : Option Value → Value → Session Value
same_receipt none saved = fail "read-only admission changed before recheck"
same_receipt (some current) saved =
    hold (py_equal current saved) "read-only admission changed before recheck" >> pure current

-- `recheck` on the document that was saved: what it writes.
unfoldable pub recheck : Value → Session Value
unfolding validate_receipt admission py_equal
recheck saved = do
  receipt ← lift (validate_receipt saved)
  current ← admission (some (get receipt "governance"))
  same_receipt current saved

-- The bypass list that the token sees, if it does.
abbrev pub bypass_list : Option Value → Result (Option (List Value))
bypass_list none = ok none
bypass_list (some (arr vs)) = ok (some (elements vs))
bypass_list (some _) = raise (admission_error "visibility bypass field is malformed")

abbrev pub bypass_count : Option (List Value) → Value
bypass_count none = null
bypass_count (some actors) = int (pos (length actors))

abbrev pub is_visible : Option (List Value) → Bool
is_visible none = false
is_visible (some actors) = true

abbrev pub is_explicitly_empty : Option (List Value) → Bool
is_explicitly_empty (some []) = true
is_explicitly_empty _ = false

abbrev pub the_active : List Object → Result Object
the_active (entry ∷ []) = ok entry
the_active _ = raise (admission_error "visibility probe requires one active tag ruleset")

unfoldable pub visibility_report : String → ℕ → Option (List Value) → String → Value
visibility_report profile identifier bypass policy_sha256 = object (
    ("schema", str "aros-toolchains-governance-visibility-probe-v1")
    ∷ ("assurance", str "visibility-only-not-release-admission")
    ∷ ("repository", str own_repository)
    ∷ ("declared_job_contents_permission", str profile)
    ∷ ("ruleset_id", int (pos identifier))
    ∷ ("bypass_visible", bool (is_visible bypass))
    ∷ ("bypass_count", bypass_count bypass)
    ∷ ("explicitly_empty_bypass", bool (is_explicitly_empty bypass))
    ∷ ("public_policy_sha256", str policy_sha256)
    ∷ [])

-- `probe-governance-visibility`: the report that it writes.
unfoldable pub probe_visibility : String → Session Value
unfolding require_active_repository paginated positive_int api required_object public_policy
    canonical_json decimal visibility_report
probe_visibility profile = do
  require_active_repository
  listing ←
      paginated
        (plain ("repos/" <> own_repository <> "/rulesets?includes_parents=true&targets=tag"))
  entry ← lift (the_active (keep is_active_tag listing))
  identifier ← lift (positive_int (get entry "id") "visibility ruleset id")
  response ← api ("repos/" <> own_repository <> "/rulesets/" <> decimal identifier) false false
  details ← lift (required_object response "visibility ruleset")
  hold (is_int (get details "id") identifier && is_active_tag details)
      "visibility ruleset identity changed"
  bypass ← lift (bypass_list (lookup "bypass_actors" details))
  policy ← lift (public_policy details)
  sha256 ← ask (λ w. w.sha256)
  require_active_repository
  pure (visibility_report profile identifier bypass (sha256 (encode (canonical_json policy))))
