-- ===== src/ArtifactOrigin/Token.antt =====
-- `require_oidc_claims` of scripts/toolchain/artifact-origin.py: the claims of the runner's token
-- against the context that was selected.
pub mod Bound
use aros_toolchains.Prelude.{
  ℕ, ◌+◌, String, Bool, true, false, ◌&&◌, ◌||◌, not, if◌then◌else◌, List, [], ◌∷◌, Option, none,
  some, Result, ok, origin_error, require, for_each, ◌>>=◌, ◌>>◌, ◌==◌, ◌<>◌, contains, string_eq,
  Dict, keys, leb, ltb,
}
use aros_toolchains.Json.{
  get, ℤ, pos, negsuc, Value, null, bool, int, float, str, arr, obj, is_str, as_dict, or_raise,
}
use aros_toolchains.ArtifactOrigin.Provider.{Context, positive, require_number}

abbrev pub audience : String
audience = "aros-toolchain-artifact-origin"

abbrev pub supported_events : List String
supported_events = "push" ∷ "workflow_dispatch" ∷ "workflow_run" ∷ []

abbrev pub Claims : Type 0
Claims = Dict String Value

-- The claims that are compared as texts, with what is expected of them.
abbrev pub workflow_ref_of : Context → String
workflow_ref_of context = context.repository <> "/" <> context.workflow <> "@" <> context.source_ref

abbrev pub expected_texts : Context → List (String × String)
expected_texts context =
    ("repository", context.repository)
    ∷ ("sha", context.producer_commit)
    ∷ ("ref", context.source_ref)
    ∷ ("workflow_ref", workflow_ref_of context)
    ∷ ("workflow_sha", context.producer_commit)
    ∷ ("runner_environment", "github-hosted")
    ∷ []

abbrev pub expected_numbers : Context → List (String × ℕ)
expected_numbers context =
    ("repository_id", context.repository_id)
    ∷ ("run_id", context.run_id)
    ∷ ("run_attempt", context.run_attempt)
    ∷ []

abbrev pub check_text : Claims → String × String → Result (Unit {0})
check_text claims (key, expected) =
    require (is_str (get claims key) expected)
      (origin_error "OIDC workflow/source/runner binding differs")

abbrev pub check_number : Claims → String × ℕ → Result (Unit {0})
check_number claims (key, expected) =
    require_number (get claims key) expected "OIDC provider identity differs"

-- `identity_shape`
abbrev pub text_shape : Value → String → String
text_shape null expected = "null"
text_shape (str s) expected =
    if s == "" then "empty" else (if s == expected then "matches-caller" else "differs")
text_shape (bool b) expected = "non-string"
text_shape (int n) expected = "non-string"
text_shape (float t) expected = "non-string"
text_shape (arr vs) expected = "non-string"
text_shape (obj fs) expected = "non-string"

unfoldable pub identity_shape : Claims → String → String → String
identity_shape claims key expected =
    if not (contains (keys claims) key) then "absent" else text_shape (get claims key) expected

-- The pair that a called workflow adds to the claims.
unfoldable pub check_job_workflow : Claims → Context → Result (Unit {0})
unfolding identity_shape
check_job_workflow claims context =
    if contains (keys claims) "job_workflow_ref" || contains (keys claims) "job_workflow_sha"
    then require
        (identity_shape claims "job_workflow_ref" (workflow_ref_of context) == "matches-caller"
          && identity_shape claims "job_workflow_sha" context.producer_commit == "matches-caller")
        (origin_error (
          "unapproved job workflow identity (ref="
          <> identity_shape claims "job_workflow_ref" (workflow_ref_of context)
          <> ", sha="
          <> identity_shape claims "job_workflow_sha" context.producer_commit
          <> "); no token or claim values logged"))
    else ok tt

-- An integer time. A negative one fails the tests below as zero does.
abbrev pub epoch_of : Value → Option ℕ
epoch_of (int (pos n)) = some n
epoch_of (int (negsuc n)) = some 0
epoch_of _ = none

abbrev pub read_epoch : Claims → String → Result ℕ
read_epoch claims key =
    or_raise (epoch_of (get claims key)) (origin_error "OIDC token times are invalid")

-- `0 < issued <= now + 30 and 0 < starts <= now + 30 < expires
--  and issued <= expires <= issued + 3600`
abbrev pub is_current : ℕ → ℕ → ℕ → ℕ → Bool
is_current now issued starts expires =
    (ltb 0 issued && leb issued (now + 30))
    && (ltb 0 starts && leb starts (now + 30))
    && ltb (now + 30) expires
    && (leb issued expires && leb expires (issued + 3600))

unfoldable pub require_oidc_claims : Value → Context → ℕ → String → Result ℕ
unfolding require_number check_job_workflow positive
require_oidc_claims claims_value context now expected_event = do
  claims ← or_raise (as_dict claims_value) (origin_error "OIDC claims are not an object")
  require
      (is_str (get claims "iss") "https://token.actions.githubusercontent.com"
        && is_str (get claims "aud") audience)
      (origin_error "OIDC issuer or audience differs")
  require
      (contains supported_events expected_event && is_str (get claims "event_name") expected_event)
      (origin_error "OIDC event differs from the observed provider event")
  for_each (check_text claims) (expected_texts context)
  for_each (check_number claims) (expected_numbers context)
  check_job_workflow claims context
  issued ← read_epoch claims "iat"
  starts ← read_epoch claims "nbf"
  expires ← read_epoch claims "exp"
  require (is_current now issued starts expires)
      (origin_error "OIDC token is expired or outside its time bound")
  positive (get claims "check_run_id")
