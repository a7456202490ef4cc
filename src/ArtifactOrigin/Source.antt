-- ===== src/ArtifactOrigin/Source.antt =====
-- The context of a run in scripts/toolchain/artifact-origin.py, as it is validated and as the
-- provider reports the run: `validate_context` and `observe_run_event`.
pub mod Observed
pub mod Examples
use aros_toolchains.Prelude.{
  ℕ, String, Bool, true, false, ◌&&◌, ◌||◌, List, [], ◌∷◌, Option, none, some, Result, ok, raise,
  origin_error, require, ◌>>=◌, ◌>>◌, ◌==◌, ◌<>◌, string_eq, nat_eq, contains, Dict, ltb,
}
use aros_toolchains.Json.{
  Value, ℤ, pos, negsuc, int, str, as_dict, as_str, is_str, get, item, or_raise, object,
}
use aros_toolchains.Text.{char_count, all_chars, is_alnum, is_hex, one_of, strip_prefix}
use aros_toolchains.Text.Bytes.{decimal}
use aros_toolchains.Text.Split.{split}
use aros_toolchains.ArtifactOrigin.Provider.{Context, positive}
use aros_toolchains.ArtifactOrigin.Token.{supported_events}
use aros_toolchains.ArtifactOrigin.Archive.{exact_keys}

-- `[p]+`
abbrev pub is_run_of : (ℕ → Bool) → String → Bool
is_run_of p s = ltb 0 (char_count s) && all_chars p s

-- [A-Za-z0-9._-], and with a slash
abbrev pub is_word_char : ℕ → Bool
is_word_char c = is_alnum c || one_of "._-" c

abbrev pub is_ref_char : ℕ → Bool
is_ref_char c = is_alnum c || one_of "._/-" c

abbrev pub are_two_names : List String → Bool
are_two_names (owner ∷ name ∷ []) = is_run_of is_word_char owner && is_run_of is_word_char name
are_two_names _ = false

-- `[A-Za-z0-9._-]+/[A-Za-z0-9._-]+`
unfoldable pub is_repository : String → Bool
unfolding split
is_repository s = are_two_names (split "/" s)

abbrev pub is_some_name : (ℕ → Bool) → Option String → Bool
is_some_name p none = false
is_some_name p (some s) = is_run_of p s

-- `refs/(heads|tags)/[A-Za-z0-9._/-]+`
unfoldable pub is_source_ref : String → Bool
is_source_ref s =
    is_some_name is_ref_char (strip_prefix "refs/heads/" s)
    || is_some_name is_ref_char (strip_prefix "refs/tags/" s)

abbrev pub is_yaml_file : List String → Bool
is_yaml_file (stem ∷ extension ∷ []) =
    is_run_of (λ c. is_alnum c || one_of "_-" c) stem && extension == "yml"
is_yaml_file _ = false

abbrev pub is_workflow_file : Option String → Bool
is_workflow_file none = false
is_workflow_file (some file) = is_yaml_file (split "." file)

-- `\.github/workflows/[A-Za-z0-9_-]+\.yml`
unfoldable pub is_workflow : String → Bool
unfolding split
is_workflow s = is_workflow_file (strip_prefix ".github/workflows/" s)

abbrev pub is_int_value : Value → Bool
is_int_value (int z) = true
is_int_value _ = false

abbrev pub is_exact : Value → ℕ → Bool
is_exact (int (pos m)) n = m == n
is_exact _ n = false

-- `type(value) is int and positive(value) == value`
unfoldable pub exact_number : Value → String → Result ℕ
unfolding positive
exact_number value message = do
  require (is_int_value value) (origin_error message)
  number ← positive value
  require (is_exact value number) (origin_error message)
  ok number

abbrev pub context_fields : List String
context_fields =
    "repository" ∷ "repository_id" ∷ "producer_commit" ∷ "source_ref" ∷ "workflow" ∷ "run_id"
    ∷ "run_attempt" ∷ []

-- A text of the context; one that is not a text is refused before any is looked at.
abbrev pub context_text : Dict String Value → String → Result String
context_text context key = do
  value ← item context key
  or_raise (as_str value) (origin_error "workflow/source selectors must be strings")

abbrev pub context_number : Dict String Value → String → Result ℕ
context_number context key = do
  value ← item context key
  exact_number value "selected provider identity is not an integer"

unfoldable pub validate_context : Value → Result Context
unfolding exact_keys is_repository is_source_ref is_workflow
validate_context value = do
  context ← exact_keys value context_fields
  repository ← context_text context "repository"
  source ← context_text context "producer_commit"
  ref ← context_text context "source_ref"
  workflow ← context_text context "workflow"
  require (is_repository repository) (origin_error "repository is invalid")
  require (is_hex 40 source) (origin_error "producer commit is invalid")
  require (is_source_ref ref) (origin_error "source ref is invalid")
  require (is_workflow workflow) (origin_error "workflow path is invalid")
  repository_id ← context_number context "repository_id"
  run_id ← context_number context "run_id"
  run_attempt ← context_number context "run_attempt"
  ok (record {
    repository = repository;
    repository_id = repository_id;
    producer_commit = source;
    source_ref = ref;
    workflow = workflow;
    run_id = run_id;
    run_attempt = run_attempt;
  })

-- The context as the document that it was read from.
abbrev pub context_value : Context → Value
context_value context = object (
    ("repository", str context.repository)
    ∷ ("repository_id", int (pos context.repository_id))
    ∷ ("producer_commit", str context.producer_commit)
    ∷ ("source_ref", str context.source_ref)
    ∷ ("workflow", str context.workflow)
    ∷ ("run_id", int (pos context.run_id))
    ∷ ("run_attempt", int (pos context.run_attempt))
    ∷ [])

-- What follows `refs/heads/` or `refs/tags/`.
abbrev pub branch_of : String → Option String
branch_of ref = elim (strip_prefix "refs/heads/" ref) [
  | some branch ↦ some branch
  | none ↦ strip_prefix "refs/tags/" ref
]

unfoldable pub run_attempt_path : Context → String
unfolding decimal
run_attempt_path context =
    "repos/"
    <> context.repository
    <> "/actions/runs/"
    <> decimal context.run_id
    <> "/attempts/"
    <> decimal context.run_attempt

abbrev pub is_run_workflow : Value → Context → Bool
is_run_workflow path context =
    is_str path context.workflow || is_str path (context.workflow <> "@" <> context.source_ref)

abbrev pub is_own_repository : Option (Dict String Value) → Context → Bool
is_own_repository none context = false
is_own_repository (some repository) context =
    is_exact (get repository "id") context.repository_id
    && is_str (get repository "full_name") context.repository

-- The checks on the run that the provider reports, in their order; its event.
unfoldable pub check_run : Value → Context → Result String
check_run value context = do
  run ← or_raise (as_dict value) (origin_error "provider run attempt is not an object")
  require
      (is_exact (get run "id") context.run_id
        && is_exact (get run "run_attempt") context.run_attempt)
      (origin_error "provider run attempt identity differs")
  require (is_str (get run "head_sha") context.producer_commit)
      (origin_error "provider run commit differs")
  branch ← or_raise (branch_of context.source_ref) (origin_error "provider source ref is invalid")
  require (is_str (get run "head_branch") branch) (origin_error "provider run branch/tag differs")
  require (is_run_workflow (get run "path") context)
      (origin_error "provider run workflow path differs")
  require (is_own_repository (as_dict (get run "head_repository")) context)
      (origin_error "provider run repository differs")
  event ← or_raise (as_str (get run "event")) (origin_error "provider run event is unsupported")
  require (contains supported_events event) (origin_error "provider run event is unsupported")
  ok event

-- The provider's answer at a path of its API, if `gh` gives one.
abbrev pub Api : Type 0
Api = String → Result Value

unfoldable pub observe_run_event : Api → Value → Result String
unfolding validate_context run_attempt_path check_run
observe_run_event api value = do
  selected ← validate_context value
  run ← api (run_attempt_path selected)
  check_run run selected
