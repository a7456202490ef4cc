-- ===== src/ArtifactOrigin/Selection.antt =====
-- The lane and the artifacts that a caller selects in scripts/toolchain/artifact-origin.py:
-- `selection`, `source_selection` and `select_source_job`.
pub mod Separate
pub mod SourceJob
pub mod Examples
use aros_toolchains.Prelude.{
  ℕ, ◌*◌, String, Bool, true, false, ◌&&◌, ◌||◌, not, if◌then◌else◌, List, [], ◌∷◌, Option, none,
  some, Result, ok, raise, origin_error, type_error, require, ◌>>=◌, ◌>>◌, ◌==◌, ◌<>◌, string_eq,
  nat_eq, contains, Dict, lookup, leb, ltb,
}
use aros_toolchains.Json.{Value, str, as_dict, as_str, is_str, get, item, or_raise}
use aros_toolchains.Text.{
  char_count, all_chars, first_char, is_alnum, is_digit, is_hex, is_run, between, strip_prefix,
}
use aros_toolchains.ArtifactOrigin.Provider.{
  Context, Job, positive, job_id, complete_jobs, SelectedJob, select_job, SelectedArtifact,
  max_payload,
}
use aros_toolchains.ArtifactOrigin.Archive.{exact_keys}
use aros_toolchains.ArtifactOrigin.Source.{is_word_char, exact_number, validate_context}

abbrev pub max_metadata : ℕ
max_metadata = 16 * 1024 * 1024

-- `SEGMENT` and `PROFILE`
abbrev pub is_segment : String → Bool
is_segment s = first_char is_alnum s && all_chars is_word_char s && leb (char_count s) 128

abbrev pub is_profile : String → Bool
is_profile s = is_run is_word_char 128 s && not (s == "." || s == "..")

pub record Lane : Type 0 where
  pub role : String
  pub group : String
  pub host : String
  pub profile : String
  pub copy : String

abbrev pub lane_text : Dict String Value → String → Result String
lane_text args key = do
  value ← item args key
  or_raise (as_str value) (origin_error "artifact lane selection is invalid")

abbrev pub is_copy : String → Bool
is_copy copy = contains ("a" ∷ "b" ∷ []) copy

abbrev pub roles : List String
roles = "build" ∷ "comparison" ∷ "compatibility" ∷ "diagnostic" ∷ "sdk" ∷ []

unfoldable pub selection : Dict String Value → Result Lane
selection args = do
  role ← lane_text args "role"
  group ← lane_text args "group"
  host ← lane_text args "host"
  profile ← lane_text args "profile"
  copy ← lane_text args "copy"
  require
      (is_segment role
        && is_segment group
        && is_segment host
        && is_segment copy
        && is_profile profile)
      (origin_error "artifact lane selection is invalid")
  require (contains roles role && contains ("a" ∷ "b" ∷ "none" ∷ []) copy)
      (origin_error "artifact role/copy is invalid")
  require (if role == "build" then is_copy copy else not (is_copy copy))
      (origin_error "artifact copy does not match its role")
  ok (record { role = role; group = group; host = host; profile = profile; copy = copy })

-- `selection(Namespace(**lane)) == lane`
abbrev pub is_lane : Dict String Value → Lane → Bool
is_lane lane chosen =
    is_str (get lane "role") chosen.role
    && is_str (get lane "group") chosen.group
    && is_str (get lane "host") chosen.host
    && is_str (get lane "profile") chosen.profile
    && is_str (get lane "copy") chosen.copy

-- The artifact of a selection, or its proof, within a bound.
unfoldable pub read_artifact : Value → ℕ → Result SelectedArtifact
unfolding exact_keys exact_number
read_artifact value limit = do
  entry ← exact_keys value ("id" ∷ "name" ∷ "sha256" ∷ "size_in_bytes" ∷ [])
  id_value ← item entry "id"
  id ← exact_number id_value "source artifact selection is invalid"
  size_value ← item entry "size_in_bytes"
  size ← exact_number size_value "source artifact selection is invalid"
  require (leb size limit) (origin_error "source artifact selection is invalid")
  name_value ← item entry "name"
  name ← or_raise (as_str name_value) (origin_error "source artifact selection is invalid")
  sha256_value ← item entry "sha256"
  sha256 ← or_raise (as_str sha256_value) (origin_error "source artifact selection is invalid")
  require (is_segment name && is_hex 64 sha256)
      (origin_error "source artifact selection is invalid")
  ok (record { id = id; name = name; sha256 = sha256; size_in_bytes = size })

abbrev pub same_context : Context → Context → Bool
same_context a b =
    a.repository == b.repository
    && a.repository_id == b.repository_id
    && a.producer_commit == b.producer_commit
    && a.source_ref == b.source_ref
    && a.workflow == b.workflow
    && a.run_id == b.run_id
    && a.run_attempt == b.run_attempt

-- The relation of the source's run to the caller's.
abbrev pub check_attempts : Bool → Context → Context → Result (Unit {0})
check_attempts true source caller =
    require (same_context source caller)
      (origin_error "same-attempt source context must exactly match current caller")
check_attempts false source caller =
    require (not (source.run_id == caller.run_id && source.run_attempt == caller.run_attempt))
      (origin_error "source attempt must differ from the current caller attempt")

-- The job that the selection names.
pub record ExpectedJob : Type 0 where
  pub id : ℕ
  pub name : String

unfoldable pub read_job : Value → Result ExpectedJob
unfolding exact_keys exact_number
read_job value = do
  job ← exact_keys value ("id" ∷ "name" ∷ [])
  id_value ← item job "id"
  id ← exact_number id_value "source job selection is invalid"
  name_value ← item job "name"
  name ← or_raise (as_str name_value) (origin_error "source job selection is invalid")
  require (ltb 0 (char_count name) && leb (char_count name) 256)
      (origin_error "source job selection is invalid")
  ok (record { id = id; name = name })

-- A selection that was validated.
pub record SourceSelection : Type 0 where
  pub context : Context
  pub lane : Lane
  pub job : ExpectedJob
  pub artifact : SelectedArtifact
  pub proof : SelectedArtifact

unfoldable pub source_selection : Value → Context → Bool → Result SourceSelection
unfolding validate_context exact_keys selection read_job read_artifact
source_selection value caller same_attempt = do
  selected ←
      exact_keys value ("schema" ∷ "context" ∷ "selection" ∷ "job" ∷ "artifact" ∷ "proof" ∷ [])
  schema ← item selected "schema"
  require (is_str schema "aros-toolchain-artifact-selection-v1")
      (origin_error "source selection schema differs")
  context_value ← item selected "context"
  source ← validate_context context_value
  require (source.repository == caller.repository && source.repository_id == caller.repository_id)
      (origin_error "cross-repository artifact recovery is not admitted")
  check_attempts same_attempt source caller
  lane_value ← item selected "selection"
  lane ← exact_keys lane_value ("role" ∷ "group" ∷ "host" ∷ "profile" ∷ "copy" ∷ [])
  chosen ← selection lane
  require (is_lane lane chosen) (origin_error "source lane differs")
  job_value ← item selected "job"
  job ← read_job job_value
  artifact_value ← item selected "artifact"
  artifact ← read_artifact artifact_value max_payload
  proof_value ← item selected "proof"
  proof ← read_artifact proof_value (2 * max_metadata)
  require (not (artifact.id == proof.id) && not (artifact.name == proof.name))
      (origin_error "payload and proof must have separate artifact identities")
  ok (record { context = source; lane = chosen; job = job; artifact = artifact; proof = proof })

-- `[job for job in jobs if positive(job.get("id")) == number]`
unfoldable pub with_id : ℕ → List Job → Result (List Job)
unfolding job_id
with_id number [] = ok []
with_id number (job ∷ jobs) = do
  id ← job_id job
  rest ← with_id number jobs
  ok (if id == number then job ∷ rest else rest)

abbrev pub the_source_job : List Job → String → Result Job
the_source_job (job ∷ []) name = do
  require (is_str (get job "name") name)
      (origin_error "source job ID/name does not select one provider job")
  ok job
the_source_job _ name = raise (origin_error "source job ID/name does not select one provider job")

-- `job.get("check_run_url", "")`, which `re.fullmatch` takes only as a text
abbrev pub url_text : Option Value → Result String
url_text none = ok ""
url_text (some value) = or_raise (as_str value) type_error

-- `[1-9][0-9]*` after the prefix of the repository's check runs
abbrev pub check_digits : Option String → Result String
check_digits none = raise (origin_error "source job check URL is invalid")
check_digits (some digits) = do
  require (first_char (between b'1' b'9') digits && all_chars is_digit digits)
      (origin_error "source job check URL is invalid")
  ok digits

abbrev pub check_runs_url : Context → String
check_runs_url context = "https://api.github.com/repos/" <> context.repository <> "/check-runs/"

unfoldable pub select_source_job : Value → Context → ExpectedJob → Result SelectedJob
unfolding complete_jobs with_id positive select_job
select_source_job pages context expected = do
  jobs ← complete_jobs pages
  selected ← with_id expected.id jobs
  job ← the_source_job selected expected.name
  url ← url_text (lookup "check_run_url" job)
  digits ← check_digits (strip_prefix (check_runs_url context) url)
  check_id ← positive (str digits)
  select_job pages context check_id expected.name "completed"
