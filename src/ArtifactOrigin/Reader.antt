-- ===== src/ArtifactOrigin/Reader.antt =====
-- `verify` of scripts/toolchain/artifact-origin.py: a signed origin against the run, the job and the
-- artifact that the provider reports, and against the archive that is downloaded.
pub mod Authentic
pub mod Examples
use aros_toolchains.Prelude.{
  ℕ, String, Bool, true, false, ◌&&◌, not, List, [], ◌∷◌, Option, none, some, Result, ok, raise,
  origin_error, type_error, require, ◌>>=◌, ◌>>◌, ◌==◌, ◌<>◌, string_eq, nat_eq, Dict, leb, ltb,
}
use aros_toolchains.Json.{
  Value, str, int, pos, is_str, as_dict, as_list, as_str, item, or_raise, object, array,
}
use aros_toolchains.Json.Canonical.{canonical_json}
use aros_toolchains.Json.Equality.{py_equal}
use aros_toolchains.Text.Bytes.{decimal}
use aros_toolchains.ArtifactOrigin.Provider.{
  Context, SelectedJob, select_job, SelectedArtifact, select_artifact, max_payload,
}
use aros_toolchains.ArtifactOrigin.Archive.{
  Measurement, same_measurement, exact_keys, ZipArchive, verify_zip,
}
use aros_toolchains.ArtifactOrigin.Source.{
  Api, exact_number, is_exact, context_value, observe_run_event,
}
use aros_toolchains.ArtifactOrigin.Selection.{Lane, selection}

-- What the reader is asked to find.
pub record Wanted : Type 0 where
  pub lane : Dict String Value
  pub job_name : String
  pub artifact_id : ℕ
  pub artifact_name : String
  pub expected_job : Option SelectedJob
  pub expected_artifact : Option SelectedArtifact
  pub expected_event : Option String

-- What it reads: the two files, before and after, and the parsed record; the answers of the provider;
-- the result of `gh attestation verify`; the archive that is downloaded.
pub record Sources : Type 0 where
  pub origin_name : String
  pub one_path : Bool
  pub origin_before : Result Measurement
  pub bundle_before : Result Measurement
  pub origin : Result Value
  pub api : Api
  pub jobs : Context → Result Value
  pub attestation : Context → Result Value
  pub download : Context → ℕ → Result ZipArchive
  pub origin_after : Result Measurement
  pub bundle_after : Result Measurement

abbrev pub job_value : SelectedJob → Value
job_value job = object (
    ("id", int (pos job.id))
    ∷ ("check_run_id", int (pos job.check_run_id))
    ∷ ("name", str job.name)
    ∷ [])

abbrev pub artifact_value : SelectedArtifact → Value
artifact_value a = object (
    ("id", int (pos a.id))
    ∷ ("name", str a.name)
    ∷ ("sha256", str a.sha256)
    ∷ ("size_in_bytes", int (pos a.size_in_bytes))
    ∷ [])

abbrev pub lane_value : Lane → Value
lane_value l = object (
    ("role", str l.role)
    ∷ ("group", str l.group)
    ∷ ("host", str l.host)
    ∷ ("profile", str l.profile)
    ∷ ("copy", str l.copy)
    ∷ [])

-- What was signed, as far as it is read; the digest is a text once it is used.
pub record SignedOrigin : Type 0 where
  pub job : SelectedJob
  pub artifact_id : ℕ
  pub artifact_name : String
  pub sha256 : Value
  pub size : ℕ
  pub files : Value

-- `expected is None or value == expected`
abbrev pub is_expected : Option Value → Value → Bool
is_expected none value = true
is_expected (some expected) value = py_equal value expected

abbrev pub is_expected_event : Option String → String → Bool
is_expected_event none event = true
is_expected_event (some expected) event = event == expected

abbrev pub job_option : Option SelectedJob → Option Value
job_option none = none
job_option (some job) = some (job_value job)

abbrev pub artifact_option : Option SelectedArtifact → Option Value
artifact_option none = none
artifact_option (some artifact) = some (artifact_value artifact)

abbrev pub signed_number : Dict String Value → String → Result ℕ
signed_number entry key = do
  value ← item entry key
  exact_number value "signed identity is not an integer"

-- The entries of the job and of the artifact, from the identities on.
unfoldable pub read_signed :
    Dict String Value → Dict String Value → Dict String Value → Wanted → Result SignedOrigin
read_signed origin job artifact wanted = do
  job_id ← signed_number job "id"
  check_id ← signed_number job "check_run_id"
  artifact_id ← signed_number artifact "id"
  size ← signed_number artifact "size_in_bytes"
  job_name ← item job "name"
  artifact_name ← item artifact "name"
  require
      (is_str job_name wanted.job_name
        && artifact_id == wanted.artifact_id
        && is_str artifact_name wanted.artifact_name)
      (origin_error "signed job/artifact selection differs")
  sha256 ← item artifact "sha256"
  files ← item origin "files"
  ok (record {
    job = record { id = job_id; check_run_id = check_id; name = wanted.job_name };
    artifact_id = artifact_id;
    artifact_name = wanted.artifact_name;
    sha256 = sha256;
    size = size;
    files = files;
  })

-- From the parsed record to the selection of its job and artifact.
unfoldable pub read_origin : Value → Context → Wanted → Result SignedOrigin
unfolding exact_keys canonical_json selection py_equal read_signed
read_origin value context wanted = do
  origin ← exact_keys value ("schema" ∷ "context" ∷ "selection" ∷ "job" ∷ "artifact" ∷ "files" ∷ [])
  schema ← item origin "schema"
  signed_context ← item origin "context"
  require
      (is_str schema "aros-toolchain-artifact-origin-v1"
        && canonical_json signed_context == canonical_json (context_value context))
      (origin_error "signed origin differs from independent selection")
  lane ← selection wanted.lane
  signed_lane ← item origin "selection"
  require (py_equal signed_lane (lane_value lane))
      (origin_error "signed origin differs from independent selection")
  job_document ← item origin "job"
  job ← exact_keys job_document ("id" ∷ "check_run_id" ∷ "name" ∷ [])
  artifact_document ← item origin "artifact"
  artifact ← exact_keys artifact_document ("id" ∷ "name" ∷ "sha256" ∷ "size_in_bytes" ∷ [])
  require (is_expected (job_option wanted.expected_job) job_document)
      (origin_error "signed owner differs from independently selected source job")
  require (is_expected (artifact_option wanted.expected_artifact) artifact_document)
      (origin_error "signed payload differs from independently selected source artifact")
  read_signed origin job artifact wanted

unfoldable pub invocation_of : Context → String
unfolding decimal
invocation_of context =
    "https://github.com/"
    <> context.repository
    <> "/actions/runs/"
    <> decimal context.run_id
    <> "/attempts/"
    <> decimal context.run_attempt

-- `value[key]` of a document of `gh`
abbrev pub member_of : Value → String → Result Value
member_of value key = or_raise (as_dict value) type_error >>= λ d. item d key

abbrev pub the_verified : Option (List Value) → Result Value
the_verified (some (result ∷ [])) = ok result
the_verified _ = raise (origin_error "origin must have one verified signature result")

-- What `gh attestation verify` printed, against the run and the record's bytes.
unfoldable pub check_attestation : Value → Context → String → String → Result (Unit {0})
unfolding invocation_of py_equal
check_attestation printed context origin_name digest = do
  verified ← the_verified (as_list printed)
  result ← member_of verified "verificationResult"
  signature ← member_of result "signature"
  certificate ← member_of signature "certificate"
  uri ← member_of certificate "runInvocationURI"
  require (is_str uri (invocation_of context))
      (origin_error "origin certificate differs from the exact run attempt")
  statement ← member_of result "statement"
  subject ← member_of statement "subject"
  require
      (py_equal subject (
        array (
          object (("name", str origin_name) ∷ ("digest", object (("sha256", str digest) ∷ [])) ∷ [])
          ∷ [])))
      (origin_error "origin attestation subject differs from the exact record bytes")

abbrev pub same_job : SelectedJob → SelectedJob → Bool
same_job a b = a.id == b.id && a.check_run_id == b.check_run_id && a.name == b.name

unfoldable pub artifact_path : Context → ℕ → String
unfolding decimal
artifact_path context id = "repos/" <> context.repository <> "/actions/artifacts/" <> decimal id

-- The completed job and the artifact, as the provider reports them now; the artifact's digest.
unfoldable pub check_reported : Sources → Context → Wanted → SignedOrigin → Result String
unfolding select_job artifact_path select_artifact
check_reported sources context wanted signed = do
  pages ← sources.jobs context
  job ← select_job pages context signed.job.check_run_id wanted.job_name "completed"
  require (same_job job signed.job) (origin_error "completed owning job differs from signed origin")
  observed ← sources.api (artifact_path context wanted.artifact_id)
  or_raise (as_dict observed) (origin_error "artifact metadata is invalid")
  digest ← or_raise (as_str signed.sha256) type_error
  artifact ← select_artifact observed context wanted.artifact_id wanted.artifact_name digest
  require (artifact.size_in_bytes == signed.size)
      (origin_error "provider artifact differs from signed origin")
  ok digest

module _ (sha256 : List ℕ → String) where
  -- The archive, by the numeric identity of the artifact, in a temporary file of its own; that a
  -- caller's `payload_archive` is a fresh path is a check on files, and is left out.
  unfoldable pub check_download : Sources → Context → SignedOrigin → String → Result (Unit {0})
  unfolding verify_zip
  check_download sources context signed digest = do
    require (ltb 0 signed.size && leb signed.size max_payload)
        (origin_error "payload download size is invalid")
    archive ← sources.download context signed.artifact_id
    verify_zip sha256 archive signed.files digest (some signed.size)

  unfoldable pub verify : Sources → Context → Wanted → Result (Unit {0})
  unfolding observe_run_event read_origin check_attestation check_reported check_download
  verify sources context wanted = do
    measured ← sources.origin_before
    bundle ← sources.bundle_before
    require (not sources.one_path)
        (origin_error "origin and signature bundle must be separate files")
    event ← observe_run_event sources.api (context_value context)
    require (is_expected_event wanted.expected_event event)
        (origin_error "provider run event changed during source verification")
    document ← sources.origin
    signed ← read_origin document context wanted
    printed ← sources.attestation context
    check_attestation printed context sources.origin_name measured.sha256
    digest ← check_reported sources context wanted signed
    check_download sources context signed digest
    origin_again ← sources.origin_after
    require (same_measurement origin_again measured)
        (origin_error "origin changed during verification")
    bundle_again ← sources.bundle_after
    require (same_measurement bundle_again bundle)
        (origin_error "signature bundle changed during verification")
