-- ===== src/ArtifactOrigin/Provider.antt =====
-- The observations of the provider in scripts/toolchain/artifact-origin.py: its numbers, the jobs
-- of a run attempt and the job that owns an artifact, the artifact itself.
pub mod Numbers
pub mod Jobs
use aros_toolchains.Prelude.{
  ℕ, suc, String, Bool, true, false, ◌&&◌, ◌||◌, not, if◌then◌else◌, List, [], ◌∷◌, ◌++◌, Option,
  none, some, Result, ok, raise, origin_error, require, fold, traverse, ◌>>=◌, ◌>>◌, ◌==◌, ◌<>◌,
  string_eq, nat_eq, Dict, lookup, map, keep, length, leb, ltb, all,
}
use aros_toolchains.Json.{
  ℤ, pos, negsuc, Value, null, bool, int, str, as_list, as_dict, is_str, item, or_raise, get,
  is_null, is_false,
}
use aros_toolchains.Text.{char_count, all_chars, first_char, is_digit, is_hex, between}
use aros_toolchains.Text.Bytes.{decimal, read_decimal}
use aros_toolchains.Sorted.{sorted_set, nat_ord}

abbrev pub max_payload : ℕ
max_payload = 34359738368

-- `str(value)` of a text or an integer
abbrev pub number_text : Value → Option String
number_text (str s) = some s
number_text (int (pos n)) = some (decimal n)
number_text (int (negsuc n)) = some ("-" <> decimal (suc n))
number_text _ = none

-- `[1-9][0-9]{0,15}`
abbrev pub is_canonical_number : String → Bool
is_canonical_number s =
    first_char (between b'1' b'9') s && all_chars is_digit s && leb (char_count s) 16

unfoldable pub positive : Value → Result ℕ
unfolding decimal
positive value = do
  text ← or_raise (number_text value) (origin_error "provider identity must be a canonical integer")
  require (is_canonical_number text) (origin_error "provider identity is not canonical")
  let number = read_decimal 0 text
  require (leb number 9007199254740991)
      (origin_error "provider identity exceeds the exact integer limit")
  ok number

-- A validated context.
pub record Context : Type 0 where
  pub repository : String
  pub repository_id : ℕ
  pub producer_commit : String
  pub source_ref : String
  pub workflow : String
  pub run_id : ℕ
  pub run_attempt : ℕ

-- The variables of the loop over the pages.
pub record Pages : Type 0 where
  pub totals : List ℕ
  pub jobs : List Value

unfoldable pub add_page : Pages → Value → Result Pages
unfolding positive
add_page s page_value = do
  page ← or_raise (as_dict page_value) (origin_error "job page is invalid")
  jobs ← or_raise (as_list (get page "jobs")) (origin_error "job page is invalid")
  total ← positive (get page "total_count")
  ok (record { totals = s.totals ++ total ∷ []; jobs = s.jobs ++ jobs })

-- `len(set(totals)) == 1 and count == totals[0]`
abbrev pub are_all : ℕ → List ℕ → Bool
are_all count [] = false
are_all count (t ∷ ts) = all (λ u. u == t) ts && count == t

abbrev pub Job : Type 0
Job = Dict String Value

unfoldable pub job_id : Job → Result ℕ
unfolding positive
job_id job = positive (get job "id")

unfoldable pub complete_jobs : Value → Result (List Job)
unfolding add_page job_id sorted_set
complete_jobs pages_value = do
  pages ← or_raise (as_list pages_value) (origin_error "job pages are invalid")
  require (ltb 0 (length pages) && leb (length pages) 100) (origin_error "job pages are invalid")
  s ← fold add_page (record { totals = []; jobs = [] }) pages
  require (are_all (length s.jobs) s.totals) (origin_error "job pages are incomplete")
  jobs ← traverse (λ v. or_raise (as_dict v) (origin_error "job metadata is invalid")) s.jobs
  ids ← traverse job_id jobs
  require (length (sorted_set ids) == length ids) (origin_error "job pages repeat an identity")
  ok jobs

-- The text of a check run's URL.
unfoldable pub check_url_of : Context → ℕ → String
unfolding decimal
check_url_of context check_id =
    "https://api.github.com/repos/" <> context.repository <> "/check-runs/" <> decimal check_id

abbrev pub exactly_one : List Job → Result Job
exactly_one (job ∷ []) = ok job
exactly_one _ = raise (origin_error "OIDC check ID does not select exactly one owning job")

-- `positive(value) == expected`
unfoldable pub require_number : Value → ℕ → String → Result (Unit {0})
unfolding positive
require_number value expected message = do
  number ← positive value
  require (number == expected) (origin_error message)

abbrev pub has_ended : Job → String → Bool
has_ended job status =
    if status == "completed"
    then is_str (get job "conclusion") "success"
    else is_null (get job "conclusion")

abbrev pub check_attempt : Option Value → ℕ → Result (Unit {0})
check_attempt none attempt = ok tt
check_attempt (some value) attempt = require_number value attempt "owning job attempt differs"

-- The owning job, in the order of its checks.
unfoldable pub check_job : Job → Context → String → String → Result (Unit {0})
unfolding require_number
check_job job context name status = do
  require (is_str (get job "name") name && is_str (get job "head_sha") context.producer_commit)
      (origin_error "owning job identity differs")
  require_number (get job "run_id") context.run_id "owning job identity differs"
  check_attempt (lookup "run_attempt" job) context.run_attempt
  require (is_str (get job "status") status)
      (origin_error "owning job has the wrong execution state")
  require (has_ended job status)
      (origin_error "owning job did not succeed or is not currently executing")

pub record SelectedJob : Type 0 where
  pub id : ℕ
  pub check_run_id : ℕ
  pub name : String

abbrev pub has_url : String → Job → Bool
has_url url job = is_str (get job "check_run_url") url

unfoldable pub select_job : Value → Context → ℕ → String → String → Result SelectedJob
unfolding complete_jobs check_url_of check_job job_id
select_job pages context check_id name status = do
  jobs ← complete_jobs pages
  job ← exactly_one (keep (has_url (check_url_of context check_id)) jobs)
  check_job job context name status
  id ← job_id job
  ok (record { id = id; check_run_id = check_id; name = name })

pub record SelectedArtifact : Type 0 where
  pub id : ℕ
  pub name : String
  pub sha256 : String
  pub size_in_bytes : ℕ

unfoldable pub select_artifact : Value → Context → ℕ → String → String → Result SelectedArtifact
unfolding require_number
select_artifact artifact_value context artifact_id name digest = do
  artifact ← or_raise (as_dict artifact_value) (origin_error "artifact metadata is invalid")
  require (is_hex 64 digest) (origin_error "artifact digest is invalid")
  run ←
      or_raise (as_dict (get artifact "workflow_run"))
        (origin_error "artifact has no workflow identity")
  require_number (get artifact "id") artifact_id "artifact ID/name/digest/state differs"
  require
      (is_str (get artifact "name") name
        && is_str (get artifact "digest") ("sha256:" <> digest)
        && is_false (get artifact "expired"))
      (origin_error "artifact ID/name/digest/state differs")
  require_number (get run "id") context.run_id "artifact repository/run/source differs"
  require (is_str (get run "head_sha") context.producer_commit)
      (origin_error "artifact repository/run/source differs")
  require_number (get run "repository_id") context.repository_id
      "artifact repository/run/source differs"
  require_number (get run "head_repository_id") context.repository_id
      "artifact repository/run/source differs"
  size ← positive (get artifact "size_in_bytes")
  require (leb size max_payload) (origin_error "provider artifact exceeds the byte limit")
  ok (record { id = artifact_id; name = name; sha256 = digest; size_in_bytes = size })
