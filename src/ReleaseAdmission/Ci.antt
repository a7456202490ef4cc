-- ===== src/ReleaseAdmission/Ci.antt =====
-- `_require_ci` and `_no_candidate_tag_or_release` of release-admission-v2.py: the run of the CI on
-- the commit, and the tag that does not yet exist.
pub mod Tested
pub mod Absent
use aros_toolchains.Prelude.{
  ℕ, String, Bool, true, false, ◌&&◌, ◌||◌, not, if◌then◌else◌, List, [], ◌∷◌, Option, none, some,
  Result, ok, raise, admission_error, for_each, fold, ◌==◌, ◌<>◌, string_eq, nat_eq, ltb, any, keep,
  length,
}
use aros_toolchains.Prelude as P
use aros_toolchains.Json.{Value, str, get, is_str, is_null, as_dict, or_raise}
use aros_toolchains.Text.Bytes.{decimal}
use aros_toolchains.ReleaseAdmission.Checks.{
  Object, own_repository, ci_job_name, positive_int, required_object, require_hashable,
}
use aros_toolchains.ReleaseAdmission.Session.{
  World, Session, ◌>>=◌, ◌>>◌, pure, lift, hold, fail, api,
}
use aros_toolchains.ReleaseAdmission.Inputs.{is_main_push, is_own_run, is_ci_workflow, is_success}
use aros_toolchains.ReleaseAdmission.Pages.{Listing, paginated, plain}

abbrev pub is_push_of : String → Object → Bool
is_push_of head run = is_main_push run head && is_own_run run

-- A run of the CI and its attempt.
pub record Attempt : Type 0 where
  pub run_id : ℕ
  pub number : ℕ

unfoldable pub run_id_of : Object → Result ℕ
unfolding positive_int
run_id_of run = positive_int (get run "id") "Producer contracts run id"

-- `max(runs, key=...)`: the first of the greatest key
unfoldable pub latest : Object × ℕ → List Object → Result (Object × ℕ)
unfolding run_id_of
latest best [] = ok best
latest best (run ∷ runs) =
    P.◌>>=◌ (run_id_of run) (λ id. latest (if ltb best.1 id then (run, id) else best) runs)

abbrev pub runs_of : String → Listing
runs_of head = record {
  endpoint =
      "repos/" <> own_repository
      <> "/actions/workflows/ci.yml/runs?event=push&branch=main&head_sha=" <> head;
  array_field = some "workflow_runs";
  governance = false;
  identity_field = some "id";
}

abbrev pub run_path : ℕ → String
run_path run_id = "repos/" <> own_repository <> "/actions/runs/" <> decimal run_id

abbrev pub attempt_path : Attempt → String
attempt_path a = run_path a.run_id <> "/attempts/" <> decimal a.number

-- The run that was selected, as it is now; whether it succeeded.
unfoldable pub check_current : String → Attempt → Session Bool
unfolding api required_object positive_int decimal
check_current head a = do
  response ← api (run_path a.run_id) false false
  current ← lift (required_object response "latest CI run metadata")
  attempt ← lift (positive_int (get current "run_attempt") "latest Producer contracts attempt")
  hold (attempt == a.number) "Producer contracts latest run attempt changed during admission"
  id ← lift (positive_int (get current "id") "latest Producer contracts run id")
  hold (id == a.run_id && is_main_push current head && is_own_run current && is_ci_workflow current)
      "latest Producer contracts run identity changed during admission"
  pure (is_success current)

-- The attempt by its own path.
unfoldable pub check_attempt : String → Attempt → Session (Unit {0})
unfolding api required_object positive_int decimal
check_attempt head a = do
  response ← api (attempt_path a) false false
  attempt ← lift (required_object response "explicit latest CI attempt")
  id ← lift (positive_int (get attempt "id") "explicit Producer contracts run id")
  hold (id == a.run_id) "explicit Producer contracts attempt is not the latest successful main push"
  number ←
      lift (positive_int (get attempt "run_attempt") "explicit Producer contracts attempt number")
  hold (number == a.number && is_main_push attempt head && is_success attempt)
      "explicit Producer contracts attempt is not the latest successful main push"

abbrev pub is_contracts : Object → Bool
is_contracts job = is_str (get job "name") ci_job_name

abbrev pub is_one_success : List Object → Bool
is_one_success (job ∷ []) = is_str (get job "conclusion") "success"
is_one_success _ = false

-- A conclusion is looked up in a set only of a job that is completed.
unfoldable pub check_job : Object → Result (Unit {0})
check_job job =
    P.◌>>◌
      (P.require (is_str (get job "status") "completed")
        (admission_error "latest CI attempt contains an incomplete or unsuccessful job"))
      (P.◌>>◌ (require_hashable (get job "conclusion")) (
        P.require
          (is_str (get job "conclusion") "success" || is_str (get job "conclusion") "skipped")
          (admission_error "latest CI attempt contains an incomplete or unsuccessful job")))

abbrev pub jobs_of : Attempt → Listing
jobs_of a = record {
  endpoint = attempt_path a <> "/jobs";
  array_field = some "jobs";
  governance = false;
  identity_field = some "id";
}

unfoldable pub check_jobs : Attempt → Session (Unit {0})
unfolding paginated check_job decimal
check_jobs a = do
  jobs ← paginated (jobs_of a)
  hold (is_one_success (keep is_contracts jobs))
      "latest CI attempt lacks one unique successful contracts job"
  lift (for_each check_job jobs)

-- The run and the attempt of the event, if it is one of a run.
abbrev pub is_event_run : Option Attempt → Attempt → Bool
is_event_run none a = true
is_event_run (some event) a = event.run_id == a.run_id && event.number == a.number

abbrev pub if_event : Bool → Attempt → Session (Option Attempt)
if_event false a = pure none
if_event true a = check_jobs a >> pure (some a)

abbrev pub if_success : Bool → String → Option Attempt → Attempt → Session (Option Attempt)
if_success false head event a = pure none
if_success true head event a = check_attempt head a >> if_event (is_event_run event a) a

unfoldable pub check_run : String → Option Attempt → Object × ℕ → Session (Option Attempt)
unfolding positive_int check_current check_attempt check_jobs
check_run head event (selected, run_id) = do
  number ← lift (positive_int (get selected "run_attempt") "Producer contracts run attempt")
  hold (is_ci_workflow selected) "selected CI run is not the Producer contracts workflow"
  success ← check_current head (record { run_id = run_id; number = number })
  if_success success head event (record { run_id = run_id; number = number })

abbrev pub select_run : String → Option Attempt → List Object → Session (Option Attempt)
select_run head event [] = pure none
select_run head event (run ∷ runs) =
    lift (P.◌>>=◌ (run_id_of run) (λ id. latest (run, id) runs)) >>= check_run head event

unfoldable pub require_ci : String → Option Attempt → Session (Option Attempt)
unfolding paginated run_id_of latest check_run
require_ci head event = do
  runs ← paginated (runs_of head)
  select_run head event (keep (is_push_of head) runs)

abbrev pub has_tag : String → Object → Bool
has_tag tag release = is_str (get release "tag_name") tag

abbrev pub if_absent : Bool → String → Session Bool
if_absent false tag = pure false
if_absent true tag = paginated (plain ("repos/" <> own_repository <> "/releases")) >>= λ releases.
    pure (not (any (has_tag tag) releases))

unfoldable pub no_candidate_tag_or_release : String → Session Bool
unfolding api paginated
no_candidate_tag_or_release tag = do
  ref ← api ("repos/" <> own_repository <> "/git/ref/tags/" <> tag) true false
  if_absent (is_null ref) tag
