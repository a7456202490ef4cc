-- ===== src/ReleaseAdmission/Ci/Tested.antt =====
-- What an accepted run of the CI is.
use mathlib.Core.Path.{subst}
use aros_toolchains.Prelude.{
  ℕ, suc, ◌<◌, String, Bool, true, false, ◌&&◌, ◌||◌, not, List, [], ◌∷◌, Option, none, some,
  Result, ok, admission_error, ◌<>◌, ◌==◌, nat_eq, string_eq, require, require-ok, require_held,
  for_each, for_each-All, >>=-ok, keep, All, All-map, any, both_true, some_injective, ok-injective,
  eq_of_test, ◌≡◌, refl, ap, arith, sym, ◌∙◌,
}
use aros_toolchains.Prelude
use aros_toolchains.Json.{Value, int, pos, get, is_str, as_dict}
use aros_toolchains.ReleaseAdmission.Checks.Inverted.{positive_int-eq}
use aros_toolchains.ReleaseAdmission.Checks.{
  Object, positive_int, required_object, require_hashable,
}
use aros_toolchains.ReleaseAdmission.Session.{World, next-ok, answered}
use aros_toolchains.ReleaseAdmission.Session.Returned.{
  lift_returned, lift-ok, hold-ok, api-ok, answered_lem,
}
use aros_toolchains.ReleaseAdmission.Pages.{paginated}
use aros_toolchains.ReleaseAdmission.Inputs.{is_main_push, is_own_run, is_ci_workflow, is_success}
use aros_toolchains.ReleaseAdmission.Runtime.Main.{required_object_lem}
use aros_toolchains.ReleaseAdmission.Ci.{
  Attempt, run_path, attempt_path, check_current, check_attempt, check_job, check_jobs, jobs_of,
  is_contracts, is_one_success, is_event_run, if_event, if_success, check_run, select_run, runs_of,
  is_push_of, run_id_of, latest, require_ci,
}

-- The answer to the request `n` is an object: this run, of a push of the commit to main, ended in
-- success.
pub record IsSuccess (w : World) (n : ℕ) (path head : String) (a : Attempt) : Type 0 where
  pub response : Value
  pub answer : w.reply n path ≡ answered response
  pub run : Object
  pub is_run : as_dict response ≡ some run
  pub numbered : get run "id" ≡ int (pos a.run_id)
  pub attempted : get run "run_attempt" ≡ int (pos a.number)
  pub positive : (0 < a.run_id) × (0 < a.number)
  pub pushed : is_main_push run head ≡ true
  pub succeeded : is_success run ≡ true

same_positive :
    (v : Value) (label : String) (m n : ℕ)
    → positive_int v label ≡ ok m
    → (m == n) ≡ true
    → (v ≡ int (pos n)) × (0 < n)
same_positive v label m n h same =
    let p = positive_int-eq v label m h in
    let e = eq_of_test m n same in (p.0 ∙ ap (λ k. int (pos k)) e, omega (arith, e, p.1))

check_current-IsSuccess :
    (w : World) (n m : ℕ) (head : String) (a : Attempt)
    → check_current head a w n ≡ ok (true, m)
    → IsSuccess w n (run_path a.run_id) head a
unfolding check_current
check_current-IsSuccess w n m head a h =
    api-ok (run_path a.run_id) false false w n _ h λ response replied h1.
      lift-ok (required_object response "latest CI run metadata") w (suc n) _ h1 λ run is_run h2.
        lift-ok (positive_int (get run "run_attempt") "latest Producer contracts attempt") w (suc n)
          _ h2
          λ attempt is_attempt h3.
            hold-ok (attempt == a.number)
              "Producer contracts latest run attempt changed during admission" w (suc n) _ h3
              λ same_attempt h4.
                lift-ok (positive_int (get run "id") "latest Producer contracts run id") w (suc n) _
                  h4
                  λ id is_id h5.
                    hold-ok
                      (id == a.run_id
                        && is_main_push run head
                        && is_own_run run
                        && is_ci_workflow run)
                      "latest Producer contracts run identity changed during admission" w (suc n) _
                      h5
                      λ same h6.
                        let identity =
                          same_positive (get run "id") "latest Producer contracts run id" id
                            a.run_id is_id
                            (both_true _ _ (both_true _ _ (both_true _ _ same).0).0).0 in
                        let number =
                          same_positive (get run "run_attempt") "latest Producer contracts attempt"
                            attempt a.number is_attempt same_attempt in
                        record {
                          numbered = identity.0;
                          attempted = number.0;
                          positive = (identity.1, number.1);
                          response = response;
                          answer =
                              answered_lem (w.reply n (run_path a.run_id)) (run_path a.run_id)
                                response replied;
                          run = run;
                          is_run = required_object_lem response "latest CI run metadata" run is_run;
                          pushed = (both_true _ _ (both_true _ _ (both_true _ _ same).0).0).1;
                          succeeded = ap (λ t. t.0) (ok-injective h6);
                        }

check_attempt-IsSuccess :
    (w : World) (n m : ℕ) (head : String) (a : Attempt)
    → check_attempt head a w n ≡ ok (tt, m)
    → IsSuccess w n (attempt_path a) head a
unfolding check_attempt
check_attempt-IsSuccess w n m head a h =
    api-ok (attempt_path a) false false w n _ h λ response replied h1.
      lift-ok (required_object response "explicit latest CI attempt") w (suc n) _ h1
        λ run is_run h2.
          lift-ok (positive_int (get run "id") "explicit Producer contracts run id") w (suc n) _ h2
            λ id is_id h3.
              hold-ok (id == a.run_id)
                "explicit Producer contracts attempt is not the latest successful main push" w
                (suc n) _ h3
                λ same_id h4.
                  lift-ok
                    (positive_int (get run "run_attempt")
                      "explicit Producer contracts attempt number")
                    w (suc n) _ h4
                    λ number is_number h5.
                      let same =
                        require_held (number == a.number && is_main_push run head && is_success run)
                          _
                          (lift_returned
                            (require (number == a.number && is_main_push run head && is_success run)
                              _)
                            w (suc n) m h5) in
                      let parts =
                        both_true (number == a.number && is_main_push run head) (is_success run)
                          same in
                      let identity =
                        same_positive (get run "id") "explicit Producer contracts run id" id
                          a.run_id is_id same_id in
                      let attempted =
                        same_positive (get run "run_attempt")
                          "explicit Producer contracts attempt number" number a.number is_number
                          (both_true (number == a.number) _ parts.0).0 in
                      record {
                        response = response;
                        answer =
                            answered_lem (w.reply n (attempt_path a)) (attempt_path a) response
                              replied;
                        run = run;
                        is_run =
                            required_object_lem response "explicit latest CI attempt" run is_run;
                        numbered = identity.0;
                        attempted = attempted.0;
                        positive = (identity.1, attempted.1);
                        pushed = (both_true _ _ parts.0).1;
                        succeeded = parts.1;
                      }

-- The job is completed, and succeeded or was skipped.
abbrev pub IsPassed : Object → Type 0
IsPassed job =
    (is_str (get job "status") "completed" ≡ true)
    × ((is_str (get job "conclusion") "success" || is_str (get job "conclusion") "skipped") ≡ true)

check_job-IsPassed : (job : Object) → check_job job ≡ ok tt → IsPassed job
unfolding check_job
check_job-IsPassed job h = require-ok (is_str (get job "status") "completed") _ _ h λ done h1.
    >>=-ok (require_hashable (get job "conclusion")) _ h1 λ _ _ h2. (done, require_held _ _ h2)

-- The jobs of the attempt, of which one has the name of the contracts and succeeded.
pub record ArePassed (w : World) (a : Attempt) : Type 0 where
  pub at : ℕ
  pub later : ℕ
  pub jobs : List Object
  pub listed : paginated (jobs_of a) w at ≡ ok (jobs, later)
  pub contracts : is_one_success (keep is_contracts jobs) ≡ true
  pub passed : All IsPassed jobs

check_jobs-ArePassed :
    (w : World) (n m : ℕ) (a : Attempt) → check_jobs a w n ≡ ok (tt, m) → ArePassed w a
unfolding check_jobs
check_jobs-ArePassed w n m a h = next-ok (paginated (jobs_of a) w n) _ h λ jobs k listed h1.
    hold-ok (is_one_success (keep is_contracts jobs))
      "latest CI attempt lacks one unique successful contracts job" w k _ h1
      λ contracts h2. record {
        at = n;
        later = k;
        jobs = jobs;
        listed = listed;
        contracts = contracts;
        passed =
            All-map (λ job e. check_job-IsPassed job e) jobs
              (for_each-All check_job jobs (lift_returned (for_each check_job jobs) w k m h2));
      }

-- A run on the commit that the CI tested: the run as it is now and its attempt by number are
-- pushes of the commit to main that succeeded, its jobs passed, and it is the run of the event.
pub record IsTested (w : World) (head : String) (event : Option Attempt) (a : Attempt)
    : Type 0 where
  pub current_at : ℕ
  pub current : IsSuccess w current_at (run_path a.run_id) head a
  pub attempt_at : ℕ
  pub attempt : IsSuccess w attempt_at (attempt_path a) head a
  pub jobs : ArePassed w a
  pub of_event : is_event_run event a ≡ true

if_event-eq :
    (b : Bool) (w : World) (n m : ℕ) (a c : Attempt)
    → if_event b a w n ≡ ok (some c, m)
    → (c ≡ a) × (b ≡ true) × ArePassed w a
if_event-eq false w n m a c h = cc
if_event-eq true w n m a c h = next-ok (check_jobs a w n) _ h λ u k e h1. (
  sym (some_injective (ap (λ t. t.0) (ok-injective h1))),
  refl,
  check_jobs-ArePassed w n k a
      (subst (λ v. check_jobs a w n ≡ ok (v, k)) (let one : u ≡ tt = refl in one) e),
)

if_success-IsTested :
    (b : Bool) (w : World) (n m p : ℕ) (head : String) (event : Option Attempt) (a c : Attempt)
    → check_current head a w p ≡ ok (b, n)
    → if_success b head event a w n ≡ ok (some c, m)
    → IsTested w head event c
if_success-IsTested false w n m p head event a c now h = cc
if_success-IsTested true w n m p head event a c now h =
    next-ok (check_attempt head a w n) _ h λ u k e h1.
      let r = if_event-eq (is_event_run event a) w k m a c h1 in
      subst (IsTested w head event) (sym r.0) (record {
        current_at = p;
        current = check_current-IsSuccess w p n head a now;
        attempt_at = n;
        attempt = check_attempt-IsSuccess w n k head a e;
        jobs = r.2;
        of_event = r.1;
      })

check_run-IsTested :
    (w : World) (n m : ℕ) (head : String) (event : Option Attempt) (selected : Object × ℕ)
    (c : Attempt)
    → check_run head event selected w n ≡ ok (some c, m)
    → IsTested w head event c
unfolding check_run
check_run-IsTested w n m head event (selected, run_id) c h =
    lift-ok (positive_int (get selected "run_attempt") "Producer contracts run attempt") w n _ h
      λ number _ h1.
        hold-ok (is_ci_workflow selected) "selected CI run is not the Producer contracts workflow" w
          n _ h1
          λ _ h2.
            let a : Attempt = record { run_id = run_id; number = number } in
            next-ok (check_current head a w n) _ h2
              λ success k now h3. if_success-IsTested success w k m n head event a c now h3

select_run-IsTested :
    (runs : List Object) (w : World) (n m : ℕ) (head : String) (event : Option Attempt)
    (c : Attempt)
    → select_run head event runs w n ≡ ok (some c, m)
    → IsTested w head event c
select_run-IsTested [] w n m head event c h = cc
select_run-IsTested (run ∷ runs) w n m head event c h =
    lift-ok (Prelude.◌>>=◌ (run_id_of run) (λ id. latest (run, id) runs)) w n _ h
      λ best _ h1. check_run-IsTested w n m head event best c h1

pub require_ci-IsTested :
    (w : World) (n m : ℕ) (head : String) (event : Option Attempt) (c : Attempt)
    → require_ci head event w n ≡ ok (some c, m)
    → IsTested w head event c
unfolding require_ci
require_ci-IsTested w n m head event c h =
    next-ok (paginated (runs_of head) w n) _ h
      λ runs k _ h1. select_run-IsTested (keep (is_push_of head) runs) w k m head event c h1
