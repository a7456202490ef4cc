-- ===== src/ReleaseAdmission/Examples.antt =====
-- A run of the admission on a small world, and runs of its parts.
mod Provided
use aros_toolchains.Prelude.{
  ℕ, zero, suc, ◌+◌, ◌*◌, ◌≤◌, ◌<◌, String, true, false, if◌then◌else◌, List, [], ◌∷◌, ◌++◌, Option,
  none, some, ok, raise, admission_error, Dict, lookup, ◌<>◌, ◌==◌, string_eq, nat_eq, list_eq,
  IsNodup, length, map, take, drop, ◌≡◌, refl, arith,
}
use aros_toolchains.Json.{Value, pos, int, str, bool, array, object, as_dict}
use aros_toolchains.Sorted.{nat_ord}
use aros_toolchains.Text.Order.{string_ord}
use aros_toolchains.Text.Split.{split}
use aros_toolchains.RuntimeLock.{validate_lock}
use aros_toolchains.RuntimeLock.Examples.{head, digest, archive, lock}
use aros_toolchains.ReleaseAdmission.Checks.{Object, is_semver}
use aros_toolchains.ReleaseAdmission.Session.{World, Reply, answered, failed}
use aros_toolchains.ReleaseAdmission.Pages.{Listing, paginated, page_path}
use aros_toolchains.ReleaseAdmission.Pages.Complete.{IsServed, paginated_complete}
use aros_toolchains.ReleaseAdmission.Pages.Complete.Named.{AreNamed}
use aros_toolchains.ReleaseAdmission.Pages.Distinct.{paginated_distinct}
use aros_toolchains.ReleaseAdmission.Receipt.{Admitted, receipt_of, validate_receipt}
use aros_toolchains.ReleaseAdmission.Inputs.{
  Inputs, load_head, committed_release_version, input_context,
}
use aros_toolchains.ReleaseAdmission.Pull.{candidate_pull}
use aros_toolchains.ReleaseAdmission.Ci.{require_ci}
use aros_toolchains.ReleaseAdmission.Admit.Fit.{IsGathered, validate_receipt-IsGathered}
use aros_toolchains.ReleaseAdmission.Admit.{admission, recheck, probe_visibility, visibility_report}
use aros_toolchains.ReleaseAdmission.Admit.Probed.{IsProbed, probe_visibility-IsProbed}
use aros_toolchains.ReleaseAdmission.Admit.Rechecked.{IsRechecked, recheck-IsRechecked}
use aros_toolchains.ReleaseAdmission.Governance.{governance}
use aros_toolchains.ReleaseAdmission.Governance.Governed.{IsGoverned, governance-IsGoverned}
use aros_toolchains.ReleaseAdmission.Admit.Observed.{IsObserved, admission-IsObserved}
use aros_toolchains.ReleaseAdmission.Examples.Provided.{
  own, pull, policy, run, job, answers, reply_of, world, found,
}

admission_returns : admission none world 0 ≡ ok (some (receipt_of found), 20)
unfolding admission validate_lock string_eq nat_eq list_eq nat_ord string_ord
admission_returns = refl

admission-IsObserved_example : IsObserved world none 20 (receipt_of found)
admission-IsObserved_example =
    admission-IsObserved world none 20 (receipt_of found) admission_returns

rechecked : recheck (receipt_of found) world 0 ≡ ok (receipt_of found, 20)
unfolding recheck validate_lock string_eq nat_eq list_eq nat_ord string_ord
rechecked = refl

recheck-IsRechecked_example : IsRechecked world 20 (receipt_of found) (receipt_of found)
recheck-IsRechecked_example =
    recheck-IsRechecked world 20 (receipt_of found) (receipt_of found) rechecked

governed : governance none world 4 ≡ ok (found.governance, 7)
unfolding governance string_eq nat_eq nat_ord string_ord
governed = refl

governance-IsGoverned_example : IsGoverned world none found.governance
governance-IsGoverned_example = governance-IsGoverned world 4 7 none found.governance governed

abbrev report : Value
report = visibility_report "read" 41 none digest

probed : probe_visibility "read" world 0 ≡ ok (report, 4)
unfolding probe_visibility string_eq nat_eq string_ord
probed = refl

probe_visibility-IsProbed_example : IsProbed world 0 4 "read" report
probe_visibility-IsProbed_example = probe_visibility-IsProbed world 0 4 "read" report probed

-- The tag is there.
abbrev tagged : World
tagged = record world {
  reply = λ n path.
      if path == own <> "/git/ref/tags/v2.0.1"
      then answered pull
      else reply_of (lookup path answers);
}

tagged_not_admitted : admission none tagged 0 ≡ ok (none, 17)
unfolding admission validate_lock string_eq nat_eq list_eq nat_ord string_ord
tagged_not_admitted = refl

-- A job of the attempt failed.
abbrev failing : World
failing = record world {
  reply = λ n path.
      if path == own <> "/actions/runs/900/attempts/2/jobs?per_page=100&page=1"
      then answered (
          object (
            (
              "jobs",
              array (
                  job
                  ∷ object (
                      ("id", int (pos 9))
                      ∷ ("name", str "other")
                      ∷ ("status", str "completed")
                      ∷ ("conclusion", str "failure")
                      ∷ [])
                  ∷ []),
            )
            ∷ []))
      else reply_of (lookup path answers);
}

failing_refused :
    admission none failing 0
    ≡ raise (admission_error "latest CI attempt contains an incomplete or unsuccessful job")
unfolding admission validate_lock string_eq nat_eq list_eq nat_ord string_ord
failing_refused = refl

abbrev inputs : Inputs
inputs = record {
  digests = found.digests;
  lock = elim (as_dict lock) [ none ↦ [] | some members ↦ members ];
}

head_loaded : load_head world 0 ≡ ok (found.commit, 0)
unfolding load_head nat_eq
head_loaded = refl

version_read : committed_release_version world 0 ≡ ok (found.version, 0)
unfolding committed_release_version string_eq nat_eq list_eq
version_read = refl

pull_found : candidate_pull found.commit found.version world 0 ≡ ok (some found.pull_request, 3)
unfolding candidate_pull string_eq nat_eq list_eq nat_ord string_ord
pull_found = refl

inputs_read : input_context found.version world 0 ≡ ok (inputs, 0)
unfolding input_context validate_lock string_eq nat_eq list_eq nat_ord string_ord
inputs_read = refl

ci_passed : require_ci found.commit none world 0 ≡ ok (some found.run, 4)
unfolding require_ci string_eq nat_eq list_eq nat_ord string_ord
ci_passed = refl

abbrev gathered : IsGathered world none none found
gathered = record {
  head_from = 0;
  head_to = 0;
  head = head_loaded;
  version_from = 0;
  version_to = 0;
  version = version_read;
  pull_from = 0;
  pull_to = 3;
  pull = pull_found;
  inputs = inputs;
  inputs_from = 0;
  inputs_to = 0;
  read = inputs_read;
  digests = refl;
  policy_from = 4;
  policy_to = 7;
  policy = governed;
  run_from = 0;
  run_to = 4;
  run = ci_passed;
}

validate_receipt-IsGathered_example :
    (d : Object) × (validate_receipt (receipt_of found) ≡ ok d) × (object d ≡ receipt_of found)
unfolding nat_eq
validate_receipt-IsGathered_example =
    validate_receipt-IsGathered world none none found (λ raw. refl) gathered

-- A list of two objects, in one page.
abbrev runs : Listing
runs = record {
  endpoint = own <> "/actions/workflows/ci.yml/runs?event=push";
  array_field = some "workflow_runs";
  governance = false;
  identity_field = some "id";
}

abbrev two : List Object
two = (("id", int (pos 900)) ∷ []) ∷ (("id", int (pos 901)) ∷ []) ∷ []

abbrev listed : World
listed = record world {
  reply = λ n path. answered (object (("workflow_runs", array (map object two)) ∷ []));
}

page_served :
    (k : ℕ)
    → 100 * k ≤ length two
    → IsServed listed (3 + k) (1 + k) runs (take 100 (drop (100 * k) two))
unfolding page_path string_eq nat_eq split
page_served zero h = record {
  allowed = refl;
  governed = refl;
  response = object (("workflow_runs", array (map object two)) ∷ []);
  answer = refl;
  holds = (("workflow_runs", array (map object two)) ∷ [], refl, refl);
}
page_served (suc k) h = absurd (omega arith)

paginated_complete_example : paginated runs listed 3 ≡ ok (two, 4)
unfolding nat_eq string_eq
paginated_complete_example =
    paginated_complete listed 3 runs two (900 ∷ 901 ∷ []) refl (refl, (refl, tt))
      (record { pages = page_served })

paginated_distinct_example :
    (ids : List ℕ) × AreNamed (some "id") two ids × IsNodup ids × (◌<◌ 3 4) × (4 ≤ 3 + 20)
unfolding nat_eq string_eq
paginated_distinct_example = paginated_distinct runs listed 3 4 two paginated_complete_example
