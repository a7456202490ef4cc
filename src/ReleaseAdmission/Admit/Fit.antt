-- ===== src/ReleaseAdmission/Admit/Fit.antt =====
-- What an admission has gathered when it makes its receipt, and that `validate_receipt` accepts it.
mod Digests
use mathlib.Core.Path.{subst}
use aros_toolchains.Prelude.{
  ℕ, suc, ◌<◌, String, Bool, true, false, List, [], ◌∷◌, Option, none, some, ok, ok-injective,
  some_injective, traverse, admission_error, ◌<>◌, string_eq, inl, inr, ◌≡◌, refl, ap, sym, ◌∙◌,
}
use aros_toolchains.Json.{
  Value, ℤ, pos, negsuc, int, str, get, as_dict, as_list, object, has_exactly, or_raise, entries,
  to_members,
}
use aros_toolchains.Json.Canonical.{canonical_json}
use aros_toolchains.Text.Bytes.{encode}
use aros_toolchains.ReleaseAdmission.Checks.{
  Object, own_repository, is_sha256, is_oid, positive_int,
}
use aros_toolchains.ReleaseAdmission.Checks.Inverted.{positive_int-eq}
use aros_toolchains.ReleaseAdmission.Session.{World, next-ok}
use aros_toolchains.ReleaseAdmission.Session.Returned.{lift-ok, hold-ok}
use aros_toolchains.ReleaseAdmission.Pages.{paginated, plain}
use aros_toolchains.ReleaseAdmission.Inputs.{
  Event, Inputs, load_head, committed_release_version, input_context,
}
use aros_toolchains.ReleaseAdmission.Inputs.Silent.{committed_release_version-IsVersion}
use aros_toolchains.ReleaseAdmission.Governance.{governance}
use aros_toolchains.ReleaseAdmission.Governance.Kept.{IsRecent, IsKept}
use aros_toolchains.ReleaseAdmission.Governance.Governed.{governance-IsGoverned}
use aros_toolchains.ReleaseAdmission.Pull.{
  check_identity, files_of, file_name, are_release_files, has_label, select, is_candidate,
  check_pull, if_waiting, accept_pull, check_alone, the_candidate, candidate_pull,
}
use aros_toolchains.ReleaseAdmission.Ci.{Attempt, require_ci}
use aros_toolchains.ReleaseAdmission.Ci.Tested.{require_ci-IsTested}
use aros_toolchains.ReleaseAdmission.Receipt.{
  Admitted, governance_keys, receipt_of, validate_receipt,
}
use aros_toolchains.ReleaseAdmission.Receipt.Accepted.{IsFit, validate_receipt-receipt_of}
use aros_toolchains.ReleaseAdmission.Admit.{event_run}
use aros_toolchains.ReleaseAdmission.Admit.Fit.Digests.{AreDigests, input_context-AreDigests}

-- Each part of the receipt is what a step of the admission returned, at whatever request it began.
pub record IsGathered (w : World) (g : Option Value) (event : Option Attempt) (a : Admitted)
    : Type 0 where
  pub head_from : ℕ
  pub head_to : ℕ
  pub head : load_head w head_from ≡ ok (a.commit, head_to)
  pub version_from : ℕ
  pub version_to : ℕ
  pub version : committed_release_version w version_from ≡ ok (a.version, version_to)
  pub pull_from : ℕ
  pub pull_to : ℕ
  pub pull : candidate_pull a.commit a.version w pull_from ≡ ok (some a.pull_request, pull_to)
  pub inputs : Inputs
  pub inputs_from : ℕ
  pub inputs_to : ℕ
  pub read : input_context a.version w inputs_from ≡ ok (inputs, inputs_to)
  pub digests : inputs.digests ≡ a.digests
  pub policy_from : ℕ
  pub policy_to : ℕ
  pub policy : governance g w policy_from ≡ ok (a.governance, policy_to)
  pub run_from : ℕ
  pub run_to : ℕ
  pub run : require_ci a.commit event w run_from ≡ ok (some a.run, run_to)

load_head-is_oid :
    (w : World) (n m : ℕ) (head : String) → load_head w n ≡ ok (head, m) → is_oid head ≡ true
unfolding load_head
load_head-is_oid w n m head h =
    hold-ok (is_oid w.head) "local Git HEAD is malformed" w n _ h λ oid h1.
      let same : ◌≡◌ {A = String × ℕ} (w.head, n) (head, m) = ok-injective h1 in
      subst (λ t. is_oid t ≡ true) (ap (λ (t : String × ℕ). t.0) same) oid

if_waiting_pos :
    (waits : Bool) (number k : ℕ) (w : World) (n m : ℕ)
    → 0 < number
    → if_waiting waits number w n ≡ ok (some k, m)
    → 0 < k
if_waiting_pos false number k w n m p h = absurd (cc)
if_waiting_pos true number k w n m p h = next-ok (check_alone number w n) _ h λ _ n1 _ h1.
    let same : ◌≡◌ {A = Option ℕ × ℕ} (some number, n1) (some k, m) = ok-injective h1 in
    subst (λ t. 0 < t) (some_injective (ap (λ (t : Option ℕ × ℕ). t.0) same)) p

check_pull_pos :
    (pull : Object) (version : String) (w : World) (n m number : ℕ) (waits : Bool)
    → check_pull pull version w n ≡ ok ((number, waits), m)
    → 0 < number
unfolding check_pull
check_pull_pos pull version w n m number waits h =
    lift-ok (check_identity pull version) w n _ h λ _ _ h1.
      lift-ok (positive_int (get pull "number") "release pull request number") w n _ h1
        λ found is_found h2. next-ok (paginated (files_of found) w n) _ h2 λ files n1 _ h3.
          lift-ok (traverse file_name files) w n1 _ h3 λ paths _ h4.
            hold-ok (are_release_files paths)
              "release pull request must modify exactly the manifest, version.txt and changelog" w
              n1 _ h4
              λ _ h5.
                lift-ok
                  (or_raise (as_list (get pull "labels"))
                    (admission_error "release pull request labels are malformed"))
                  w n1 _ h5
                  λ values _ h6.
                    lift-ok
                      (traverse
                        (λ v.
                          or_raise (as_dict v)
                            (admission_error "release pull request labels are malformed"))
                        values)
                      w n1 _ h6
                      λ labels _ h7. lift-ok (has_label labels) w n1 _ h7 λ waiting _ h8.
                        let same : ◌≡◌ {A = (ℕ × Bool) × ℕ} ((found, waiting), n1)
                            ((number, waits), m) =
                          ok-injective h8 in
                        subst (λ t. 0 < t) (ap (λ (t : (ℕ × Bool) × ℕ). t.0.0) same)
                          (positive_int-eq (get pull "number") "release pull request number" found
                            is_found).1

the_candidate_pos :
    (candidates : List Object) (version : String) (w : World) (n m k : ℕ)
    → the_candidate candidates version w n ≡ ok (some k, m)
    → 0 < k
unfolding accept_pull
the_candidate_pos [] version w n m k h = absurd (cc)
the_candidate_pos (pull ∷ other ∷ more) version w n m k h = absurd (cc)
the_candidate_pos (pull ∷ []) version w n m k h =
    next-ok (check_pull pull version w n) _ h λ found n1 checked h1.
      if_waiting_pos found.1 found.0 k w n1 m
        (check_pull_pos pull version w n n1 found.0 found.1 checked) h1

candidate_pull_pos :
    (head version : String) (w : World) (n m k : ℕ)
    → candidate_pull head version w n ≡ ok (some k, m)
    → 0 < k
unfolding candidate_pull
candidate_pull_pos head version w n m k h =
    next-ok (paginated (plain ("repos/" <> own_repository <> "/commits/" <> head <> "/pulls")) w n)
      _ h
      λ pulls n1 _ h1.
        lift-ok (select (is_candidate head) pulls) w n1 _ h1
          λ candidates _ h2. the_candidate_pos candidates version w n1 m k h2

-- A receipt of governance has a number, a digest and a time.
record IsReceipt (v : Value) (identifier : ℕ) (digest : String) : Type 0 where
  members : Object
  are_members : as_dict v ≡ some members
  exact : has_exactly governance_keys members ≡ true
  checked_at : ℤ
  numbered : get members "ruleset_id" ≡ int (pos identifier)
  digested : get members "policy_sha256" ≡ str digest
  timed : get members "checked_at" ≡ int checked_at

IsRecent-time : (now : ℕ) (v : Value) → IsRecent now v → (z : ℤ) × (v ≡ int z)
IsRecent-time now v (inl (t, e, _, _)) = (pos t, e)
IsRecent-time now v (inr (t, e, _)) = (negsuc t, e)

IsKept-IsReceipt :
    (w : World) (g : Option Value) (identifier : ℕ) (digest : String) (v : Value)
    → IsKept w g identifier digest v
    → IsReceipt v identifier digest
unfolding string_eq
IsKept-IsReceipt w none identifier digest v (at, e) = record {
  members = entries (
      to_members (
        ("ruleset_id", int (pos identifier))
        ∷ ("policy_sha256", str digest)
        ∷ ("checked_at", int (pos (w.now at)))
        ∷ []));
  are_members = ap as_dict e;
  exact = refl;
  checked_at = pos (w.now at);
  numbered = refl;
  digested = refl;
  timed = refl;
}
IsKept-IsReceipt w (some receipt) identifier digest v (e, saved) =
    let time = IsRecent-time (w.now saved.read_at) (get saved.members "checked_at") saved.recent in
    record {
      members = saved.members;
      are_members = ap as_dict e ∙ saved.is_object;
      exact = saved.exact;
      checked_at = time.0;
      numbered = saved.of_ruleset;
      digested = saved.of_policy;
      timed = time.1;
    }

-- If every SHA-256 is a text of 64 hexadecimal digits, as it is by its definition: a receipt whose
-- commit, version, pull request, input digests, governance and CI run are what the steps of an
-- admission returned, with or without a saved governance receipt, is one that `validate_receipt`
-- accepts, and returns as it is written.
pub validate_receipt-IsGathered :
    (w : World) (g : Option Value) (event : Option Attempt) (a : Admitted)
    → ((raw : List ℕ) → is_sha256 (w.sha256 raw) ≡ true)
    → IsGathered w g event a
    → (d : Object) × (validate_receipt (receipt_of a) ≡ ok d) × (object d ≡ receipt_of a)
validate_receipt-IsGathered w g event a fits s =
    let governed = governance-IsGoverned w s.policy_from s.policy_to g a.governance s.policy in
    let digest = w.sha256 (encode (canonical_json governed.policy)) in
    let r = IsKept-IsReceipt w g governed.identifier digest a.governance governed.kept in
    let tested = require_ci-IsTested w s.run_from s.run_to a.commit event a.run s.run in
    let digests =
      subst AreDigests s.digests
        (input_context-AreDigests w s.inputs_from s.inputs_to a.version s.inputs fits s.read) in
    validate_receipt-receipt_of a (record {
      commit = load_head-is_oid w s.head_from s.head_to a.commit s.head;
      version =
          (committed_release_version-IsVersion w s.version_from s.version_to a.version
            s.version).semver;
      pulled = candidate_pull_pos a.commit a.version w s.pull_from s.pull_to a.pull_request s.pull;
      run = tested.current.positive.0;
      attempt = tested.current.positive.1;
      members = r.members;
      are_members = r.are_members;
      exact = r.exact;
      ruleset_id = governed.identifier;
      policy_sha256 = digest;
      checked_at = r.checked_at;
      numbered = r.numbered;
      digested = r.digested;
      timed = r.timed;
      ruled = governed.found.positive;
      policy = fits (encode (canonical_json governed.policy));
      inputs = digests.exact;
      digests = digests.digested;
    })
