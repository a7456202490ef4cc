-- ===== src/ReleaseAdmission/Receipt/Accepted.antt =====
-- The receipt that an admission writes is one that `validate_receipt` accepts.
use aros_toolchains.Prelude.{
  ℕ, zero, suc, ◌<◌, String, true, ◌&&◌, List, [], ◌∷◌, some, ok, ◌<>◌, nat_eq, string_eq, Dict,
  keys, contains, all, map, All, ◌≡◌, refl, ap, ◌∙◌, arith, test_refl,
}
use aros_toolchains.Json.{
  ℤ, pos, int, str, object, to_members, entries, has_exactly, entries-to_members, as_dict, get,
}
use aros_toolchains.ReleaseAdmission.Checks.{
  Object, receipt_keys, input_paths, is_semver, is_oid, is_sha256, is_text, positive_int,
  required_object, exact_keys,
}
use aros_toolchains.ReleaseAdmission.Receipt.{
  Admitted, receipt_of, release_absence_requirement, check_runs, check_governance, check_inputs,
  check_absence, check_release, validate_receipt, release_endpoint, governance_keys,
}

-- What an admission found, where the digests and the identities have their form.
pub record IsFit (a : Admitted) : Type 0 where
  pub commit : is_oid a.commit ≡ true
  pub version : is_semver a.version ≡ true
  pub pulled : 0 < a.pull_request
  pub run : 0 < a.run.run_id
  pub attempt : 0 < a.run.number
  pub members : Object
  pub are_members : as_dict a.governance ≡ some members
  pub exact : has_exactly governance_keys members ≡ true
  pub ruleset_id : ℕ
  pub policy_sha256 : String
  pub checked_at : ℤ
  pub numbered : get members "ruleset_id" ≡ int (pos ruleset_id)
  pub digested : get members "policy_sha256" ≡ str policy_sha256
  pub timed : get members "checked_at" ≡ int checked_at
  pub ruled : 0 < ruleset_id
  pub policy : is_sha256 policy_sha256 ≡ true
  pub inputs : has_exactly input_paths a.digests ≡ true
  pub digests : All (λ e. is_sha256 e.1 ≡ true) a.digests

positive_int_pos : (n : ℕ) (label : String) → 0 < n → positive_int (int (pos n)) label ≡ ok n
unfolding positive_int
positive_int_pos zero label h = absurd (omega arith)
positive_int_pos (suc n) label h = refl

strings_of : Dict String String → Object
strings_of digests = map (λ e. (e.0, str e.1)) digests

keys-strings_of : (digests : Dict String String) → keys (strings_of digests) ≡ keys digests
unfolding strings_of
keys-strings_of [] = refl
keys-strings_of ((k, d) ∷ digests) = ap (λ t. k ∷ t) (keys-strings_of digests)

all_digests :
    (digests : Dict String String)
    → All (λ e. is_sha256 e.1 ≡ true) digests
    → all (λ e. is_text is_sha256 e.1) (strings_of digests) ≡ true
unfolding strings_of
all_digests [] h = refl
all_digests ((k, d) ∷ digests) h = rw h.0 (all_digests digests h.1)

exact_keys-object :
    (d : Object) (expected : List String) (label : String)
    → has_exactly expected d ≡ true
    → exact_keys (object d) expected label ≡ ok d
unfolding exact_keys required_object
exact_keys-object d expected label h = rw (entries-to_members d) (rw h refl)

-- The members of the receipt.
abbrev members : Admitted → Object
members a = entries (
    to_members (
      ("schema", str "aros-toolchains-release-admission-v2")
      ∷ ("assurance", str "metadata-only")
      ∷ ("repository", str "metaneutrons/aros-toolchains")
      ∷ ("commit", str a.commit)
      ∷ ("version", str a.version)
      ∷ ("tag", str ("v" <> a.version))
      ∷ ("pull_request", int (pos a.pull_request))
      ∷ (
        "runs",
        object (
            (
              "producer_contracts",
              object (("id", int (pos a.run.run_id)) ∷ ("attempt", int (pos a.run.number)) ∷ []),
            )
            ∷ []),
      )
      ∷ ("governance", a.governance)
      ∷ ("inputs", object (strings_of a.digests))
      ∷ ("release_absence", release_absence_requirement ("v" <> a.version))
      ∷ []))

receipt_members :
    (a : Admitted) → exact_keys (receipt_of a) receipt_keys "admission receipt" ≡ ok (members a)
unfolding exact_keys required_object string_eq strings_of
receipt_members a = refl

check_release_fit : (a : Admitted) → IsFit a → check_release (members a) ≡ ok a.version
unfolding check_release string_eq
check_release_fit a f = rw f.commit (
    rw (f.version, test_refl ("v" <> a.version))
      (rw (positive_int_pos a.pull_request "admission receipt pull request" f.pulled) refl))

check_runs_fit : (a : Admitted) → IsFit a → check_runs (members a) ≡ ok tt
unfolding check_runs exact_keys required_object string_eq
check_runs_fit a f =
    rw (positive_int_pos a.run.run_id "admission receipt CI run id" f.run)
      (rw (positive_int_pos a.run.number "admission receipt CI attempt" f.attempt) refl)

check_governance_fit : (a : Admitted) → IsFit a → check_governance (members a) ≡ ok tt
unfolding check_governance exact_keys required_object string_eq
check_governance_fit a f =
    rw (f.are_members, f.exact, f.numbered)
      (rw (positive_int_pos f.ruleset_id "admission receipt ruleset id" f.ruled)
        (rw f.digested (rw (f.policy, f.timed) refl)))

check_inputs_fit : (a : Admitted) → IsFit a → check_inputs (members a) ≡ ok tt
unfolding check_inputs string_eq
check_inputs_fit a f =
    rw
      (exact_keys-object (strings_of a.digests) input_paths "admission receipt input hashes" (
        ap (λ ks. all (contains input_paths) ks && all (contains ks) input_paths)
          (keys-strings_of a.digests)
        ∙ f.inputs))
      (rw (all_digests a.digests f.digests) refl)

check_absence_fit : (a : Admitted) → check_absence (members a) ("v" <> a.version) ≡ ok tt
unfolding check_absence exact_keys required_object string_eq nat_eq
check_absence_fit a = rw (test_refl (release_endpoint ("v" <> a.version))) refl

-- The receipt that is written of an admission is one that `validate_receipt` accepts, as it is
-- written, if the commit has 40 hexadecimal digits and the version three numbers, the identities of
-- the pull request, the run, the attempt and the ruleset are positive, the inputs are those of
-- `INPUT_PATHS`, and every digest is of SHA-256.
pub validate_receipt-receipt_of :
    (a : Admitted)
    → IsFit a
    → (d : Object) × (validate_receipt (receipt_of a) ≡ ok d) × (object d ≡ receipt_of a)
unfolding validate_receipt strings_of
validate_receipt-receipt_of a f = (
  members a,
  rw (receipt_members a) (
      rw (check_release_fit a f) (
        rw (check_runs_fit a f) (
          rw (check_governance_fit a f)
            (rw (check_inputs_fit a f) (rw (check_absence_fit a) refl))))),
  refl,
)
