-- ===== src/ArtifactOrigin/Selection/SourceJob.antt =====
-- The job that select_source_job selects.
use mathlib.Core.Path.{subst}
use aros_toolchains.Prelude.{
  ℕ, String, Bool, true, false, ◌&&◌, List, [], ◌∷◌, Option, none, some, Result, ok, raise,
  type_error, require-ok, >>=-ok, ok-injective, both_true, All, keep, leb, ◌==◌, ◌<>◌, string_eq,
  nat_eq, lookup, eq_of_test, test_refl, Bool-cases, inl, inr, ◌≡◌, refl, arith, ap, sym, ◌∙◌,
}
use aros_toolchains.Json.{Value, str, as_str, is_str, get, or_raise-some}
use aros_toolchains.Json.Inversion.{as_str-eq}
use aros_toolchains.Text.{char_count, strip_prefix, first_char, all_chars, between, is_digit}
use aros_toolchains.Text.Bytes.{decimal, read_decimal, char_count-append}
use aros_toolchains.Text.Prefix.{strip_prefix-eq}
use aros_toolchains.Text.Bytes.Decimal.{decimal-read_decimal}
use aros_toolchains.ArtifactOrigin.Provider.{
  Context, Job, is_canonical_number, positive, job_id, complete_jobs, check_url_of, has_url,
  SelectedJob,
}
use aros_toolchains.ArtifactOrigin.Provider.Jobs.{
  gives, has_id, keep_held, keep_dropped, head_eq, IsOwner, select_job-IsOwner,
}
use aros_toolchains.ArtifactOrigin.Selection.{
  ExpectedJob, with_id, the_source_job, url_text, check_digits, check_runs_url, select_source_job,
}

module _ (p : Job → Bool) where
  tail_none : {j k : Job} {js : List Job} → j ∷ js ≡ k ∷ [] → js ≡ []
  tail_none h = cc

  keep_none : (js : List Job) → keep p js ≡ [] → All (λ j. p j ≡ false) js
  keep_none [] h = tt
  keep_none (j ∷ js) h = elim (Bool-cases (p j)) [
    | inl e ↦ absurd (let kept : j ∷ keep p js ≡ [] = sym (keep_held p j js e) ∙ h in cc)
    | inr e ↦ (e, keep_none js (sym (keep_dropped p j js e) ∙ h))
  ]

  excluded :
      (k : Job) (js : List Job) → All (λ j. p j ≡ false) js → All (λ j. p j ≡ true → j ≡ k) js
  excluded k [] h = tt
  excluded k (j ∷ js) h = (λ e. absurd (cc), excluded k js h.1)

  -- Where a test keeps one job, it holds of no other.
  keep_one : (k : Job) (js : List Job) → keep p js ≡ k ∷ [] → All (λ j. p j ≡ true → j ≡ k) js
  keep_one k [] h = absurd (cc)
  keep_one k (j ∷ js) h = elim (Bool-cases (p j)) [
    | inl e ↦
        let kept : j ∷ keep p js ≡ k ∷ [] = sym (keep_held p j js e) ∙ h in
        (λ _. head_eq kept, excluded k js (keep_none js (tail_none kept)))
    | inr e ↦ (λ t. absurd (cc), keep_one k js (sym (keep_dropped p j js e) ∙ h))
  ]

  keep_first : (k : Job) (ks js : List Job) → keep p js ≡ k ∷ ks → p k ≡ true
  keep_first k ks [] h = absurd (cc)
  keep_first k ks (j ∷ js) h = elim (Bool-cases (p j)) [
    | inl e ↦ subst (λ t. p t ≡ true) (head_eq (sym (keep_held p j js e) ∙ h)) e
    | inr e ↦ keep_first k ks js (sym (keep_dropped p j js e) ∙ h)
  ]

gives-ok : (n : ℕ) (r : Result ℕ) → gives n r ≡ true → r ≡ ok n
gives-ok n (ok m) h = ap ok (eq_of_test m n h)
gives-ok n (raise e) h = cc

-- A job of those with an identity has it, and is one of the jobs.
with_id-All {κ} :
    (P : Job → Type κ) (n : ℕ) (js ks : List Job)
    → All P js
    → with_id n js ≡ ok ks
    → All (λ k. P k × (job_id k ≡ ok n)) ks
unfolding with_id
with_id-All P n [] ks h e = subst (All (λ k. P k × (job_id k ≡ ok n))) (ok-injective e) tt
with_id-All P n (j ∷ js) ks h e = >>=-ok (job_id j) _ e λ m is_m e1.
    >>=-ok (with_id n js) _ e1 λ rest more e2.
      let below = with_id-All P n js rest h.1 more in
      subst (All (λ k. P k × (job_id k ≡ ok n))) (ok-injective e2) (elim (Bool-cases (m == n)) [
        | inl same ↦ rw same ((h.0, is_m ∙ ap ok (eq_of_test m n same)), below)
        | inr other ↦ rw other below
      ])

positive_text : (s : String) (n : ℕ) → positive (str s) ≡ ok n → read_decimal 0 s ≡ n
unfolding positive
positive_text s n h =
    require-ok (is_canonical_number s) _ _ h
      λ _ h1. require-ok (leb (read_decimal 0 s) 9007199254740991) _ _ h1 λ _ h2. ok-injective h2

-- What follows the prefix, where it is digits.
record AreDigits (o : Option String) (digits : String) : Type 0 where
  follow : o ≡ some digits
  first : first_char (between b'1' b'9') digits ≡ true
  others : all_chars is_digit digits ≡ true

check_digits-AreDigits : (o : Option String) (d : String) → check_digits o ≡ ok d → AreDigits o d
check_digits-AreDigits none d h = cc
check_digits-AreDigits (some t) d h =
    require-ok (first_char (between b'1' b'9') t && all_chars is_digit t) _ _ h λ forms h1.
      let both = both_true (first_char (between b'1' b'9') t) (all_chars is_digit t) forms in
      subst (AreDigits (some t)) (ok-injective h1)
        (record { follow = refl; first = both.0; others = both.1 })

no_url :
    (repository rest : String)
    → ¬ ("" ≡ "https://api.github.com/repos/" <> repository <> "/check-runs/" <> rest)
no_url repository rest h = omega (
  arith,
  ap char_count h,
  char_count-append ("https://api.github.com/repos/" <> repository <> "/check-runs/") rest,
  char_count-append ("https://api.github.com/repos/" <> repository) "/check-runs/",
)

got : (d : Job) (k : String) (v : Value) → lookup k d ≡ some v → get d k ≡ v
got d k v h = ground (arith, h)

url_of :
    (o : Option Value) (context : Context) (url rest : String)
    → url_text o ≡ ok url
    → url ≡ check_runs_url context <> rest
    → o ≡ some (str url)
url_of none context url rest h e = absurd (no_url context.repository rest (ok-injective h ∙ e))
url_of (some v) context url rest h e =
    ap some (as_str-eq v url (or_raise-some (as_str v) url type_error h))

check_digits-decimal :
    (context : Context) (job : Job) (url digits : String) (check_id : ℕ)
    → url_text (lookup "check_run_url" job) ≡ ok url
    → check_digits (strip_prefix (check_runs_url context) url) ≡ ok digits
    → positive (str digits) ≡ ok check_id
    → has_url (check_url_of context check_id) job ≡ true
unfolding check_url_of
check_digits-decimal context job url digits check_id h k e =
    let d = check_digits-AreDigits (strip_prefix (check_runs_url context) url) digits k in
    let whole = strip_prefix-eq (check_runs_url context) url digits d.follow in
    let written : decimal check_id ≡ digits =
      ap decimal (sym (positive_text digits check_id e))
      ∙ decimal-read_decimal digits d.first d.others in
    let same : url ≡ check_runs_url context <> decimal check_id =
      whole ∙ ap (λ t. check_runs_url context <> t) (sym written) in
    let held : get job "check_run_url" ≡ str url =
      got job "check_run_url" (str url)
        (url_of (lookup "check_run_url" job) context url digits h whole) in
    subst (λ v. is_str v (check_url_of context check_id) ≡ true) (sym held)
      (subst (λ t. (url == t) ≡ true) same (test_refl url))

-- The job that was selected by its identity is the one that the check owns.
pub record IsSourceJob (pages : Value) (context : Context) (expected : ExpectedJob)
    (selected : SelectedJob) : Type 0 where
  pub owner : IsOwner pages context selected.check_run_id expected.name "completed" selected
  pub same_id : selected.id ≡ expected.id

the_source_job-one :
    (js : List Job) (name : String) (job : Job) → the_source_job js name ≡ ok job → js ≡ job ∷ []
the_source_job-one [] name job h = cc
the_source_job-one (j ∷ []) name job h =
    require-ok (is_str (get j "name") name) _ _ h λ _ h1. ap (λ t. t ∷ []) (ok-injective h1)
the_source_job-one (j ∷ k ∷ js) name job h = cc

-- The job that is selected has the identity that was expected, and owns its check: it is the only job
-- of the complete list with the URL of that check, it has the expected name, and it passed the checks
-- of a completed job on its commit, run, attempt, state and conclusion.
pub select_source_job-IsSourceJob :
    (pages : Value) (context : Context) (expected : ExpectedJob) (selected : SelectedJob)
    → select_source_job pages context expected ≡ ok selected
    → IsSourceJob pages context expected selected
unfolding select_source_job
select_source_job-IsSourceJob pages context expected selected h =
    >>=-ok (complete_jobs pages) _ h λ jobs listed h1.
      >>=-ok (with_id expected.id jobs) _ h1 λ named by_id h2.
        >>=-ok (the_source_job named expected.name) _ h2 λ job only h3.
          >>=-ok (url_text (lookup "check_run_url" job)) _ h3 λ url is_url h4.
            >>=-ok (check_digits (strip_prefix (check_runs_url context) url)) _ h4
              λ digits are_digits h5. >>=-ok (positive (str digits)) _ h5 λ check_id is_check h6.
                let own =
                  select_job-IsOwner pages context check_id expected.name "completed" selected h6 in
                let url_test = has_url (check_url_of context check_id) in
                let all_listed : own.jobs ≡ jobs = ok-injective (sym own.complete ∙ listed) in
                let one =
                  keep_one url_test own.job jobs
                    (subst (λ js. keep url_test js ≡ own.job ∷ []) all_listed own.by_url) in
                let chosen =
                  subst (All (λ k. (url_test k ≡ true → k ≡ own.job) × (job_id k ≡ ok expected.id)))
                    (the_source_job-one named expected.name job only)
                    (with_id-All (λ j. url_test j ≡ true → j ≡ own.job) expected.id jobs named one
                      by_id) in
                let same : job ≡ own.job = chosen.0.0 (
                  check_digits-decimal context job url digits check_id is_url are_digits
                    is_check) in
                let numbered : job_id own.job ≡ ok selected.id =
                  gives-ok selected.id (job_id own.job)
                    (keep_first (has_id selected.id) own.job [] own.jobs own.by_id) in
                record {
                  owner =
                      subst (λ n. IsOwner pages context n expected.name "completed" selected)
                        (sym own.check_named) own;
                  same_id = ok-injective (sym numbered ∙ (ap job_id (sym same) ∙ chosen.0.1));
                }
