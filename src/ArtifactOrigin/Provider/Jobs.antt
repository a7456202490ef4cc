-- ===== src/ArtifactOrigin/Provider/Jobs.antt =====
-- The job that `select_job` selects.
use mathlib.Core.Path.{subst}
use aros_toolchains.Prelude.{
  ℕ, String, Bool, true, false, ◌&&◌, List, [], ◌∷◌, Result, ok, raise, origin_error, fold,
  traverse, >>=-ok, require-ok, ok-injective, ◌==◌, string_eq, nat_eq, contains, keep, length, leb,
  ltb, IsNodup, ◌≡◌, refl, arith, sym, ap, ◌∙◌, eq_of_test, test_refl, Bool-cases, inl, inr,
}
use aros_toolchains.Json.{Value, as_list, as_dict, or_raise}
use aros_toolchains.Sorted.{sorted_set, nat_ord}
use aros_toolchains.Sorted.Length.{IsNodup-length-sorted_set}
use aros_toolchains.ArtifactOrigin.Provider.{
  Context, Job, job_id, add_page, are_all, complete_jobs, check_url_of, has_url, exactly_one,
  check_job, SelectedJob, select_job,
}

-- The jobs of accepted pages and their identities, which differ.
pub record IsComplete (jobs : List Job) : Type 0 where
  pub ids : List ℕ
  pub identified : traverse job_id jobs ≡ ok ids
  pub distinct : IsNodup ids

complete_jobs-IsComplete :
    (pages : Value) (jobs : List Job) → complete_jobs pages ≡ ok jobs → IsComplete jobs
unfolding complete_jobs
complete_jobs-IsComplete pages_value jobs h =
    >>=-ok (or_raise (as_list pages_value) (origin_error "job pages are invalid")) _ h λ pages _ h1.
      require-ok (ltb 0 (length pages) && leb (length pages) 100) _ _ h1 λ _ h2.
        >>=-ok (fold add_page (record { totals = []; jobs = [] }) pages) _ h2 λ s _ h3.
          require-ok (are_all (length s.jobs) s.totals) _ _ h3 λ _ h4.
            >>=-ok
              (traverse (λ v. or_raise (as_dict v) (origin_error "job metadata is invalid")) s.jobs)
              _ h4
              λ js _ h5. >>=-ok (traverse job_id js) _ h5 λ ids named h6.
                require-ok (length (sorted_set ids) == length ids) _ _ h6 λ unique h7.
                  subst IsComplete (ok-injective h7) (record {
                    ids = ids;
                    identified = named;
                    distinct =
                        IsNodup-length-sorted_set ids
                          (eq_of_test (length (sorted_set ids)) (length ids) unique);
                  })

abbrev pub gives : ℕ → Result ℕ → Bool
gives n (raise e) = false
gives n (ok m) = m == n

-- The job has this identity.
abbrev pub has_id : ℕ → Job → Bool
has_id n job = gives n (job_id job)

pub keep_held :
    (p : Job → Bool) (j : Job) (js : List Job) → p j ≡ true → keep p (j ∷ js) ≡ j ∷ keep p js
keep_held p j js h = ground arith

pub keep_dropped :
    (p : Job → Bool) (j : Job) (js : List Job) → p j ≡ false → keep p (j ∷ js) ≡ keep p js
keep_dropped p j js h = ground arith

pub has_id-ok : (n : ℕ) (job : Job) → job_id job ≡ ok n → has_id n job ≡ true
has_id-ok n job h = ap (gives n) h ∙ test_refl n

has_id-eq : (m n : ℕ) (job : Job) → job_id job ≡ ok m → has_id n job ≡ (m == n)
has_id-eq m n job h = ap (gives n) h

traverse-cons :
    (job : Job) (jobs : List Job) (ids : List ℕ)
    → traverse job_id (job ∷ jobs) ≡ ok ids
    → (n : ℕ) × (ns : List ℕ) × (job_id job ≡ ok n)
      × (traverse job_id jobs ≡ ok ns)
      × (n ∷ ns ≡ ids)
traverse-cons job jobs ids h =
    >>=-ok (job_id job) _ h λ n one h1.
      >>=-ok (traverse job_id jobs) _ h1 λ ns more h2. (n, ns, one, more, ok-injective h2)

-- An identity that is not among the identities is that of no job.
absent :
    (jobs : List Job) (ids : List ℕ) (n : ℕ)
    → traverse job_id jobs ≡ ok ids
    → contains ids n ≡ false
    → keep (has_id n) jobs ≡ []
absent [] ids n h k = refl
absent (job ∷ jobs) ids n h k =
    let (m, ms, one, more, whole) = traverse-cons job jobs ids h in
    let out : contains (m ∷ ms) n ≡ false = subst (λ l. contains l n ≡ false) (sym whole) k in
    let rest = absent jobs ms n more (ground (arith, out)) in
    let no : has_id n job ≡ false = has_id-eq m n job one ∙ ground (arith, out) in
    keep_dropped (has_id n) job jobs no ∙ rest

pub head_eq : {j k : Job} {js ks : List Job} → j ∷ js ≡ k ∷ ks → j ≡ k
head_eq h = cc

differ : (m n : ℕ) (ms : List ℕ) → contains ms m ≡ false → contains ms n ≡ true → (m == n) ≡ false
differ m n ms h k = ground arith

-- A job that a test selects alone is selected alone by its identity.
alone :
    (p : Job → Bool) (jobs : List Job) (ids : List ℕ) (job : Job) (n : ℕ)
    → traverse job_id jobs ≡ ok ids
    → IsNodup ids
    → keep p jobs ≡ job ∷ []
    → job_id job ≡ ok n
    → (keep (has_id n) jobs ≡ job ∷ []) × (contains ids n ≡ true)
alone p [] ids job n h d k e = absurd (cc)
alone p (j ∷ jobs) ids job n h d k e =
    let (m, ms, one, more, whole) = traverse-cons j jobs ids h in
    let apart : IsNodup (m ∷ ms) = subst IsNodup (sym whole) d in
    elim (Bool-cases (p j)) [
      | inl here ↦
          let first : j ∷ keep p jobs ≡ job ∷ [] = sym (keep_held p j jobs here) ∙ k in
          let same : j ≡ job = head_eq first in
          let number : m ≡ n = ok-injective (sym one ∙ (ap job_id same ∙ e)) in
          (
            keep_held (has_id n) j jobs (has_id-ok n j (one ∙ ap ok number))
                ∙ (ap (λ js. j ∷ js)
                      (absent jobs ms n more (subst (λ i. contains ms i ≡ false) number apart.0))
                    ∙ ap (λ i. i ∷ []) same),
            subst (λ l. contains l n ≡ true) whole (ground (arith, number)),
          )
      | inr there ↦
          let rest = alone p jobs ms job n more apart.1 (sym (keep_dropped p j jobs there) ∙ k) e in
          let other : (m == n) ≡ false = differ m n ms apart.0 rest.1 in
          (
            keep_dropped (has_id n) j jobs (has_id-eq m n j one ∙ other) ∙ rest.0,
            subst (λ l. contains l n ≡ true) whole (ground (arith, rest.1)),
          )
    ]

-- What the checks on the owning job say, and what is returned of it.
pub record IsOwner (pages : Value) (context : Context) (check_id : ℕ) (name status : String)
    (selected : SelectedJob) : Type 0 where
  pub jobs : List Job
  pub job : Job
  pub complete : complete_jobs pages ≡ ok jobs
  pub by_url : keep (has_url (check_url_of context check_id)) jobs ≡ job ∷ []
  pub by_id : keep (has_id selected.id) jobs ≡ job ∷ []
  pub checked : check_job job context name status ≡ ok tt
  pub named : selected.name ≡ name
  pub check_named : selected.check_run_id ≡ check_id

exactly_one-eq : (js : List Job) (job : Job) → exactly_one js ≡ ok job → js ≡ job ∷ []
exactly_one-eq [] job h = cc
exactly_one-eq (j ∷ []) job h = ap (λ i. i ∷ []) (ok-injective h)
exactly_one-eq (j ∷ k ∷ js) job h = cc

-- The job that is selected is the only one of the complete list of jobs with the URL of the check,
-- and the only one with the identity that is returned; it passed the checks on its name, commit,
-- run, attempt, state and conclusion, and the name and the check that are returned are those asked
-- for.
pub select_job-IsOwner :
    (pages : Value) (context : Context) (check_id : ℕ) (name status : String)
    (selected : SelectedJob)
    → select_job pages context check_id name status ≡ ok selected
    → IsOwner pages context check_id name status selected
unfolding select_job
select_job-IsOwner pages context check_id name status selected h =
    >>=-ok (complete_jobs pages) _ h λ jobs listed h1.
      >>=-ok (exactly_one (keep (has_url (check_url_of context check_id)) jobs)) _ h1
        λ job single h2. >>=-ok (check_job job context name status) _ h2 λ u checked h3.
          >>=-ok (job_id job) _ h3 λ id identified h4.
            let c = complete_jobs-IsComplete pages jobs listed in
            let only = exactly_one-eq _ job single in
            subst (IsOwner pages context check_id name status) (ok-injective h4) (record {
              jobs = jobs;
              job = job;
              complete = listed;
              by_url = only;
              by_id =
                  (alone (has_url (check_url_of context check_id)) jobs c.ids job id c.identified
                    c.distinct only identified).0;
              checked = checked;
              named = refl;
              check_named = refl;
            })
