-- ===== src/ArtifactOrigin/Reader/Authentic/Reported.antt =====
-- The job and the artifact that `verify` has the provider report.
use mathlib.Core.Path.{subst}
use aros_toolchains.Prelude.{
  String, true, some, ok, type_error, origin_error, require-ok, >>=-ok, ok-injective, ◌==◌,
  string_eq, nat_eq, eq_of_test, ◌≡◌, arith,
}
use aros_toolchains.Json.{Value, as_dict, as_str, or_raise, or_raise-some}
use aros_toolchains.ArtifactOrigin.Provider.{
  Context, SelectedJob, select_job, SelectedArtifact, select_artifact,
}
use aros_toolchains.ArtifactOrigin.Provider.Jobs.{IsOwner, select_job-IsOwner}
use aros_toolchains.ArtifactOrigin.Reader.{
  Wanted, Sources, SignedOrigin, same_job, artifact_path, check_reported,
}

-- The provider reports the signed job, completed, and the signed artifact.
pub record IsReported (sources : Sources) (c : Context) (wanted : Wanted) (signed : SignedOrigin)
    (digest : String) : Type 0 where
  pub pages : Value
  pub listed : sources.jobs c ≡ ok pages
  pub owner : IsOwner pages c signed.job.check_run_id wanted.job_name "completed" signed.job
  pub observed : Value
  pub answer : sources.api (artifact_path c wanted.artifact_id) ≡ ok observed
  pub is_digest : as_str signed.sha256 ≡ some digest
  pub artifact : SelectedArtifact
  pub selected :
      select_artifact observed c wanted.artifact_id wanted.artifact_name digest ≡ ok artifact
  pub sized : artifact.size_in_bytes ≡ signed.size

same_job-eq : (a b : SelectedJob) → same_job a b ≡ true → a ≡ b
same_job-eq a b h = ground arith

pub check_reported-IsReported :
    (sources : Sources) (c : Context) (wanted : Wanted) (signed : SignedOrigin) (digest : String)
    → check_reported sources c wanted signed ≡ ok digest
    → IsReported sources c wanted signed digest
unfolding check_reported
check_reported-IsReported sources c wanted signed digest h =
    >>=-ok (sources.jobs c) _ h λ pages listed h1.
      >>=-ok (select_job pages c signed.job.check_run_id wanted.job_name "completed") _ h1
        λ job selected h2. require-ok (same_job job signed.job) _ _ h2 λ same h3.
          >>=-ok (sources.api (artifact_path c wanted.artifact_id)) _ h3 λ observed answer h4.
            >>=-ok (or_raise (as_dict observed) (origin_error "artifact metadata is invalid")) _ h4
              λ _ _ at_digest.
                >>=-ok (or_raise (as_str signed.sha256) type_error) _ at_digest λ text is_text h5.
                  >>=-ok (select_artifact observed c wanted.artifact_id wanted.artifact_name text) _
                    h5
                    λ artifact is_artifact h6.
                      require-ok (artifact.size_in_bytes == signed.size) _ _ h6 λ sized h7.
                        subst (IsReported sources c wanted signed) (ok-injective h7) (record {
                          pages = pages;
                          listed = listed;
                          owner =
                              subst
                                (IsOwner pages c signed.job.check_run_id wanted.job_name
                                  "completed")
                                (same_job-eq job signed.job same)
                                (select_job-IsOwner pages c signed.job.check_run_id wanted.job_name
                                  "completed" job selected);
                          observed = observed;
                          answer = answer;
                          is_digest = or_raise-some (as_str signed.sha256) text type_error is_text;
                          artifact = artifact;
                          selected = is_artifact;
                          sized = eq_of_test artifact.size_in_bytes signed.size sized;
                        })
