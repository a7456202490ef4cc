-- ===== src/ArtifactOrigin/Reader/Authentic/Named.antt =====
-- The record that `verify` reads, against what was asked for.
use mathlib.Core.Path.{subst}
use aros_toolchains.Prelude.{
  ℕ, String, true, ◌&&◌, List, [], ◌∷◌, some, ok, require-ok, >>=-ok, ok-injective, both_true, ◌==◌,
  string_eq, nat_eq, Dict, eq_of_test, ◌≡◌, ap, ◌∙◌,
}
use aros_toolchains.Json.{Value, int, pos, as_dict, str, is_str, item}
use aros_toolchains.Json.Canonical.{canonical_json}
use aros_toolchains.Json.Inversion.{is_str-eq}
use aros_toolchains.Json.Equality.{py_equal}
use aros_toolchains.ArtifactOrigin.Provider.{Context}
use aros_toolchains.ArtifactOrigin.Archive.{exact_keys}
use aros_toolchains.ArtifactOrigin.Archive.Signed.{keyed_dict}
use aros_toolchains.ArtifactOrigin.Source.{context_value}
use aros_toolchains.ArtifactOrigin.Source.Observed.{exact_number-eq}
use aros_toolchains.ArtifactOrigin.Selection.{Lane, selection}
use aros_toolchains.ArtifactOrigin.Reader.{
  Wanted, SignedOrigin, lane_value, job_option, artifact_option, is_expected, signed_number,
  read_signed, read_origin,
}

abbrev origin_keys : List String
origin_keys = "schema" ∷ "context" ∷ "selection" ∷ "job" ∷ "artifact" ∷ "files" ∷ []

abbrev job_keys : List String
job_keys = "id" ∷ "check_run_id" ∷ "name" ∷ []

abbrev artifact_keys : List String
artifact_keys = "id" ∷ "name" ∷ "sha256" ∷ "size_in_bytes" ∷ []

signed_number-eq :
    (d : Dict String Value) (key : String) (n : ℕ)
    → signed_number d key ≡ ok n
    → item d key ≡ ok (int (pos n))
signed_number-eq d key n h =
    >>=-ok (item d key) _ h
      λ v at_key h1. at_key ∙ ap ok (exact_number-eq v "signed identity is not an integer" n h1).0

-- The entries name the job and the artifact that were asked for.
pub record IsSigned (origin job artifact : Dict String Value) (wanted : Wanted)
    (signed : SignedOrigin) : Type 0 where
  pub at_job_id : item job "id" ≡ ok (int (pos signed.job.id))
  pub check_id : item job "check_run_id" ≡ ok (int (pos signed.job.check_run_id))
  pub job_name : item job "name" ≡ ok (str wanted.job_name)
  pub artifact_id : item artifact "id" ≡ ok (int (pos wanted.artifact_id))
  pub artifact_name : item artifact "name" ≡ ok (str wanted.artifact_name)
  pub sha256 : item artifact "sha256" ≡ ok signed.sha256
  pub size : item artifact "size_in_bytes" ≡ ok (int (pos signed.size))
  pub files : item origin "files" ≡ ok signed.files
  pub of_id : signed.artifact_id ≡ wanted.artifact_id

read_signed-IsSigned :
    (origin job artifact : Dict String Value) (wanted : Wanted) (signed : SignedOrigin)
    → read_signed origin job artifact wanted ≡ ok signed
    → IsSigned origin job artifact wanted signed
unfolding read_signed
read_signed-IsSigned origin job artifact wanted signed h =
    >>=-ok (signed_number job "id") _ h λ i is_i h1.
      >>=-ok (signed_number job "check_run_id") _ h1 λ k is_k h2.
        >>=-ok (signed_number artifact "id") _ h2 λ a is_a h3.
          >>=-ok (signed_number artifact "size_in_bytes") _ h3 λ n is_n h4.
            >>=-ok (item job "name") _ h4 λ job_name at_job_name h5.
              >>=-ok (item artifact "name") _ h5 λ artifact_name at_artifact_name h6.
                require-ok
                  (is_str job_name wanted.job_name
                    && a == wanted.artifact_id
                    && is_str artifact_name wanted.artifact_name)
                  _ _ h6
                  λ named h7. >>=-ok (item artifact "sha256") _ h7 λ digest at_digest h8.
                    >>=-ok (item origin "files") _ h8 λ files at_files h9.
                      let p = both_true _ (is_str artifact_name wanted.artifact_name) named in
                      let q = both_true (is_str job_name wanted.job_name) _ p.0 in
                      let same = eq_of_test a wanted.artifact_id q.1 in
                      subst (IsSigned origin job artifact wanted) (ok-injective h9) (record {
                        at_job_id = signed_number-eq job "id" i is_i;
                        check_id = signed_number-eq job "check_run_id" k is_k;
                        job_name = at_job_name ∙ ap ok (is_str-eq job_name wanted.job_name q.0);
                        artifact_id =
                            signed_number-eq artifact "id" a is_a ∙ ap (λ m. ok (int (pos m))) same;
                        artifact_name =
                            at_artifact_name
                            ∙ ap ok (is_str-eq artifact_name wanted.artifact_name p.1);
                        sha256 = at_digest;
                        size = signed_number-eq artifact "size_in_bytes" n is_n;
                        files = at_files;
                        of_id = same;
                      })

-- The record is of the context and of the lane that was asked for, and its job and its artifact are.
pub record IsWanted (document : Value) (c : Context) (wanted : Wanted) (signed : SignedOrigin)
    : Type 0 where
  pub origin : Dict String Value
  pub is_origin : as_dict document ≡ some origin
  pub signed_context : Value
  pub at_context : item origin "context" ≡ ok signed_context
  pub context_agrees : canonical_json signed_context ≡ canonical_json (context_value c)
  pub lane : Lane
  pub lane_selected : selection wanted.lane ≡ ok lane
  pub signed_lane : Value
  pub at_lane : item origin "selection" ≡ ok signed_lane
  pub same_lane : py_equal signed_lane (lane_value lane) ≡ true
  pub job : Dict String Value
  pub job_document : Value
  pub at_job : item origin "job" ≡ ok job_document
  pub is_job : as_dict job_document ≡ some job
  pub expected_job : is_expected (job_option wanted.expected_job) job_document ≡ true
  pub artifact : Dict String Value
  pub artifact_document : Value
  pub at_artifact : item origin "artifact" ≡ ok artifact_document
  pub is_artifact : as_dict artifact_document ≡ some artifact
  pub expected_artifact :
      is_expected (artifact_option wanted.expected_artifact) artifact_document ≡ true
  pub signed_entries : IsSigned origin job artifact wanted signed

pub read_origin-IsWanted :
    (document : Value) (c : Context) (wanted : Wanted) (signed : SignedOrigin)
    → read_origin document c wanted ≡ ok signed
    → IsWanted document c wanted signed
unfolding read_origin
read_origin-IsWanted document c wanted signed h =
    >>=-ok (exact_keys document origin_keys) _ h λ origin is_origin h1.
      >>=-ok (item origin "schema") _ h1 λ schema _ h2.
        >>=-ok (item origin "context") _ h2 λ signed_context at_context h3.
          require-ok
            (is_str schema "aros-toolchain-artifact-origin-v1"
              && canonical_json signed_context == canonical_json (context_value c))
            _ _ h3
            λ same h4. >>=-ok (selection wanted.lane) _ h4 λ lane is_lane h5.
              >>=-ok (item origin "selection") _ h5 λ signed_lane at_lane h6.
                require-ok (py_equal signed_lane (lane_value lane)) _ _ h6 λ same_lane h7.
                  >>=-ok (item origin "job") _ h7 λ job_document at_job h8.
                    >>=-ok (exact_keys job_document job_keys) _ h8 λ job is_job h9.
                      >>=-ok (item origin "artifact") _ h9 λ artifact_document at_artifact h10.
                        >>=-ok (exact_keys artifact_document artifact_keys) _ h10
                          λ artifact is_artifact h11.
                            require-ok (is_expected (job_option wanted.expected_job) job_document) _
                              _ h11
                              λ expected_job h12.
                                require-ok
                                  (is_expected (artifact_option wanted.expected_artifact)
                                    artifact_document)
                                  _ _ h12
                                  λ expected_artifact h13. record {
                                    origin = origin;
                                    is_origin = keyed_dict document origin_keys origin is_origin;
                                    signed_context = signed_context;
                                    at_context = at_context;
                                    context_agrees =
                                        eq_of_test (canonical_json signed_context)
                                          (canonical_json (context_value c))
                                          (both_true
                                            (is_str schema "aros-toolchain-artifact-origin-v1") _
                                            same).1;
                                    lane = lane;
                                    lane_selected = is_lane;
                                    signed_lane = signed_lane;
                                    at_lane = at_lane;
                                    same_lane = same_lane;
                                    job = job;
                                    job_document = job_document;
                                    at_job = at_job;
                                    is_job = keyed_dict job_document job_keys job is_job;
                                    expected_job = expected_job;
                                    artifact = artifact;
                                    artifact_document = artifact_document;
                                    at_artifact = at_artifact;
                                    is_artifact =
                                        keyed_dict artifact_document artifact_keys artifact
                                          is_artifact;
                                    expected_artifact = expected_artifact;
                                    signed_entries =
                                        read_signed-IsSigned origin job artifact wanted signed h13;
                                  }
