-- ===== src/ArtifactOrigin/Selection/Separate.antt =====
-- What an accepted selection is.
use mathlib.Core.Path.{subst}
use aros_toolchains.Prelude.{
  le_of_leb, Eq, ℕ, ◌*◌, ◌≤◌, ◌<◌, String, Bool, true, false, ◌&&◌, not, if◌then◌else◌, [], ◌∷◌, ok,
  origin_error, require-ok, require_held, >>=-ok, ok-injective, both_true, ◌==◌, string_eq, nat_eq,
  contains, Dict, leb, ltb, eq_of_test, ◌≡◌, arith,
}
use aros_toolchains.Json.{Value, as_str, is_str, item, or_raise}
use aros_toolchains.Text.{char_count, is_hex}
use aros_toolchains.ArtifactOrigin.Provider.{Context, SelectedArtifact, max_payload}
use aros_toolchains.ArtifactOrigin.Provider.Numbers.{positive-IsNumber}
use aros_toolchains.ArtifactOrigin.Archive.{exact_keys}
use aros_toolchains.ArtifactOrigin.Source.{exact_number, validate_context}
use aros_toolchains.ArtifactOrigin.Source.Observed.{
  exact_number-eq, IsContext, validate_context-IsContext,
}
use aros_toolchains.ArtifactOrigin.Selection.{
  is_segment, is_profile, is_copy, roles, Lane, lane_text, selection, is_lane, read_artifact,
  max_metadata, same_context, check_attempts, ExpectedJob, read_job, SourceSelection,
  source_selection,
}

-- The texts of a lane have their forms, and the copies `a` and `b` are those of a build.
pub record IsLane (l : Lane) : Type 0 where
  pub group : is_segment l.group ≡ true
  pub host : is_segment l.host ≡ true
  pub profile : is_profile l.profile ≡ true
  pub role : contains roles l.role ≡ true
  pub copied : is_copy l.copy ≡ (l.role == "build")

copy_of_build : (b c : Bool) → (if b then c else not c) ≡ true → c ≡ b
copy_of_build b c h = ground arith

pub selection-IsLane : (args : Dict String Value) (l : Lane) → selection args ≡ ok l → IsLane l
unfolding selection
selection-IsLane args l h = >>=-ok (lane_text args "role") _ h λ role _ h1.
    >>=-ok (lane_text args "group") _ h1 λ group _ h2.
      >>=-ok (lane_text args "host") _ h2 λ host _ h3.
        >>=-ok (lane_text args "profile") _ h3 λ profile _ h4.
          >>=-ok (lane_text args "copy") _ h4 λ copy _ h5.
            require-ok
              (is_segment role
                && is_segment group
                && is_segment host
                && is_segment copy
                && is_profile profile)
              _ _ h5
              λ forms h6.
                require-ok (contains roles role && contains ("a" ∷ "b" ∷ "none" ∷ []) copy) _ _ h6
                  λ known h7.
                    require-ok (if role == "build" then is_copy copy else not (is_copy copy)) _ _ h7
                      λ matched h8.
                        let a = both_true _ (is_profile profile) forms in
                        let b = both_true _ (is_segment copy) a.0 in
                        let c = both_true _ (is_segment host) b.0 in
                        let d = both_true (is_segment role) (is_segment group) c.0 in
                        subst IsLane (ok-injective h8) (record {
                          group = d.1;
                          host = c.1;
                          profile = a.1;
                          role = (both_true (contains roles role) _ known).0;
                          copied = copy_of_build (role == "build") (is_copy copy) matched;
                        })

-- An artifact with a positive identity, a name and a digest of their forms, and a size in bounds.
pub record IsArtifact (limit : ℕ) (a : SelectedArtifact) : Type 0 where
  pub identified : 0 < a.id
  pub named : is_segment a.name ≡ true
  pub digest : is_hex 64 a.sha256 ≡ true
  pub nonempty : 0 < a.size_in_bytes
  pub bounded : a.size_in_bytes ≤ limit

exact_number_pos : (v : Value) (message : String) (n : ℕ) → exact_number v message ≡ ok n → 0 < n
exact_number_pos v message n h = (positive-IsNumber _ n (exact_number-eq v message n h).1).1

read_artifact-IsArtifact :
    (v : Value) (limit : ℕ) (a : SelectedArtifact)
    → read_artifact v limit ≡ ok a
    → IsArtifact limit a
unfolding read_artifact
read_artifact-IsArtifact v limit a h =
    let message : String = "source artifact selection is invalid" in
    >>=-ok (exact_keys v ("id" ∷ "name" ∷ "sha256" ∷ "size_in_bytes" ∷ [])) _ h λ entry _ h1.
      >>=-ok (item entry "id") _ h1 λ id_value _ h2.
        >>=-ok (exact_number id_value message) _ h2 λ id is_id h3.
          >>=-ok (item entry "size_in_bytes") _ h3 λ size_value _ h4.
            >>=-ok (exact_number size_value message) _ h4 λ size is_size h5.
              require-ok (leb size limit) _ _ h5 λ fits h6.
                >>=-ok (item entry "name") _ h6 λ name_value _ h7.
                  >>=-ok (or_raise (as_str name_value) (origin_error message)) _ h7 λ name _ h8.
                    >>=-ok (item entry "sha256") _ h8 λ sha_value _ h9.
                      >>=-ok (or_raise (as_str sha_value) (origin_error message)) _ h9 λ sha _ h10.
                        require-ok (is_segment name && is_hex 64 sha) _ _ h10 λ forms h11.
                          let f = both_true (is_segment name) (is_hex 64 sha) forms in
                          subst (IsArtifact limit) (ok-injective h11) (record {
                            identified = exact_number_pos id_value message id is_id;
                            named = f.0;
                            digest = f.1;
                            nonempty = exact_number_pos size_value message size is_size;
                            bounded = le_of_leb size limit fits;
                          })

-- The source's run is the caller's, or is another run or another attempt.
abbrev pub IsAttempt : Bool → Context → Context → Type 0
IsAttempt true source caller = source ≡ caller
IsAttempt false source caller =
    ¬ ((source.run_id ≡ caller.run_id) × (source.run_attempt ≡ caller.run_attempt))

same_context-eq : (a b : Context) → same_context a b ≡ true → a ≡ b
same_context-eq a b h = ground arith

apart : (m n j k : ℕ) → not (m == n && j == k) ≡ true → ¬ ((m ≡ n) × (j ≡ k))
apart m n j k h e = ground (arith, h, e.0, e.1)

check_attempts-IsAttempt :
    (same : Bool) (source caller : Context)
    → check_attempts same source caller ≡ ok tt
    → IsAttempt same source caller
check_attempts-IsAttempt true source caller h = same_context-eq source caller (require_held _ _ h)
check_attempts-IsAttempt false source caller h =
    apart source.run_id caller.run_id source.run_attempt caller.run_attempt (require_held _ _ h)

-- A selection that a caller may read artifacts by.
pub record IsSelected (caller : Context) (same : Bool) (s : SourceSelection) : Type 0 where
  pub context : IsContext s.context
  pub repository : s.context.repository ≡ caller.repository
  pub repository_id : s.context.repository_id ≡ caller.repository_id
  pub attempt : IsAttempt same s.context caller
  pub lane : IsLane s.lane
  pub job : 0 < s.job.id
  pub artifact : IsArtifact max_payload s.artifact
  pub proof : IsArtifact (2 * max_metadata) s.proof
  pub ids : ¬ (s.artifact.id ≡ s.proof.id)
  pub names : ¬ (s.artifact.name ≡ s.proof.name)

read_job-positive : (v : Value) (j : ExpectedJob) → read_job v ≡ ok j → 0 < j.id
unfolding read_job
read_job-positive v j h =
    let message : String = "source job selection is invalid" in
    >>=-ok (exact_keys v ("id" ∷ "name" ∷ [])) _ h λ job _ h1.
      >>=-ok (item job "id") _ h1 λ id_value _ h2.
        >>=-ok (exact_number id_value message) _ h2 λ id is_id h3.
          >>=-ok (item job "name") _ h3 λ name_value _ h4.
            >>=-ok (or_raise (as_str name_value) (origin_error message)) _ h4 λ name _ h5.
              require-ok (ltb 0 (char_count name) && leb (char_count name) 256) _ _ h5 λ _ h6.
                subst (λ (e : ExpectedJob). 0 < e.id) (ok-injective h6)
                  (exact_number_pos id_value message id is_id)

differ {ℓ} : {A : Type ℓ} ⦃e : Eq A⦄ (a b : A) → not (a == b) ≡ true → ¬ (a ≡ b)
differ a b h e = ground (arith, h, e)

-- A selection is accepted only if its context has the forms of a context and is of the caller's
-- repository; it is the caller's own context where the same attempt is asked for, and else another
-- run or another attempt; its lane has known forms, with a copy just where it is a build; its job,
-- artifact and proof have positive identities, and the latter two are within their bounds and
-- differ in identity and in name.
pub source_selection-IsSelected :
    (value : Value) (caller : Context) (same : Bool) (s : SourceSelection)
    → source_selection value caller same ≡ ok s
    → IsSelected caller same s
unfolding source_selection
source_selection-IsSelected value caller same s h =
    >>=-ok
      (exact_keys value ("schema" ∷ "context" ∷ "selection" ∷ "job" ∷ "artifact" ∷ "proof" ∷ [])) _
      h
      λ selected _ h1. >>=-ok (item selected "schema") _ h1 λ schema _ h2.
        require-ok (is_str schema "aros-toolchain-artifact-selection-v1") _ _ h2 λ _ h3.
          >>=-ok (item selected "context") _ h3 λ context_value _ h4.
            >>=-ok (validate_context context_value) _ h4 λ source valid h5.
              require-ok
                (source.repository == caller.repository
                  && source.repository_id == caller.repository_id)
                _ _ h5
                λ own h6. >>=-ok (check_attempts same source caller) _ h6 λ _ attempt h7.
                  >>=-ok (item selected "selection") _ h7 λ lane_value _ h8.
                    >>=-ok
                      (exact_keys lane_value ("role" ∷ "group" ∷ "host" ∷ "profile" ∷ "copy" ∷ []))
                      _ h8
                      λ lane _ h9. >>=-ok (selection lane) _ h9 λ chosen is_lane_of h10.
                        require-ok (is_lane lane chosen) _ _ h10 λ _ h11.
                          >>=-ok (item selected "job") _ h11 λ job_value _ h12.
                            >>=-ok (read_job job_value) _ h12 λ job is_job h13.
                              >>=-ok (item selected "artifact") _ h13 λ artifact_value _ h14.
                                >>=-ok (read_artifact artifact_value max_payload) _ h14
                                  λ artifact is_artifact h15.
                                    >>=-ok (item selected "proof") _ h15 λ proof_value _ h16.
                                      >>=-ok (read_artifact proof_value (2 * max_metadata)) _ h16
                                        λ proof is_proof h17.
                                          require-ok
                                            (not (artifact.id == proof.id)
                                              && not (artifact.name == proof.name))
                                            _ _ h17
                                            λ separate h18.
                                              let r =
                                                both_true (source.repository == caller.repository) _
                                                  own in
                                              let d =
                                                both_true (not (artifact.id == proof.id)) _
                                                  separate in
                                              subst (IsSelected caller same) (ok-injective h18)
                                                (record {
                                                  context =
                                                      validate_context-IsContext context_value
                                                        source valid;
                                                  repository =
                                                      eq_of_test source.repository caller.repository
                                                        r.0;
                                                  repository_id =
                                                      eq_of_test source.repository_id
                                                        caller.repository_id r.1;
                                                  attempt =
                                                      check_attempts-IsAttempt same source caller
                                                        attempt;
                                                  lane = selection-IsLane lane chosen is_lane_of;
                                                  job = read_job-positive job_value job is_job;
                                                  artifact =
                                                      read_artifact-IsArtifact artifact_value
                                                        max_payload artifact is_artifact;
                                                  proof =
                                                      read_artifact-IsArtifact proof_value
                                                        (2 * max_metadata) proof is_proof;
                                                  ids = differ artifact.id proof.id d.0;
                                                  names = differ artifact.name proof.name d.1;
                                                })
