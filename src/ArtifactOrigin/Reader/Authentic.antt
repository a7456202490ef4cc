-- ===== src/ArtifactOrigin/Reader/Authentic.antt =====
-- What a verified origin says.
mod Reported
mod Named
use mathlib.Core.Path.{subst}
use aros_toolchains.Prelude.{
  ℕ, String, Bool, true, false, ◌&&◌, not, List, [], ◌∷◌, Option, none, some, Result, ok,
  origin_error, type_error, require, require-ok, require_held, >>=-ok, ok-injective, both_true,
  ◌>>=◌, ◌>>◌, ◌==◌, string_eq, nat_eq, Dict, leb, ltb, eq_of_test, ◌≡◌, refl, arith, ap, sym, ◌∙◌,
}
use aros_toolchains.Json.{
  Value, int, pos, as_dict, str, is_str, as_str, item, or_raise, or_raise-some,
}
use aros_toolchains.Json.Canonical.{canonical_json}
use aros_toolchains.Json.Inversion.{is_str-eq}
use aros_toolchains.Json.Equality.{py_equal}
use aros_toolchains.ArtifactOrigin.Provider.{
  Context, SelectedJob, select_job, SelectedArtifact, select_artifact, max_payload,
}
use aros_toolchains.ArtifactOrigin.Provider.Jobs.{IsOwner, select_job-IsOwner}
use aros_toolchains.ArtifactOrigin.Archive.{
  Measurement, same_measurement, exact_keys, ZipArchive, verify_zip,
}
use aros_toolchains.ArtifactOrigin.Archive.Verified.{
  IsVerified, verify_zip-IsVerified, same_measurement-eq,
}
use aros_toolchains.ArtifactOrigin.Archive.Signed.{keyed_dict}
use aros_toolchains.ArtifactOrigin.Source.{
  exact_number, context_value, observe_run_event, run_attempt_path,
}
use aros_toolchains.ArtifactOrigin.Source.Observed.{
  exact_number-eq, IsContext, validate_context-IsContext, context_value-eq, IsRun,
  observe_run_event-IsRun,
}
use aros_toolchains.ArtifactOrigin.Selection.{Lane, selection}
use aros_toolchains.ArtifactOrigin.Reader.{
  Wanted, Sources, SignedOrigin, lane_value, job_option, artifact_option, is_expected,
  is_expected_event, signed_number, read_signed, read_origin, check_attestation, same_job,
  artifact_path, check_reported, check_download, verify,
}
use aros_toolchains.ArtifactOrigin.Reader.Authentic.Named.{IsWanted, read_origin-IsWanted}
use aros_toolchains.ArtifactOrigin.Reader.Authentic.Reported.{IsReported, check_reported-IsReported}

module _ (sha256 : List ℕ → String) (sources : Sources) (c : Context) (wanted : Wanted) where
  -- The record, its files, the run, the job, the artifact and the archive of a verified origin.
  pub record IsAuthentic : Type 0 where
    pub context : IsContext c
    pub run : Value
    pub at_run : sources.api (run_attempt_path c) ≡ ok run
    pub event : String
    pub is_run : IsRun run c event
    pub as_expected : is_expected_event wanted.expected_event event ≡ true
    pub document : Value
    pub is_document : sources.origin ≡ ok document
    pub signed : SignedOrigin
    pub as_wanted : IsWanted document c wanted signed
    pub measured : Measurement
    pub before : sources.origin_before ≡ ok measured
    pub after : sources.origin_after ≡ ok measured
    pub printed : Value
    pub attestation : sources.attestation c ≡ ok printed
    pub attested : check_attestation printed c sources.origin_name measured.sha256 ≡ ok tt
    pub digest : String
    pub reported : IsReported sources c wanted signed digest
    pub archive : ZipArchive
    pub downloaded : sources.download c signed.artifact_id ≡ ok archive
    pub verified : IsVerified sha256 archive signed.files digest (some signed.size)

  check_download-IsVerified :
      (signed : SignedOrigin) (digest : String)
      → check_download sha256 sources c signed digest ≡ ok tt
      → (archive : ZipArchive) × (sources.download c signed.artifact_id ≡ ok archive)
        × IsVerified sha256 archive signed.files digest (some signed.size)
  unfolding check_download
  check_download-IsVerified signed digest h =
      require-ok (ltb 0 signed.size && leb signed.size max_payload) _ _ h λ _ h1.
        >>=-ok (sources.download c signed.artifact_id) _ h1 λ archive got h2. (
          archive,
          got,
          verify_zip-IsVerified sha256 archive signed.files digest (some signed.size) h2,
        )

  -- Where an origin is verified, the provider reported the run of the context with a supported event,
  -- the expected one if there is one; the record is of that context, of the lane that was asked for,
  -- and of the job and artifact that were asked for; the signature's printed result was accepted for
  -- the run and the digest of the record; the signed job was reported as the completed owner of its
  -- check; `select_artifact` accepted what was answered at the artifact's number, for its name and
  -- its signed digest, with the signed size; the archive that was downloaded by the artifact's number
  -- is verified, so that its members are the signed files; and the record had not changed at the
  -- end.
  pub verify-IsAuthentic : verify sha256 sources c wanted ≡ ok tt → IsAuthentic
  unfolding verify
  verify-IsAuthentic h = >>=-ok sources.origin_before _ h λ measured before h1.
      >>=-ok sources.bundle_before _ h1 λ bundle _ h2.
        require-ok (not sources.one_path) _ _ h2 λ _ h3.
          >>=-ok (observe_run_event sources.api (context_value c)) _ h3 λ event observed h4.
            require-ok (is_expected_event wanted.expected_event event) _ _ h4 λ as_expected h5.
              >>=-ok sources.origin _ h5 λ document is_document h6.
                >>=-ok (read_origin document c wanted) _ h6 λ signed is_signed h7.
                  >>=-ok (sources.attestation c) _ h7 λ printed attestation h8.
                    >>=-ok (check_attestation printed c sources.origin_name measured.sha256) _ h8
                      λ _ attested h9.
                        >>=-ok (check_reported sources c wanted signed) _ h9 λ digest reported h10.
                          >>=-ok (check_download sha256 sources c signed digest) _ h10
                            λ _ checked h11. >>=-ok sources.origin_after _ h11 λ again after h12.
                              require-ok (same_measurement again measured) _ _ h12 λ unchanged _.
                                let (a, run, valid, at_run, is_run) =
                                  observe_run_event-IsRun sources.api (context_value c) event
                                    observed in
                                let same : a ≡ c = sym (context_value-eq c a valid) in
                                let (archive, downloaded, verified) =
                                  check_download-IsVerified signed digest checked in
                                record {
                                  context =
                                      validate_context-IsContext (context_value c) c
                                        (valid ∙ ap ok same);
                                  run = run;
                                  at_run =
                                      subst (λ x. sources.api (run_attempt_path x) ≡ ok run) same
                                        at_run;
                                  event = event;
                                  is_run = subst (λ x. IsRun run x event) same is_run;
                                  as_expected = as_expected;
                                  document = document;
                                  is_document = is_document;
                                  signed = signed;
                                  as_wanted =
                                      read_origin-IsWanted document c wanted signed is_signed;
                                  measured = measured;
                                  before = before;
                                  after =
                                      after ∙ ap ok (same_measurement-eq again measured unchanged);
                                  printed = printed;
                                  attestation = attestation;
                                  attested = attested;
                                  digest = digest;
                                  reported =
                                      check_reported-IsReported sources c wanted signed digest
                                        reported;
                                  archive = archive;
                                  downloaded = downloaded;
                                  verified = verified;
                                }
