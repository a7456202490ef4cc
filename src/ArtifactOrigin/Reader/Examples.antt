-- ===== src/ArtifactOrigin/Reader/Examples.antt =====
-- Runs of verify on the run, the job and the archive of the other examples.
use aros_toolchains.Prelude.{
  String, false, [], ◌∷◌, none, some, ok, raise, origin_error, ◌==◌, ◌<>◌, if◌then◌else◌, string_eq,
  list_eq, nat_eq, pair_eq, Dict, ◌≡◌, refl,
}
use aros_toolchains.Json.{Value, pos, int, str, bool, object, array}
use aros_toolchains.Sorted.{nat_ord, sort_by}
use aros_toolchains.Json.Canonical.{quote}
use aros_toolchains.Text.Order.{string_ord}
use aros_toolchains.Text.Bytes.{decimal}
use aros_toolchains.ArtifactOrigin.{kind_eq}
use aros_toolchains.ArtifactOrigin.Examples.{context, pages, selected, digest}
use aros_toolchains.ArtifactOrigin.Archive.Examples.{by_length, archive, files}
use aros_toolchains.ArtifactOrigin.Source.{Api, context_value, exact_number}
use aros_toolchains.ArtifactOrigin.Source.Examples.{run}
use aros_toolchains.ArtifactOrigin.Reader.{Wanted, Sources, job_value, verify}
use aros_toolchains.ArtifactOrigin.Reader.Authentic.{IsAuthentic, verify-IsAuthentic}

abbrev lane : Dict String Value
lane =
    ("role", str "build")
    ∷ ("group", str "tools")
    ∷ ("host", str "linux")
    ∷ ("profile", str "m68k")
    ∷ ("copy", str "a")
    ∷ []

abbrev origin : Value
origin = object (
    ("schema", str "aros-toolchain-artifact-origin-v1")
    ∷ ("context", context_value context)
    ∷ ("selection", object lane)
    ∷ ("job", job_value selected)
    ∷ (
      "artifact",
      object (
          ("id", int (pos 5))
          ∷ ("name", str "native")
          ∷ ("sha256", str digest)
          ∷ ("size_in_bytes", int (pos 300))
          ∷ []),
    )
    ∷ ("files", files)
    ∷ [])

abbrev reported : Value
reported = object (
    ("id", int (pos 5))
    ∷ ("name", str "native")
    ∷ ("digest", str ("sha256:" <> digest))
    ∷ ("expired", bool false)
    ∷ ("size_in_bytes", int (pos 300))
    ∷ (
      "workflow_run",
      object (
          ("id", int (pos 17))
          ∷ ("head_sha", str "0123456789abcdef0123456789abcdef01234567")
          ∷ ("repository_id", int (pos 7))
          ∷ ("head_repository_id", int (pos 7))
          ∷ []),
    )
    ∷ [])

abbrev api : Api
api path =
    if path == "repos/metaneutrons/aros-toolchains/actions/artifacts/5" then ok reported else ok run

abbrev attestation : Value
attestation = array (
    object (
      (
        "verificationResult",
        object (
            (
              "signature",
              object (
                  (
                    "certificate",
                    object (
                        (
                          "runInvocationURI",
                          str
                              "https://github.com/metaneutrons/aros-toolchains/actions/runs/17/attempts/1",
                        )
                        ∷ []),
                  )
                  ∷ []),
            )
            ∷ (
              "statement",
              object (
                  (
                    "subject",
                    array (
                        object (
                          ("name", str "origin.json")
                          ∷ ("digest", object (("sha256", str digest) ∷ []))
                          ∷ [])
                        ∷ []),
                  )
                  ∷ []),
            )
            ∷ []),
      )
      ∷ [])
    ∷ [])

abbrev sources : Sources
sources = record {
  origin_name = "origin.json";
  one_path = false;
  origin_before = ok (record { sha256 = digest; size = 900 });
  bundle_before = ok (record { sha256 = digest; size = 800 });
  origin = ok origin;
  api = api;
  jobs = λ c. ok pages;
  attestation = λ c. ok attestation;
  download = λ c id. ok archive;
  origin_after = ok (record { sha256 = digest; size = 900 });
  bundle_after = ok (record { sha256 = digest; size = 800 });
}

abbrev wanted : Wanted
wanted = record {
  lane = lane;
  job_name = "Native compiler";
  artifact_id = 5;
  artifact_name = "native";
  expected_job = some selected;
  expected_artifact = none;
  expected_event = some "push";
}

origin_verified : verify by_length sources context wanted ≡ ok tt
unfolding verify exact_number string_eq nat_eq list_eq pair_eq nat_ord string_ord kind_eq decimal
    sort_by quote
origin_verified = refl

-- The record changed while it was verified.
changed_refused :
    verify by_length
      (record sources { origin_after = ok (record { sha256 = digest; size = 901 }) })
      context
      wanted
    ≡ raise (origin_error "origin changed during verification")
unfolding verify exact_number string_eq nat_eq list_eq pair_eq nat_ord string_ord kind_eq decimal
    sort_by quote
changed_refused = refl

verify-IsAuthentic_example : IsAuthentic by_length sources context wanted
verify-IsAuthentic_example = verify-IsAuthentic by_length sources context wanted origin_verified
