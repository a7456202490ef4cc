-- ===== src/ArtifactOrigin/Selection/Examples.antt =====
-- Runs of source_selection and select_source_job.
use aros_toolchains.Prelude.{
  ℕ, String, false, [], ◌∷◌, ok, raise, origin_error, string_eq, nat_eq, ◌≡◌, refl,
}
use aros_toolchains.Json.{Value, pos, int, str, object}
use aros_toolchains.Sorted.{nat_ord}
use aros_toolchains.ArtifactOrigin.Provider.{Context, SelectedArtifact}
use aros_toolchains.ArtifactOrigin.Examples.{context, pages, selected, digest}
use aros_toolchains.ArtifactOrigin.Source.{context_value, exact_number}
use aros_toolchains.ArtifactOrigin.Selection.{
  ExpectedJob, SourceSelection, source_selection, select_source_job,
}
use aros_toolchains.ArtifactOrigin.Selection.Separate.{IsSelected, source_selection-IsSelected}
use aros_toolchains.ArtifactOrigin.Selection.SourceJob.{IsSourceJob, select_source_job-IsSourceJob}

abbrev pub expected : ExpectedJob
expected = record { id = 42; name = "Native compiler" }

source_job_selected : select_source_job pages context expected ≡ ok selected
unfolding select_source_job string_eq nat_eq nat_ord
source_job_selected = refl

select_source_job-IsSourceJob_example : IsSourceJob pages context expected selected
select_source_job-IsSourceJob_example =
    select_source_job-IsSourceJob pages context expected selected source_job_selected

abbrev artifact : ℕ → String → Value
artifact id name = object (
    ("id", int (pos id))
    ∷ ("name", str name)
    ∷ ("sha256", str digest)
    ∷ ("size_in_bytes", int (pos 300))
    ∷ [])

abbrev plan_with : Value → Value
plan_with proof = object (
    ("schema", str "aros-toolchain-artifact-selection-v1")
    ∷ ("context", context_value context)
    ∷ (
      "selection",
      object (
          ("role", str "build")
          ∷ ("group", str "tools")
          ∷ ("host", str "linux")
          ∷ ("profile", str "m68k")
          ∷ ("copy", str "a")
          ∷ []),
    )
    ∷ ("job", object (("id", int (pos 42)) ∷ ("name", str "Native compiler") ∷ []))
    ∷ ("artifact", artifact 5 "native")
    ∷ ("proof", proof)
    ∷ [])

-- A later attempt of the same run.
abbrev caller : Context
caller = record context { run_attempt = 2 }

abbrev taken : ℕ → String → SelectedArtifact
taken id name = record { id = id; name = name; sha256 = digest; size_in_bytes = 300 }

abbrev source : SourceSelection
source = record {
  context = context;
  lane = record { role = "build"; group = "tools"; host = "linux"; profile = "m68k"; copy = "a" };
  job = expected;
  artifact = taken 5 "native";
  proof = taken 6 "native-proof";
}

plan_selected : source_selection (plan_with (artifact 6 "native-proof")) caller false ≡ ok source
unfolding source_selection exact_number string_eq nat_eq
plan_selected = refl

one_artifact_refused :
    source_selection (plan_with (artifact 5 "native-proof")) caller false
    ≡ raise (origin_error "payload and proof must have separate artifact identities")
unfolding source_selection exact_number string_eq nat_eq
one_artifact_refused = refl

source_selection-IsSelected_example : IsSelected caller false source
source_selection-IsSelected_example =
    source_selection-IsSelected (plan_with (artifact 6 "native-proof")) caller false source
      plan_selected
