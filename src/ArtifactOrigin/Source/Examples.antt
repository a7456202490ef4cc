-- ===== src/ArtifactOrigin/Source/Examples.antt =====
-- Runs of validate_context and observe_run_event.
use aros_toolchains.Prelude.{
  [], ◌∷◌, ok, raise, origin_error, string_eq, nat_eq, ◌==◌, if◌then◌else◌, ◌≡◌, refl,
}
use aros_toolchains.Json.{Value, pos, int, str, object}
use aros_toolchains.ArtifactOrigin.Provider.{Context}
use aros_toolchains.ArtifactOrigin.Examples.{context}
use aros_toolchains.ArtifactOrigin.Source.{
  Api, validate_context, exact_number, context_value, run_attempt_path, observe_run_event,
}
use aros_toolchains.ArtifactOrigin.Source.Observed.{
  IsContext, IsRun, validate_context_again, observe_run_event-IsRun,
}

context_accepted : validate_context (context_value context) ≡ ok context
unfolding validate_context exact_number string_eq nat_eq
context_accepted = refl

validate_context_again_example :
    IsContext context × (validate_context (context_value context) ≡ ok context)
validate_context_again_example =
    validate_context_again (context_value context) context context_accepted

abbrev pub run : Value
run = object (
    ("id", int (pos 17))
    ∷ ("run_attempt", int (pos 1))
    ∷ ("head_sha", str "0123456789abcdef0123456789abcdef01234567")
    ∷ ("head_branch", str "v1")
    ∷ ("path", str ".github/workflows/toolchain-release.yml@refs/tags/v1")
    ∷ (
      "head_repository",
      object (("id", int (pos 7)) ∷ ("full_name", str "metaneutrons/aros-toolchains") ∷ []),
    )
    ∷ ("event", str "push")
    ∷ [])

abbrev api : Api
api path =
    if path == "repos/metaneutrons/aros-toolchains/actions/runs/17/attempts/1"
    then ok run
    else raise (origin_error "GitHub observation failed; no retry or credential fallback")

push_observed : observe_run_event api (context_value context) ≡ ok "push"
unfolding observe_run_event exact_number string_eq nat_eq
push_observed = refl

observe_run_event-IsRun_example :
    (c : Context) × (run : Value) × (validate_context (context_value context) ≡ ok c)
    × (api (run_attempt_path c) ≡ ok run)
    × IsRun run c "push"
observe_run_event-IsRun_example =
    observe_run_event-IsRun api (context_value context) "push" push_observed
