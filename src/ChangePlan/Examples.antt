-- ===== src/ChangePlan/Examples.antt =====
-- Runs of plan-changes.py on one pull request.
use aros_toolchains.Prelude.{
  String, List, [], ◌∷◌, Option, some, string_eq, list_eq, nat_eq, pair_eq, map, ◌↔◌, ◌≢◌, ◌≡◌,
  refl, All,
}
use aros_toolchains.Json.{pos}
use aros_toolchains.Text.Bytes.{encode}
use aros_toolchains.ChangePlan.{Completed, plan_changes, normalize_ref_options}
use aros_toolchains.ChangePlan.Records.{Bytes, parse_raw_diff, parsed}
use aros_toolchains.ChangePlan.RawHeader.{write_header}
use aros_toolchains.ChangePlan.Fields.{close_fields}
use aros_toolchains.ChangePlan.Diff.{
  Entry, IsEntry, render, change_of, parse_raw_diff-render, parse_raw_diff_sound,
}
use aros_toolchains.ChangePlan.Markdown.{IsMarkdown, IsCompared}
use aros_toolchains.ChangePlan.Scope.{plan_changes_iff}

abbrev base : String
base = "0123456789abcdef0123456789abcdef01234567"

abbrev head : String
head = "89abcdef0123456789abcdef0123456789abcdef"

abbrev entry : String → Entry
entry path = record {
  header = record {
    old_mode = encode "100644";
    new_mode = encode "100644";
    old_oid = encode base;
    new_oid = encode head;
    status = encode "M";
  };
  path = encode path;
}

abbrev git : Bytes → String → String → Option Completed
git stdout from to = some (record { returncode = pos 0; stdout = stdout })

readme_changed :
    (plan_changes
      (git (render (entry "docs/README.md" ∷ [])))
      "pull_request"
      (some base)
      (some head)).reason
    ≡ "markdown_only"
unfolding plan_changes close_fields write_header string_eq list_eq nat_eq pair_eq
readme_changed = refl

script_changed :
    (plan_changes
      (git (render (entry "run.py" ∷ [])))
      "pull_request"
      (some base)
      (some head)).reason
    ≡ "other_path"
unfolding plan_changes close_fields write_header string_eq list_eq nat_eq pair_eq
script_changed = refl

parent_changed :
    (plan_changes
      (git (render (entry "../a.md" ∷ [])))
      "pull_request"
      (some base)
      (some head)).reason
    ≡ "unsafe_path"
unfolding plan_changes close_fields write_header string_eq list_eq nat_eq pair_eq
parent_changed = refl

dash_normalized :
    normalize_ref_options ("--base" ∷ "-x" ∷ "--head" ∷ head ∷ [])
    ≡ "--base=-x" ∷ "--head" ∷ head ∷ []
unfolding normalize_ref_options string_eq nat_eq
dash_normalized = refl

plan_changes_iff_example :
    (plan_changes
        (git (render (entry "README.md" ∷ [])))
        "pull_request"
        (some base)
        (some head)).scope
      ≡ "markdown"
    ↔ (es : List Entry) × IsCompared
        (git (render (entry "README.md" ∷ [])))
        "pull_request"
        (some base)
        (some head)
        (render es)
      × (es ≢ [])
      × All IsEntry es
      × All IsMarkdown (map change_of es)
plan_changes_iff_example =
    plan_changes_iff (git (render (entry "README.md" ∷ []))) "pull_request" (some base) (some head)

readme_IsEntry : IsEntry (entry "README.md")
unfolding list_eq nat_eq
readme_IsEntry = record {
  header_form = record {
    old_mode_octal = refl;
    old_mode_length = refl;
    new_mode_octal = refl;
    new_mode_length = refl;
    old_oid_hex = refl;
    old_oid_length = refl;
    new_oid_hex = refl;
    new_oid_length = refl;
    status_form = refl;
  };
  path_given = refl;
  path_closed = refl;
  one_path = refl;
}

parse_raw_diff-render_example :
    parse_raw_diff (render (entry "README.md" ∷ [])) ≡ parsed (change_of (entry "README.md") ∷ [])
parse_raw_diff-render_example = parse_raw_diff-render (entry "README.md" ∷ []) (readme_IsEntry, tt)

parse_raw_diff_sound_example :
    (es : List Entry) × All IsEntry es
    × (render (entry "README.md" ∷ []) ≡ render es)
    × (change_of (entry "README.md") ∷ [] ≡ map change_of es)
parse_raw_diff_sound_example =
    parse_raw_diff_sound (render (entry "README.md" ∷ [])) (change_of (entry "README.md") ∷ [])
      parse_raw_diff-render_example
