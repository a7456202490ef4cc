-- ===== src/ChangePlan/Markdown.antt =====
-- When `plan_changes` takes the Markdown-only path.
use aros_toolchains.Prelude.{
  ◌≤◌, String, Bool, true, false, ◌||◌, not, if◌then◌else◌, List, [], ◌∷◌, Option, none, some, ◌==◌,
  string_eq, list_eq, pair_eq, nat_eq, lookup, length, any, ◌≡◌, ◌≢◌, refl, arith, All, ◌↔◌,
}
use aros_toolchains.Json.{pos}
use aros_toolchains.Text.{is_hex}
use aros_toolchains.Text.Bytes.{encode}
use aros_toolchains.ChangePlan.{
  safe_path, expected_modes, check_modes, check_change, first_reason, check_changes, plan_checked,
  Plan, full, Completed, plan_parsed,
}
use aros_toolchains.ChangePlan.Records.{
  Bytes, Change, Parsed, parsed, parse_error, ends_with, max_diff_bytes,
}

-- A regular Markdown file that is added, modified or deleted, at a safe path.
pub record IsMarkdown (c : Change) : Type 0 where
  pub safe : safe_path c.path ≡ true
  pub suffix : ends_with (encode ".md") c.path ≡ true
  pub modes : lookup c.status expected_modes ≡ some (c.old_mode, c.new_mode)

check_modes_iff :
    (closed : Bool) (found : Option (Bytes × Bytes)) (m : Bytes × Bytes)
    → check_modes closed found m ≡ none ↔ (closed ≡ true) × (found ≡ some m)
check_modes_iff false found m = (λ h. cc, λ h. cc)
check_modes_iff true none m = (λ h. cc, λ h. cc)
check_modes_iff true (some modes) m = (λ h. (refl, ground arith), λ h. ground arith)

check_change_iff :
    (c : Change)
    → check_change c ≡ none
      ↔ (ends_with (encode ".md") c.path ≡ true)
        × (lookup c.status expected_modes ≡ some (c.old_mode, c.new_mode))
unfolding check_change
check_change_iff c =
    check_modes_iff (ends_with (encode ".md") c.path) (lookup c.status expected_modes)
      (c.old_mode, c.new_mode)

safe_both : (safe others : Bool) → (not safe || others) ≡ false ↔ (safe ≡ true) × (others ≡ false)
safe_both safe others = (λ h. ground arith, λ h. ground arith)

first_reason_iff : (a b : Option String) → first_reason a b ≡ none ↔ (a ≡ none) × (b ≡ none)
first_reason_iff none b = (λ h. (refl, h), λ h. h.1)
first_reason_iff (some r) b = (λ h. cc, λ h. cc)

-- The two passes over the changes find nothing.
passes_iff :
    (cs : List Change)
    → (any (λ (c : Change). not (safe_path c.path)) cs ≡ false) × (check_changes cs ≡ none)
      ↔ All IsMarkdown cs
unfolding check_changes
passes_iff [] = (λ h. tt, λ h. (refl, refl))
passes_iff (c ∷ cs) =
    let rest = passes_iff cs in
    let here = check_change_iff c in
    (
      λ h.
          let a =
            (safe_both (safe_path c.path) (any (λ (c : Change). not (safe_path c.path)) cs)).0
              h.0 in
          let b = (first_reason_iff (check_change c) (check_changes cs)).0 h.1 in
          let m = here.0 b.0 in
          (record { safe = a.0; suffix = m.0; modes = m.1 }, rest.0 (a.1, b.1)),
      λ h.
          let r = rest.1 h.1 in
          (
            (safe_both (safe_path c.path) (any (λ (c : Change). not (safe_path c.path)) cs)).1
                (h.0.safe, r.0),
            (first_reason_iff (check_change c) (check_changes cs)).1
                (here.1 (h.0.suffix, h.0.modes), r.1),
          ),
    )

-- The pull request compares two different commits, and Git gave their difference.
pub record IsCompared (git : String → String → Option Completed) (event : String)
    (base head : Option String) (raw : Bytes) : Type 0 where
  pub base_commit : String
  pub head_commit : String
  pub pull_request : event ≡ "pull_request"
  pub base_given : base ≡ some base_commit
  pub head_given : head ≡ some head_commit
  pub base_full : is_hex 40 base_commit ≡ true
  pub head_full : is_hex 40 head_commit ≡ true
  pub distinct : (base_commit == head_commit) ≡ false
  pub returned : git base_commit head_commit ≡ some (record { returncode = pos 0; stdout = raw })
  pub bounded : length raw ≤ max_diff_bytes

-- A guard of `plan_changes` that lets Markdown through.
pub passed :
    (b : Bool) (reason : String) (p : Plan)
    → (if b then full reason else p).scope ≡ "markdown"
    → (b ≡ false) × (p.scope ≡ "markdown")
passed true reason p h = absurd (cc)
passed false reason p h = (refl, h)

plan_checked_iff :
    (b : Bool) (r : Option String)
    → (plan_checked b r).scope ≡ "markdown" ↔ (b ≡ false) × (r ≡ none)
plan_checked_iff true r = (λ h. absurd cc, λ h. absurd cc)
plan_checked_iff false none = (λ h. (refl, refl), λ h. refl)
plan_checked_iff false (some r) = (λ h. absurd cc, λ h. absurd cc)

-- What was read is a list of Markdown changes, with one at least.
pub record IsMarkdownDiff (p : Parsed) : Type 0 where
  pub changes : List Change
  pub reads : p ≡ parsed changes
  pub nonempty : changes ≢ []
  pub all_markdown : All IsMarkdown changes

pub plan_parsed-IsMarkdownDiff :
    (p : Parsed) → (plan_parsed p).scope ≡ "markdown" → IsMarkdownDiff p
unfolding plan_parsed
plan_parsed-IsMarkdownDiff (parse_error r) h = absurd cc
plan_parsed-IsMarkdownDiff (parsed []) h = absurd cc
plan_parsed-IsMarkdownDiff (parsed (c ∷ cs)) h = record {
  changes = c ∷ cs;
  reads = refl;
  nonempty = λ e. cc;
  all_markdown = (passes_iff (c ∷ cs)).0 (
      (plan_checked_iff (any (λ (c : Change). not (safe_path c.path)) (c ∷ cs))
          (check_changes (c ∷ cs))).0
        h);
}

pub plan_parsed-markdown :
    (cs : List Change) → cs ≢ [] → All IsMarkdown cs → (plan_parsed (parsed cs)).scope ≡ "markdown"
unfolding plan_parsed
plan_parsed-markdown [] h k = absurd (h refl)
plan_parsed-markdown (c ∷ cs) h k =
    (plan_checked_iff (any (λ (c : Change). not (safe_path c.path)) (c ∷ cs))
        (check_changes (c ∷ cs))).1
      ((passes_iff (c ∷ cs)).1 k)
