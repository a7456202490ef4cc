-- ===== src/ChangePlan.antt =====
-- scripts/ci/plan-changes.py: whether a pull request changes Markdown files only.
pub mod Records
pub mod RawHeader
pub mod Fields
pub mod Diff
pub mod Markdown
pub mod Scope
pub mod Examples
use aros_toolchains.Prelude.{
  ℕ, zero, suc, ◌%◌, String, Bool, true, false, ◌&&◌, ◌||◌, not, if◌then◌else◌, List, [], ◌∷◌, ◌++◌,
  Option, none, some, ◌==◌, contains, ◌<>◌, string_eq, list_eq, pair_eq, nat_eq, Dict, lookup,
  length, leb, ltb, all, any,
}
use aros_toolchains.Json.{ℤ, pos, negsuc}
use aros_toolchains.Text.{is_hex, starts_with}
use aros_toolchains.Text.Bytes.{encode}
use aros_toolchains.ChangePlan.Records.{
  parsed, parse_error, Bytes, max_diff_bytes, split_bytes, ends_with, Change, Parsed,
  parse_raw_diff,
}

-- The components `.` and `..`
abbrev pub is_dots : Bytes → Bool
is_dots c = c == [] || c == encode "." || c == encode ".."

unfoldable pub safe_path : Bytes → Bool
unfolding split_bytes
safe_path path =
    not (path == [] || any (λ b. not (leb 0x20 b && ltb b 0x7f)) path)
    && not (starts_slash path || contains path 92)
    && all (λ c. not (is_dots c)) (split_bytes 47 path)
  where
    starts_slash : Bytes → Bool
    starts_slash [] = false
    starts_slash (b ∷ bs) = b == 47

abbrev pub expected_modes : Dict Bytes (Bytes × Bytes)
expected_modes =
    (encode "M", (encode "100644", encode "100644"))
    ∷ (encode "A", (encode "000000", encode "100644"))
    ∷ (encode "D", (encode "100644", encode "000000"))
    ∷ []

-- Whether it is a Markdown file, the modes to expect of its status, and its modes.
abbrev pub check_modes : Bool → Option (Bytes × Bytes) → Bytes × Bytes → Option String
check_modes false expected modes = some "other_path"
check_modes true none modes = some "unsupported_status"
check_modes true (some expected) modes =
    if not (modes == expected) then some "mode_change" else none

-- The reason to refuse a change, if there is one.
unfoldable pub check_change : Change → Option String
check_change c =
    check_modes (ends_with (encode ".md") c.path) (lookup c.status expected_modes)
      (c.old_mode, c.new_mode)

abbrev pub first_reason : Option String → Option String → Option String
first_reason none later = later
first_reason (some reason) later = some reason

unfoldable pub check_changes : List Change → Option String
unfolding check_change
check_changes [] = none
check_changes (c ∷ cs) = first_reason (check_change c) (check_changes cs)

pub record Plan : Type 0 where
  pub scope : String
  pub reason : String

abbrev pub full : String → Plan
full reason = record { scope = "full"; reason = reason }

abbrev pub is_empty : Option String → Bool
is_empty none = true
is_empty (some s) = s == ""

abbrev pub text_of : Option String → String
text_of none = ""
text_of (some s) = s

-- What `subprocess.run` returns: nothing where it raises OSError or TimeoutExpired.
pub record Completed : Type 0 where
  pub returncode : ℤ
  pub stdout : Bytes

abbrev pub is_zero : ℤ → Bool
is_zero (pos n) = n == 0
is_zero (negsuc n) = false

-- Whether a path is unsafe, and the first reason to refuse a change.
abbrev pub plan_checked : Bool → Option String → Plan
plan_checked true reason = full "unsafe_path"
plan_checked false (some reason) = full reason
plan_checked false none = record { scope = "markdown"; reason = "markdown_only" }

unfoldable pub plan_parsed : Parsed → Plan
unfolding safe_path check_changes
plan_parsed (parse_error reason) = full reason
plan_parsed (parsed []) = full "empty_diff"
plan_parsed (parsed (change ∷ changes)) =
    plan_checked (any (λ (c : Change). not (safe_path c.path)) (change ∷ changes))
      (check_changes (change ∷ changes))

-- The part after Git has run.
unfoldable pub plan_completed : Option Completed → Plan
unfolding plan_parsed parse_raw_diff
plan_completed none = full "git_error"
plan_completed (some completed) =
    if not (is_zero completed.returncode) || ltb max_diff_bytes (length completed.stdout)
    then full "git_error"
    else plan_parsed (parse_raw_diff completed.stdout)

-- `git` is the run of `git diff` on two commits in the repository.
module _ (git : String → String → Option Completed) where
  unfoldable pub plan_changes : String → Option String → Option String → Plan
  unfolding plan_completed
  plan_changes event base head =
      if not (event == "pull_request")
      then full "event_not_pull_request"
      else if is_empty base
      then full "missing_base"
      else if not (is_hex 40 (text_of base))
      then full "invalid_base"
      else if is_empty head
      then full "missing_head"
      else if not (is_hex 40 (text_of head))
      then full "invalid_head"
      else if text_of base == text_of head
      then full "identical_refs"
      else plan_completed (git (text_of base) (text_of head))

-- `_normalize_ref_options`
unfoldable pub normalize_ref_options : List String → List String
normalize_ref_options [] = []
normalize_ref_options (argument ∷ []) = argument ∷ []
normalize_ref_options (argument ∷ value ∷ rest) =
    let after_value = normalize_ref_options rest in
    let after_argument = normalize_ref_options (value ∷ rest) in
    if (argument == "--base" || argument == "--head") && starts_with "-" value
    then (argument <> "=" <> value) ∷ after_value
    else argument ∷ after_argument
