-- ===== src/ChangePlan/Scope.antt =====
-- The scope that `plan_changes` chooses.
use mathlib.Core.Path.{subst, ap₂}
use aros_toolchains.Prelude.{
  ℕ, ◌≤◌, String, Bool, true, false, ◌||◌, not, if◌then◌else◌, List, [], ◌∷◌, Option, none, some,
  ◌==◌, string_eq, nat_eq, length, ltb, map, ◌≡◌, ◌≢◌, refl, arith, sym, ap, ◌∙◌, All, ◌↔◌,
  eq_of_test, test_refl,
}
use aros_toolchains.Json.{ℤ, pos, negsuc}
use aros_toolchains.Text.{is_hex}
use aros_toolchains.ChangePlan.{
  plan_completed, is_empty, text_of, Completed, is_zero, plan_parsed, plan_changes, full, Plan,
}
use aros_toolchains.ChangePlan.Records.{Bytes, parse_raw_diff, max_diff_bytes}
use aros_toolchains.ChangePlan.Diff.{
  Entry, IsEntry, render, change_of, parse_raw_diff-render, parse_raw_diff_sound,
}
use aros_toolchains.ChangePlan.Markdown.{
  IsMarkdown, IsCompared, passed, plan_parsed-IsMarkdownDiff, plan_parsed-markdown,
}

true_of_not : {b : Bool} → not b ≡ false → b ≡ true
true_of_not {b = true} h = refl
true_of_not {b = false} h = cc

under : {b : Bool} (reason : String) {p : Plan} → b ≡ false → (if b then full reason else p) ≡ p
under {b = true} reason h = cc
under {b = false} reason h = refl

given : (o : Option String) → is_empty o ≡ false → o ≡ some (text_of o)
given none h = cc
given (some s) h = refl

-- Git returned zero and a text within the bound, whose plan is the result.
record IsReturned (o : Option Completed) : Type 0 where
  raw : Bytes
  returned : o ≡ some (record { returncode = pos 0; stdout = raw })
  bounded : length raw ≤ max_diff_bytes
  planned : (plan_parsed (parse_raw_diff raw)).scope ≡ "markdown"

not-ltb : (m n : ℕ) → ltb m n ≡ false → n ≤ m
not-ltb m n h = ground arith

or_false : (a b : Bool) → (a || b) ≡ false ↔ (a ≡ false) × (b ≡ false)
or_false true b = (λ h. cc, λ h. cc)
or_false false b = (λ h. (refl, h), λ h. h.1)

zero_code : (code : ℤ) → is_zero code ≡ true → code ≡ pos 0
zero_code (pos n) h = ap pos (eq_of_test n 0 h)
zero_code (negsuc n) h = cc

within : (m n : ℕ) → n ≤ m → ltb m n ≡ false
within m n h = ground arith

plan_completed-IsReturned :
    (o : Option Completed) → (plan_completed o).scope ≡ "markdown" → IsReturned o
unfolding plan_completed
plan_completed-IsReturned none h = absurd cc
plan_completed-IsReturned (some c) h =
    let both = passed _ _ _ h in
    let fits = (or_false (not (is_zero c.returncode)) _).0 both.0 in
    record {
      raw = c.stdout;
      returned =
          ap (λ code. some (record { returncode = code; stdout = c.stdout }))
            (zero_code c.returncode (true_of_not fits.0));
      bounded = not-ltb max_diff_bytes (length c.stdout) fits.1;
      planned = both.1;
    }

-- The guards before Git runs.
compared :
    (git : String → String → Option Completed) (event : String) (base head : Option String)
    → (plan_changes git event base head).scope ≡ "markdown"
    → (r : IsReturned (git (text_of base) (text_of head))) × IsCompared git event base head r.raw
unfolding plan_changes
compared git event base head h =
    let (h1, k1) = passed _ _ _ h in
    let (h2, k2) = passed _ _ _ k1 in
    let (h3, k3) = passed _ _ _ k2 in
    let (h4, k4) = passed _ _ _ k3 in
    let (h5, k5) = passed _ _ _ k4 in
    let (h6, k6) = passed _ _ _ k5 in
    let r = plan_completed-IsReturned (git (text_of base) (text_of head)) k6 in
    (
      r,
      record {
        base_commit = text_of base;
        head_commit = text_of head;
        pull_request = eq_of_test event "pull_request" (true_of_not h1);
        base_given = given base h2;
        head_given = given head h4;
        base_full = true_of_not h3;
        head_full = true_of_not h5;
        distinct = h6;
        returned = r.returned;
        bounded = r.bounded;
      },
    )

no_hex : is_hex 40 "" ≢ true
unfolding nat_eq
no_hex h = cc

differ : (s t : String) → s ≢ t → (s == t) ≡ false
differ s t h = ground arith

nonempty : (o : Option String) (s : String) → o ≡ some s → is_hex 40 s ≡ true → is_empty o ≡ false
nonempty o s e h = ap is_empty e ∙ differ s "" (λ k. no_hex (subst (λ t. is_hex 40 t ≡ true) k h))

reached :
    (git : String → String → Option Completed) (event : String) (base head : Option String)
    (raw : Bytes)
    → IsCompared git event base head raw
    → plan_changes git event base head ≡ plan_parsed (parse_raw_diff raw)
unfolding plan_changes plan_completed nat_eq
reached git event base head raw c =
    let base_text : text_of base ≡ c.base_commit = ap text_of c.base_given in
    let head_text : text_of head ≡ c.head_commit = ap text_of c.head_given in
    under "event_not_pull_request" (
      ap not (
        subst (λ e. (e == "pull_request") ≡ true) (sym c.pull_request)
          (test_refl {A = String} "pull_request")))
    ∙ (under "missing_base" (nonempty base c.base_commit c.base_given c.base_full)
        ∙ (under "invalid_base"
              (ap not (subst (λ t. is_hex 40 t ≡ true) (sym base_text) c.base_full))
            ∙ (under "missing_head" (nonempty head c.head_commit c.head_given c.head_full)
                ∙ (under "invalid_head"
                      (ap not (subst (λ t. is_hex 40 t ≡ true) (sym head_text) c.head_full))
                    ∙ (under "identical_refs" (ap₂ (λ b h. b == h) base_text head_text ∙ c.distinct)
                        ∙ (ap₂ (λ b h. plan_completed (git b h)) base_text head_text
                            ∙ (ap plan_completed c.returned
                                ∙ under "git_error"
                                    (within max_diff_bytes (length raw) c.bounded))))))))

map_nonempty : (es : List Entry) → es ≢ [] → map change_of es ≢ []
map_nonempty [] h = absurd (h refl)
map_nonempty (e ∷ es) h = λ k. cc

-- The scope is Markdown if and only if the event is a pull request between two different commits
-- and Git returned the raw diff, within the bound, of at least one entry, each of which has one
-- path, is not a rename or a copy, and adds, modifies or deletes a regular `.md` file at a safe
-- path.
pub plan_changes_iff :
    (git : String → String → Option Completed) (event : String) (base head : Option String)
    → (plan_changes git event base head).scope ≡ "markdown"
      ↔ (es : List Entry) × IsCompared git event base head (render es)
        × (es ≢ [])
        × All IsEntry es
        × All IsMarkdown (map change_of es)
plan_changes_iff git event base head = (
  λ h.
      let c = compared git event base head h in
      let d = plan_parsed-IsMarkdownDiff (parse_raw_diff c.0.raw) c.0.planned in
      let e = parse_raw_diff_sound c.0.raw d.changes d.reads in
      (
        e.0,
        subst (IsCompared git event base head) e.2 c.1,
        (λ n. d.nonempty (e.3 ∙ ap (map change_of) n)),
        e.1,
        subst (All IsMarkdown) e.3 d.all_markdown,
      ),
  λ s.
      ap (λ (p : Plan). p.scope) (reached git event base head (render s.0) s.1)
      ∙ (ap (λ p. (plan_parsed p).scope) (parse_raw_diff-render s.0 s.3)
          ∙ plan_parsed-markdown (map change_of s.0) (map_nonempty s.0 s.2) s.4),
)
