-- ===== src/ReleaseAdmission/Pull.antt =====
-- `_candidate_pull` of release-admission-v2.py: the merged pull request of the release.
use aros_toolchains.Prelude.{
  ℕ, String, Bool, true, false, ◌&&◌, ◌||◌, not, if◌then◌else◌, List, [], ◌∷◌, ◌++◌, Option, none,
  some, Result, ok, raise, admission_error, type_error, for_each, traverse, fold, ◌==◌, ◌<>◌,
  string_eq, nat_eq, list_eq, contains, lookup, map, length, any, all,
}
use aros_toolchains.Prelude as P
use aros_toolchains.Json.{
  Value, str, arr, obj, get, is_str, as_dict, as_str, as_list, or_raise, elements,
}
use aros_toolchains.Sorted.{sorted_set}
use aros_toolchains.Text.Order.{string_ord}
use aros_toolchains.Text.Bytes.{decimal}
use aros_toolchains.ReleaseAdmission.Checks.{
  Object, own_repository, bot_logins, is_release_branch, positive_int, is_truthy, require_hashable,
}
use aros_toolchains.ReleaseAdmission.Session.{Session, ◌>>=◌, ◌>>◌, pure, lift, hold, fail}
use aros_toolchains.ReleaseAdmission.Inputs.{is_own}
use aros_toolchains.ReleaseAdmission.Pages.{Listing, paginated, plain}

-- `RELEASE_BRANCH.fullmatch(head.get("ref", ""))`, which takes a text
abbrev pub matches_branch : Option Value → Result Bool
matches_branch none = ok (is_release_branch "")
matches_branch (some (str s)) = ok (is_release_branch s)
matches_branch (some _) = raise type_error

-- The branch is asked only where the tests before it hold.
abbrev pub on_release_branch : Bool → Option Object → Result Bool
on_release_branch false pull_head = ok false
on_release_branch true none = ok false
on_release_branch true (some pull_head) = matches_branch (lookup "ref" pull_head)

abbrev pub has_base : Option Object → Bool
has_base none = false
has_base (some base) = is_str (get base "ref") "main"

unfoldable pub is_candidate : String → Object → Result Bool
unfolding is_truthy
is_candidate head pull =
    on_release_branch
      (is_str (get pull "merge_commit_sha") head
        && is_str (get pull "state") "closed"
        && is_truthy (get pull "merged_at")
        && has_base (as_dict (get pull "base")))
      (as_dict (get pull "head"))

-- `[x for x in xs if f(x)]` with a test that may raise
unfoldable pub select : (Object → Result Bool) → List Object → Result (List Object)
select f [] = ok []
select f (x ∷ xs) =
    P.◌>>=◌ (f x) (λ chosen. P.◌>>=◌ (select f xs) (λ rest. ok (if chosen then x ∷ rest else rest)))

abbrev pub pending : String
pending = "autorelease: pending"

-- `name in {label.get("name") for label in labels}`
unfoldable pub has_label : List Object → Result Bool
has_label labels =
    P.◌>>◌ (for_each (λ l. require_hashable (get l "name")) labels)
      (ok (any (λ l. is_str (get l "name") pending) labels))

-- The dicts among what `labels` iterates over: the members of a list; of a text and of a dict, none.
abbrev pub dicts_among : List Value → List Object
dicts_among [] = []
dicts_among (v ∷ vs) =
    let rest = dicts_among vs in elim (as_dict v) [ none ↦ rest | some d ↦ d ∷ rest ]

abbrev pub iterate_labels : Option Value → Result (List Object)
iterate_labels none = ok []
iterate_labels (some (arr vs)) = ok (dicts_among (elements vs))
iterate_labels (some (str s)) = ok []
iterate_labels (some (obj fs)) = ok []
iterate_labels (some _) = raise type_error

-- The labels are read only where the tests before them hold.
abbrev pub labelled : Bool → Object → Result Bool
labelled false item = ok false
labelled true item = P.◌>>=◌ (iterate_labels (lookup "labels" item)) has_label

unfoldable pub is_pending : Object → Result Bool
unfolding is_truthy has_label
is_pending item =
    P.◌>>=◌ (on_release_branch (is_truthy (get item "merged_at")) (as_dict (get item "head")))
      (λ merged. labelled merged item)

abbrev pub is_bot : Value → Bool
is_bot (str login) = contains bot_logins login
is_bot _ = false

-- Who made the pull request, between which repositories, and its title.
unfoldable pub check_identity : Object → String → Result (Unit {0})
check_identity pull version =
    P.◌>>=◌
      (or_raise (as_dict (get pull "user"))
        (admission_error "merged release pull request identity metadata is malformed"))
      (λ user.
        P.◌>>=◌
          (or_raise (as_dict (get pull "base"))
            (admission_error "merged release pull request identity metadata is malformed"))
          (λ base.
            P.◌>>=◌
              (or_raise (as_dict (get pull "head"))
                (admission_error "merged release pull request identity metadata is malformed"))
              (λ pull_head.
                P.◌>>=◌
                  (or_raise (as_dict (get base "repo")) (
                    admission_error "merged release pull request repository metadata is malformed"))
                  (λ base_repo.
                    P.◌>>=◌
                      (or_raise (as_dict (get pull_head "repo")) (
                        admission_error
                          "merged release pull request repository metadata is malformed"))
                      (λ head_repo. P.◌>>◌ (require_hashable (get user "login")) (
                        P.require
                          (is_bot (get user "login")
                            && is_own (some base_repo)
                            && is_own (some head_repo)
                            && is_str (get pull "title") ("chore(main): release " <> version))
                          (admission_error
                            "merged release pull request is not the exact same-repository Release Please App change")))))))

-- One file of the pull request.
unfoldable pub file_name : Object → Result String
file_name item =
    P.◌>>=◌
      (or_raise (as_str (get item "filename"))
        (admission_error "release pull request file metadata is malformed"))
      (λ filename.
        P.◌>>◌
          (P.require (is_str (get item "status") "modified")
            (admission_error "release pull request contains a non-modified file"))
          (ok filename))

abbrev pub release_files : List String
release_files = ".release-please-manifest.json" ∷ "version.txt" ∷ "CHANGELOG.md" ∷ []

-- `set(paths) == expected` of three paths that differ
unfoldable pub are_release_files : List String → Bool
unfolding sorted_set
are_release_files paths =
    length paths == length (sorted_set paths)
    && all (contains release_files) paths
    && all (contains paths) release_files
    && length paths == 3

abbrev pub files_of : ℕ → Listing
files_of number = record {
  endpoint = "repos/" <> own_repository <> "/pulls/" <> decimal number <> "/files";
  array_field = none;
  governance = false;
  identity_field = none;
}

-- The pull request is the bot's and changes the files of a release; its number, and whether it
-- waits for the release.
unfoldable pub check_pull : Object → String → Session (ℕ × Bool)
unfolding check_identity positive_int paginated file_name are_release_files has_label decimal
check_pull pull version = do
  lift (check_identity pull version)
  number ← lift (positive_int (get pull "number") "release pull request number")
  files ← paginated (files_of number)
  paths ← lift (traverse file_name files)
  hold (are_release_files paths)
      "release pull request must modify exactly the manifest, version.txt and changelog"
  values ← lift (
      or_raise (as_list (get pull "labels"))
        (admission_error "release pull request labels are malformed"))
  labels ← lift (
      traverse
        (λ v. or_raise (as_dict v) (admission_error "release pull request labels are malformed"))
        values)
  waits ← lift (has_label labels)
  pure (number, waits)

-- No other pull request waits.
unfoldable pub check_alone : ℕ → Session (Unit {0})
unfolding paginated select is_pending positive_int
check_alone number = do
  closed ← paginated (plain ("repos/" <> own_repository <> "/pulls?state=closed&base=main"))
  waiting ← lift (select is_pending closed)
  numbers ← lift (
      traverse (λ item. positive_int (get item "number") "pending release pull request number")
        waiting)
  hold (numbers == number ∷ []) "another merged pending Release Please PR exists"

abbrev pub if_waiting : Bool → ℕ → Session (Option ℕ)
if_waiting false number = pure none
if_waiting true number = check_alone number >> pure (some number)

unfoldable pub accept_pull : Object → String → Session (Option ℕ)
unfolding check_pull check_alone
accept_pull pull version = do (number, waits) ← check_pull pull version; if_waiting waits number

abbrev pub the_candidate : List Object → String → Session (Option ℕ)
the_candidate [] version = pure none
the_candidate (pull ∷ []) version = accept_pull pull version
the_candidate (pull ∷ other ∷ more) version =
    fail "release merge has ambiguous pull request identity"

-- The number of the pull request, which is all that the caller reads of it.
unfoldable pub candidate_pull : String → String → Session (Option ℕ)
unfolding paginated select is_candidate accept_pull
candidate_pull head version = do
  pulls ← paginated (plain ("repos/" <> own_repository <> "/commits/" <> head <> "/pulls"))
  candidates ← lift (select (is_candidate head) pulls)
  the_candidate candidates version
