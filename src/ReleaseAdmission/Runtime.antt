-- ===== src/ReleaseAdmission/Runtime.antt =====
-- `_require_runtime` of release-admission-v2.py: the released runtime that the lock names, and
-- require_main and require_active_repository.
pub mod Main
use aros_toolchains.Prelude.{
  ℕ, String, Bool, true, false, ◌&&◌, ◌||◌, not, if◌then◌else◌, List, [], ◌∷◌, ◌++◌, Option, none,
  some, Result, ok, raise, admission_error, type_error, require, refuse, fold, ◌==◌, ◌<>◌,
  string_eq, nat_eq, contains, Dict, keys, lookup, insert, map, length, ltb,
}
use aros_toolchains.Prelude as P
use aros_toolchains.Json.{
  ℤ, pos, Value, str, int, get, is_str, is_true, is_false, as_dict, as_str, as_list, item, or_raise,
  has_exactly,
}
use aros_toolchains.Json.Canonical.{is_number}
use aros_toolchains.Text.{char_count}
use aros_toolchains.Text.Bytes.{decimal}
use aros_toolchains.ReleaseAdmission.Checks.{
  Object, own_repository, runtime_repository, is_oid, positive_number, positive_int,
  required_object,
}
use aros_toolchains.ReleaseAdmission.Session.{
  World, Session, ◌>>=◌, ◌>>◌, pure, lift, hold, fail, ask, api,
}

unfoldable pub require_main : String → Session Bool
unfolding api required_object
require_main head = do
  response ← api ("repos/" <> own_repository <> "/branches/main") false false
  branch ← lift (required_object response "main branch metadata")
  hold (is_true (get branch "protected")) "main is not protected"
  commit ← lift (
      or_raise (as_dict (get branch "commit"))
        (admission_error "provider main commit metadata is malformed"))
  sha ← lift (
      or_raise (as_str (get commit "sha"))
        (admission_error "provider main commit metadata is malformed"))
  hold (is_oid sha) "provider main commit metadata is malformed"
  pure (sha == head)

unfoldable pub require_active_repository : Session (Unit {0})
unfolding api required_object
require_active_repository = do
  response ← api ("repos/" <> own_repository) false false
  repository ← lift (required_object response "repository metadata")
  hold (is_str (get repository "full_name") own_repository)
      "provider repository identity differs from the fixed repository"
  hold (is_false (get repository "archived"))
      "provider repository archived flag is not explicitly false"
  hold (is_false (get repository "disabled"))
      "provider repository disabled flag is not explicitly false"
  hold (is_str (get repository "default_branch") "main")
      "provider repository default branch is not main"

-- `lock[key]` of a validated lock: a text, a positive number, an object
abbrev pub text_item : Object → String → Result String
text_item lock key = P.◌>>=◌ (item lock key) (λ v. or_raise (as_str v) type_error)

abbrev pub number_item : Object → String → Result ℕ
number_item lock key = P.◌>>=◌ (item lock key) (λ v. or_raise (positive_number v) type_error)

abbrev pub object_item : Object → String → Result Object
object_item lock key = P.◌>>=◌ (item lock key) (λ v. or_raise (as_dict v) type_error)

abbrev pub Assets : Type 0
Assets = Dict String Object

-- One asset of a host, by its name.
unfoldable pub lock_asset : Object → Assets → String → Result Assets
lock_asset host assets kind =
    P.◌>>=◌ (object_item host kind)
      (λ asset. P.◌>>=◌ (text_item asset "name") (λ name. ok (insert name asset assets)))

unfoldable pub lock_host : Assets → String × Value → Result Assets
unfolding lock_asset
lock_host assets (key, value) = P.◌>>=◌ (or_raise (as_dict value) type_error) (λ host.
    fold (lock_asset host) assets
      ("archive" ∷ "manifest" ∷ "archive_bundle" ∷ "manifest_bundle" ∷ []))

-- `locked_assets`
unfoldable pub locked_assets : Object → Result Assets
unfolding lock_host
locked_assets lock = P.◌>>=◌ (object_item lock "hosts") (λ hosts. fold lock_host [] hosts)

-- The variables of the loop over the assets of the release.
pub record Found : Type 0 where
  pub actual : Assets
  pub ids : List ℕ
  pub names : List String

abbrev pub asset_name : Value → Option String
asset_name (str s) = if ltb 0 (char_count s) then some s else none
asset_name _ = none

-- The size and the digest of an asset are those that are locked.
unfoldable pub check_locked : Object → Object → String → Result (Unit {0})
unfolding is_number
check_locked asset expected name =
    P.◌>>=◌
      (or_raise (positive_number (get asset "size"))
        (admission_error ("runtime release asset metadata differs for " <> name)))
      (λ size. P.◌>>=◌ (item expected "size") (λ expected_size.
        P.◌>>◌
          (require (is_number expected_size size)
            (admission_error ("runtime release asset metadata differs for " <> name)))
          (P.◌>>=◌ (text_item expected "sha256") (λ digest.
            require (is_str (get asset "digest") ("sha256:" <> digest))
              (admission_error ("runtime release asset metadata differs for " <> name))))))

abbrev pub add_locked : Option Object → String → Object → Assets → Result Assets
add_locked none name asset actual = ok actual
add_locked (some expected) name asset actual =
    P.◌>>◌
      (refuse (contains (keys actual) name)
        (admission_error "runtime release contains a duplicate locked asset"))
      (P.◌>>◌ (check_locked asset expected name) (ok (insert name asset actual)))

-- One round of the loop.
unfoldable pub add_asset : Assets → Found → Value → Result Found
unfolding required_object positive_int check_locked
add_asset locked s asset_value =
    P.◌>>=◌ (required_object asset_value "runtime release asset") (λ asset.
      P.◌>>=◌
        (or_raise (asset_name (get asset "name"))
          (admission_error "runtime release contains malformed or duplicate asset names"))
        (λ name.
          P.◌>>◌
            (refuse (contains s.names name)
              (admission_error "runtime release contains malformed or duplicate asset names"))
            (P.◌>>=◌ (positive_int (get asset "id") ("runtime asset " <> name <> " id")) (λ id.
              P.◌>>◌
                (refuse (contains s.ids id)
                  (admission_error "runtime release contains duplicate asset IDs"))
                (P.◌>>=◌ (add_locked (lookup name locked) name asset s.actual) (λ actual.
                  ok (record {
                    actual = actual;
                    ids = s.ids ++ id ∷ [];
                    names = s.names ++ name ∷ [];
                  })))))))

abbrev pub runtime_path : String → String
runtime_path rest = "repos/" <> runtime_repository <> rest

-- The release and its assets.
unfoldable pub require_release : Object → Session (Unit {0})
unfolding api required_object positive_int is_number locked_assets add_asset decimal
require_release lock = do
  release_id ← lift (number_item lock "release_id")
  response ← api (runtime_path ("/releases/" <> decimal release_id)) false false
  release ← lift (required_object response "runtime release metadata")
  id ← lift (positive_int (get release "id") "runtime release id")
  tag ← lift (text_item lock "tag")
  hold
      (id == release_id
        && is_str (get release "tag_name") tag
        && is_number (get release "draft") 0
        && is_number (get release "prerelease") 0
        && is_number (get release "immutable") 1)
      "runtime release identity differs from the committed lock"
  assets ← lift (
      or_raise (as_list (get release "assets"))
        (admission_error "runtime release assets are malformed"))
  locked ← lift (locked_assets lock)
  s ← lift (fold (add_asset locked) (record { actual = []; ids = []; names = [] }) assets)
  hold (has_exactly (keys locked) s.actual && length locked == 12)
      "runtime release does not expose all twelve locked assets"

-- An object with a type and an identity, as `ref.object` and `tag.object` are.
abbrev pub points_at : Option Object → String → String → Bool
points_at none kind sha = false
points_at (some target) kind sha = is_str (get target "type") kind && is_str (get target "sha") sha

abbrev pub has_sha : Option Object → String → Bool
has_sha none sha = false
has_sha (some tree) sha = is_str (get tree "sha") sha

-- The annotated tag and the commit that it names.
unfoldable pub require_tag : Object → Session (Unit {0})
unfolding api required_object
require_tag lock = do
  tag ← lift (text_item lock "tag")
  tag_object ← lift (text_item lock "tag_object")
  source_commit ← lift (text_item lock "source_commit")
  source_tree ← lift (text_item lock "source_tree")
  epoch ← lift (number_item lock "source_date_epoch")
  ref_response ← api (runtime_path ("/git/ref/tags/" <> tag)) false false
  ref ← lift (required_object ref_response "runtime tag ref")
  hold (points_at (as_dict (get ref "object")) "tag" tag_object)
      "runtime tag ref differs from the annotated object in the committed lock"
  tag_response ← api (runtime_path ("/git/tags/" <> tag_object)) false false
  annotated ← lift (required_object tag_response "runtime annotated tag")
  hold
      (is_str (get annotated "tag") tag
        && points_at (as_dict (get annotated "object")) "commit" source_commit)
      "runtime annotated tag target differs from the committed lock"
  commit_response ← api (runtime_path ("/git/commits/" <> source_commit)) false false
  commit ← lift (required_object commit_response "runtime source commit")
  hold
      (is_str (get commit "sha") source_commit && has_sha (as_dict (get commit "tree")) source_tree)
      "runtime source tree differs from the committed lock"
  committer ← lift (
      or_raise (as_dict (get commit "committer"))
        (admission_error "runtime source tree differs from the committed lock"))
  date ← lift (
      or_raise (as_str (get committer "date"))
        (admission_error "runtime source commit date is missing"))
  timestamp ← ask (λ w. w.timestamp)
  instant ←
      lift (or_raise (timestamp date) (admission_error "runtime source commit date is malformed"))
  hold (is_number (int instant) epoch) "runtime source commit epoch differs from the committed lock"

unfoldable pub require_runtime : Object → Session (Unit {0})
unfolding require_release require_tag
require_runtime lock = require_release lock >> require_tag lock
