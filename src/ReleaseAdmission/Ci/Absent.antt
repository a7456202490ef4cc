-- ===== src/ReleaseAdmission/Ci/Absent.antt =====
-- What was answered where no tag and no release of the name was found.
use aros_toolchains.Prelude.{
  ℕ, suc, String, Bool, true, false, ◌||◌, not, List, [], ◌∷◌, Option, ok, ◌<>◌, any, All,
  ok-injective, ◌≡◌, refl, ap, arith,
}
use aros_toolchains.Json.{Value, is_null}
use aros_toolchains.ReleaseAdmission.Checks.{Object, own_repository}
use aros_toolchains.ReleaseAdmission.Session.{
  World, next-ok, answered, failed, Reply, read_reply, is_status_404,
}
use aros_toolchains.ReleaseAdmission.Session.Returned.{api-ok}
use aros_toolchains.ReleaseAdmission.Pages.{paginated, plain}
use aros_toolchains.ReleaseAdmission.Ci.{has_tag, if_absent, no_candidate_tag_or_release}

abbrev pub tag_path : String → String
tag_path tag = "repos/" <> own_repository <> "/git/ref/tags/" <> tag

-- The answer is a failure with the status 404, or null.
pub data IsMissing : Reply → Type 0 where
  not_found : (status : Option String) → is_status_404 status ≡ true → IsMissing (failed status)
  null_answer : IsMissing (answered Value.null)

-- The tag is not there, and none of the releases that are listed has it.
pub record IsAbsent (w : World) (n : ℕ) (tag : String) : Type 0 where
  pub missing : IsMissing (w.reply n (tag_path tag))
  pub releases : List Object
  pub later : ℕ
  pub listed :
      paginated (plain ("repos/" <> own_repository <> "/releases")) w (suc n) ≡ ok (releases, later)
  pub untagged : All (λ release. has_tag tag release ≡ false) releases

read-IsMissing :
    (r : Reply) (path : String) (v : Value)
    → read_reply r true path ≡ ok v
    → is_null v ≡ true
    → IsMissing r
read-IsMissing (answered Value.null) path v h e = null_answer
read-IsMissing (answered (Value.bool b)) path v h e = ground (arith)
read-IsMissing (answered (Value.int z)) path v h e = ground (arith)
read-IsMissing (answered (Value.float t)) path v h e = ground (arith)
read-IsMissing (answered (Value.str s)) path v h e = ground (arith)
read-IsMissing (answered (Value.arr vs)) path v h e = ground (arith)
read-IsMissing (answered (Value.obj fs)) path v h e = ground (arith)
read-IsMissing (failed status) path v h e = not_found status (ground (arith, h))

none_tagged :
    (tag : String) (releases : List Object)
    → any (has_tag tag) releases ≡ false
    → All (λ release. has_tag tag release ≡ false) releases
none_tagged tag [] h = tt
none_tagged tag (release ∷ releases) h =
    let r = split (has_tag tag release) (any (has_tag tag) releases) h in
    (r.0, none_tagged tag releases r.1)
  where
    split : (a b : Bool) → (a || b) ≡ false → (a ≡ false) × (b ≡ false)
    split a b h = ground arith

negated : (b : Bool) → not b ≡ true → b ≡ false
negated b h = ground arith

if_absent-IsAbsent :
    (b : Bool) (tag : String) (w : World) (n m : ℕ)
    → if_absent b tag w n ≡ ok (true, m)
    → (b ≡ true)
      × (releases : List Object) × (later : ℕ) × (paginated
            (plain ("repos/" <> own_repository <> "/releases"))
            w
            n
          ≡ ok (releases, later))
      × All (λ release. has_tag tag release ≡ false) releases
if_absent-IsAbsent false tag w n m h = cc
if_absent-IsAbsent true tag w n m h =
    next-ok (paginated (plain ("repos/" <> own_repository <> "/releases")) w n) _ h
      λ releases later listed h1. (
        refl,
        releases,
        later,
        listed,
        none_tagged tag releases
            (negated (any (has_tag tag) releases) (ap (λ t. t.0) (ok-injective h1))),
      )

pub no_candidate_tag_or_release-IsAbsent :
    (w : World) (n m : ℕ) (tag : String)
    → no_candidate_tag_or_release tag w n ≡ ok (true, m)
    → IsAbsent w n tag
unfolding no_candidate_tag_or_release
no_candidate_tag_or_release-IsAbsent w n m tag h =
    api-ok (tag_path tag) true false w n _ h λ ref replied h1.
      let (absent, releases, later, listed, untagged) =
        if_absent-IsAbsent (is_null ref) tag w (suc n) m h1 in
      record {
        missing = read-IsMissing (w.reply n (tag_path tag)) (tag_path tag) ref replied absent;
        releases = releases;
        later = later;
        listed = listed;
        untagged = untagged;
      }
