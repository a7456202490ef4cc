-- ===== src/ReleaseAdmission/Session.antt =====
-- What the admission reads: the checkout, the environment, the clock and the answers of the
-- provider, each to one request after the other. A computation that reads them carries the number
-- of requests sent so far; an exception ends it.
pub mod Returned
use aros_toolchains.Prelude.{
  ℕ, suc, ◌+◌, String, Bool, true, false, ◌&&◌, ◌||◌, not, if◌then◌else◌, List, [], ◌∷◌, Option,
  none, some, Exception, Result, ok, raise, admission_error, require, refuse, ◌==◌, ◌<>◌, string_eq,
  nat_eq, contains, any, ltb, leb, length, ◌≡◌, refl,
}
use aros_toolchains.Prelude as P
use aros_toolchains.Json.{ℤ, Value, null, or_raise}
use aros_toolchains.Text.{starts_with, strip_prefix, first_char, all_chars, is_digit, between}
use aros_toolchains.Text.Split.{split}
use aros_toolchains.ReleaseAdmission.Checks.{
  own_repository, runtime_repository, max_local_input_bytes,
}

-- An answer to a request: the parsed document, or a failure with the HTTP status that the client
-- reported, if it did. A response that is empty or invalid JSON is a failure with no status.
pub data Reply : Type 0 where
  answered : Value → Reply
  failed : Option String → Reply

pub record World : Type 0 where
  -- `git rev-parse HEAD` stripped, both `git diff --quiet`, and `git show HEAD:path`
  pub head : String
  pub is_clean : Bool
  pub show : String → Option (List ℕ)
  -- GITHUB_REPOSITORY, GITHUB_REF, GITHUB_EVENT_NAME and the event's file
  pub repository : String
  pub ref : String
  pub event_name : String
  pub event_file : Option (List ℕ)
  -- UTF-8, the JSON parser with its hooks, SHA-256, the parser of dates
  pub decode : List ℕ → Option String
  pub loads : String → Option Value
  pub sha256 : List ℕ → String
  pub timestamp : String → Option ℤ
  -- the answer to the request of this number, a GET of a path or the query of a ruleset's node
  pub reply : ℕ → String → Reply
  pub reply_bypass : ℕ → String → Reply
  -- `int(time.time())` when so many requests were sent
  pub now : ℕ → ℕ

abbrev pub Session {ℓ} : Type ℓ → Type ℓ
Session A = World → ℕ → Result (A × ℕ)

abbrev pub pure {ℓ} : {A : Type ℓ} → A → Session A
pure a w n = ok (a, n)

abbrev pub lift {ℓ} : {A : Type ℓ} → Result A → Session A
lift (ok a) w n = ok (a, n)
lift (raise e) w n = raise e

abbrev pub next {ℓ κ} :
    {A : Type ℓ} {B : Type κ} → Result (A × ℕ) → (A → ℕ → Result (B × ℕ)) → Result (B × ℕ)
next (raise e) f = raise e
next (ok (a, n)) f = f a n

module _ {ℓ κ} {A : Type ℓ} {B : Type κ} where
  infixl 10 ◌>>=◌ ◌>>◌
  abbrev pub ◌>>=◌ : Session A → (A → Session B) → Session B
  ◌>>=◌ m f w n = next (m w n) (λ a k. f a w k)

  abbrev pub ◌>>◌ : Session A → Session B → Session B
  ◌>>◌ m k = m >>= λ _. k

-- `require(...)` and `if ...: fail(...)`
abbrev pub hold : Bool → String → Session (Unit {0})
hold test message = lift (require test (admission_error message))

abbrev pub fail_if : Bool → String → Session (Unit {0})
fail_if test message = lift (refuse test (admission_error message))

abbrev pub fail {ℓ} : {A : Type ℓ} → String → Session A
fail message w n = raise (admission_error message)

abbrev pub ask {ℓ} : {A : Type ℓ} → (World → A) → Session A
ask read w n = ok (read w, n)

-- `[f(x) for x in xs]`
abbrev pub each {ℓ κ} : {A : Type ℓ} {B : Type κ} → (A → Session B) → List A → Session (List B)
each f [] = pure []
each f (x ∷ xs) = f x >>= λ y. each f xs >>= λ ys. pure (y ∷ ys)

-- `try: ... except Exception: fail(message)`
abbrev pub otherwise {ℓ} : {A : Type ℓ} → Result A → String → Result A
otherwise (ok a) message = ok a
otherwise (raise e) message = raise (admission_error message)

abbrev pub attempt {ℓ} : {A : Type ℓ} → Session A → String → Session A
attempt m message w n = otherwise (m w n) message

-- A session that returned: its first step did, and so did the rest.
module _ {ℓ κ μ} {A : Type ℓ} {B : Type κ} {P : Type μ} where
  pub next-ok :
      (m : Result (A × ℕ)) (f : A → ℕ → Result (B × ℕ)) {b : B × ℕ}
      → next m f ≡ ok b
      → ((a : A) (k : ℕ) → m ≡ ok (a, k) → f a k ≡ ok b → P)
      → P
  next-ok (raise e) f h k = cc
  next-ok (ok (a, n)) f h k = k a n refl h

-- `len(encoded) > maximum`, the decoder and the parser
unfoldable pub parse_json : List ℕ → String → ℕ → Session Value
parse_json raw label maximum w n =
    if ltb maximum (length raw)
    then raise (admission_error (label <> " exceeds the metadata size limit"))
    else elim (w.decode raw) [
      | none ↦ raise (admission_error (label <> " is invalid JSON"))
      | some text ↦ elim (w.loads text) [
        | none ↦ raise (admission_error (label <> " is invalid JSON"))
        | some value ↦ ok (value, n)
      ]
    ]

unfoldable pub committed_input : String → Session (List ℕ)
committed_input path w n = elim (w.show path) [
  | none ↦ raise (admission_error "local Git metadata command failed")
  | some contents ↦
      if ltb max_local_input_bytes (length contents)
      then raise (admission_error ("committed input exceeds the metadata size limit: " <> path))
      else ok (contents, n)
]

-- `[1-9][0-9]*`
abbrev pub is_page_number : String → Bool
is_page_number s = first_char (between b'1' b'9') s && all_chars is_digit s

abbrev pub is_numbered : Option String → Bool
is_numbered none = false
is_numbered (some rest) = is_page_number rest

abbrev pub rulesets_path : String
rulesets_path = "repos/metaneutrons/aros-toolchains/rulesets"

abbrev pub is_governance_path : String → Bool
is_governance_path path =
    is_numbered
      (strip_prefix (rulesets_path <> "?includes_parents=true&targets=tag&per_page=100&page=") path)
    || is_numbered (strip_prefix (rulesets_path <> "/") path)

abbrev pub is_repository_path : String → Bool
is_repository_path path =
    (path == "repos/" <> own_repository
      || starts_with ("repos/" <> own_repository <> "/") path
      || starts_with ("repos/" <> runtime_repository <> "/") path)
    && not (contains (split "/" path) "..")

abbrev pub is_status_404 : Option String → Bool
is_status_404 none = false
is_status_404 (some status) = status == "404"

-- What the source makes of an answer.
abbrev pub read_reply : Reply → Bool → String → Result Value
read_reply (answered value) allow_404 path = ok value
read_reply (failed status) allow_404 path =
    if allow_404 && is_status_404 status
    then ok null
    else raise (admission_error ("GitHub GET failed for " <> path))

unfoldable pub send : String → Bool → Session Value
send path allow_404 w n = P.◌>>=◌ (read_reply (w.reply n path) allow_404 path) (λ v. ok (v, suc n))

unfoldable pub api : String → Bool → Bool → Session Value
unfolding send split
api path allow_404 governance = do
  hold (is_repository_path path) "GitHub metadata endpoint is outside the fixed repository"
  fail_if (governance && not (is_governance_path path))
      "governance metadata reads are restricted to tag ruleset endpoints"
  send path allow_404
