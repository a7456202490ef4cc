-- ===== src/RuntimeLock.antt =====
-- scripts/toolchain/materialize-aros-tools-runtime.py: validate_lock, the check of the lock of a
-- released runtime.
pub mod Accepted
pub mod Examples
use Prim.Native.Char.{code}
use aros_toolchains.Prelude.{
  ℕ, zero, suc, ◌+◌, String, Bool, true, false, ◌&&◌, ◌||◌, not, if◌then◌else◌, List, [], ◌∷◌,
  Result, ok, raise, lock_error, type_error, require, fold, ◌>>=◌, ◌>>◌, ◌==◌, ◌<>◌, string_eq,
  nat_eq, contains, Dict, ltb, Option, none, some,
}
use aros_toolchains.Json.{
  Value, bool, int, pos, str, as_str, as_list, as_dict, is_str, item, or_raise, has_exactly,
}
use aros_toolchains.Text.{char_count, all_chars, is_lower_hex, any_char, one_of}

-- `HOST_TARGETS`
abbrev pub host_targets : List (String × String)
host_targets =
    ("linux-x86_64", "x86_64-unknown-linux-gnu")
    ∷ ("linux-aarch64", "aarch64-unknown-linux-gnu")
    ∷ ("macos-aarch64", "aarch64-apple-darwin")
    ∷ []

abbrev pub asset_fields : List String
asset_fields = "name" ∷ "sha256" ∷ "size" ∷ []

abbrev pub lock_fields : List String
lock_fields =
    "schema" ∷ "repository" ∷ "release_id" ∷ "version" ∷ "tag" ∷ "tag_object" ∷ "source_commit"
    ∷ "source_tree" ∷ "source_date_epoch" ∷ "signer_workflow" ∷ "certificate_identity"
    ∷ "certificate_oidc_issuer" ∷ "hosts" ∷ []

abbrev pub host_fields : List String
host_fields = "target" ∷ "archive" ∷ "manifest" ∷ "archive_bundle" ∷ "manifest_bundle" ∷ []

abbrev pub Object : Type 0
Object = Dict String Value

-- The message of the source also names the fields that it got.
unfoldable pub require_exact_keys : Value → List String → String → Result Object
require_exact_keys value expected label = do
  top ← or_raise (as_dict value) (lock_error (label <> " must contain exactly the expected fields"))
  require (has_exactly expected top)
      (lock_error (label <> " must contain exactly the expected fields"))
  ok top

abbrev pub is_lower_hex_text : ℕ → Value → Bool
is_lower_hex_text n (str s) = char_count s == n && all_chars is_lower_hex s
is_lower_hex_text n _ = false

unfoldable pub require_hex : Value → ℕ → String → Result (Unit {0})
require_hex value length label =
    require (is_lower_hex_text length value)
      (lock_error (label <> " must be lowercase hexadecimal"))

abbrev pub is_basename : Value → Bool
is_basename (str s) =
    ltb 0 (char_count s) && not (any_char (one_of "/\\") s) && not (s == "." || s == "..")
is_basename _ = false

-- `isinstance(value, int) and value > 0`: a Boolean is an int, and True is 1.
abbrev pub is_positive_int : Value → Bool
is_positive_int (int (pos n)) = ltb 0 n
is_positive_int (bool b) = b
is_positive_int _ = false

-- The same where a Boolean is refused.
abbrev pub is_positive_size : Value → Bool
is_positive_size (int (pos n)) = ltb 0 n
is_positive_size _ = false

unfoldable pub validate_asset : Value → String → Result Object
unfolding require_exact_keys require_hex
validate_asset value label = do
  asset ← require_exact_keys value asset_fields label
  name ← item asset "name"
  require (is_basename name) (lock_error (label <> ".name must be a non-empty basename"))
  sha256 ← item asset "sha256"
  require_hex sha256 64 (label <> ".sha256")
  size ← item asset "size"
  require (is_positive_size size) (lock_error (label <> ".size must be a positive integer"))
  ok asset

-- `text.count(c)`
abbrev pub count_char : ℕ → String → ℕ
count_char c String.[] = zero
count_char c (String.◌∷◌ d s) = let rest = count_char c s in if code d == c then suc rest else rest

abbrev pub is_repository : String → Bool
is_repository s = count_char b'/' s == 1

-- The part of the lock that later checks read.
pub record Release : Type 0 where
  pub repository : String
  pub version : String
  pub tag : String

-- The text of a value; a value of another type was refused before it is read as one.
abbrev pub text_of : Value → String → Result String
text_of value message = or_raise (as_str value) (lock_error message)

unfoldable pub expected_workflow : String → String
expected_workflow repository = repository <> "/.github/workflows/release.yml"

unfoldable pub expected_identity : String → String → String
unfolding expected_workflow
expected_identity repository tag =
    "https://github.com/" <> expected_workflow repository <> "@refs/tags/" <> tag

abbrev pub issuer : String
issuer = "https://token.actions.githubusercontent.com"

-- The checks before the hosts.
unfoldable pub check_release : Object → Result Release
unfolding require_hex expected_workflow expected_identity
check_release top = do
  schema ← item top "schema"
  require (is_str schema "aros-tools-runtime-v1") (lock_error "unsupported runtime lock schema")
  repository_value ← item top "repository"
  repository ← text_of repository_value "runtime lock repository must be an OWNER/REPO name"
  require (is_repository repository)
      (lock_error "runtime lock repository must be an OWNER/REPO name")
  release_id ← item top "release_id"
  require (is_positive_int release_id)
      (lock_error "runtime lock release_id must be a positive integer")
  version_value ← item top "version"
  version ← text_of version_value "runtime lock version must be non-empty"
  require (ltb 0 (char_count version)) (lock_error "runtime lock version must be non-empty")
  tag ← item top "tag"
  require (is_str tag ("v" <> version))
      (lock_error "runtime lock tag must be the exact vVERSION tag")
  tag_object ← item top "tag_object"
  require_hex tag_object 40 "runtime lock tag_object"
  source_commit ← item top "source_commit"
  require_hex source_commit 40 "runtime lock source_commit"
  source_tree ← item top "source_tree"
  require_hex source_tree 40 "runtime lock source_tree"
  epoch ← item top "source_date_epoch"
  require (is_positive_int epoch)
      (lock_error "runtime lock source_date_epoch must be a positive integer")
  signer ← item top "signer_workflow"
  require (is_str signer (expected_workflow repository))
      (lock_error "runtime lock signer_workflow must be its canonical release workflow")
  identity ← item top "certificate_identity"
  require (is_str identity (expected_identity repository ("v" <> version)))
      (lock_error "runtime lock certificate_identity must bind the exact release tag")
  oidc ← item top "certificate_oidc_issuer"
  require (is_str oidc issuer)
      (lock_error "runtime lock certificate_oidc_issuer must be GitHub Actions")
  ok (record { repository = repository; version = version; tag = "v" <> version })

-- `asset["name"]` of a value that was not checked
unfoldable pub name_in : Object → String → Result String
name_in entry field = do
  value ← item entry field
  asset ← or_raise (as_dict value) type_error
  name ← item asset "name"
  or_raise (as_str name) type_error

-- One round of the loop over the four assets of a host.
unfoldable pub add_asset : Object → String → List String → String → Result (List String)
unfolding validate_asset
add_asset entry host seen_names field = do
  value ← item entry field
  asset ← validate_asset value (host <> "." <> field)
  name_value ← item asset "name"
  name ← text_of name_value "runtime lock reuses asset name"
  require (not (contains seen_names name)) (lock_error ("runtime lock reuses asset name " <> name))
  ok (name ∷ seen_names)

abbrev pub asset_kinds : List String
asset_kinds = "archive" ∷ "manifest" ∷ "archive_bundle" ∷ "manifest_bundle" ∷ []

unfoldable pub archive_name : String → String → String
archive_name tag target = "aros-tools-" <> tag <> "-" <> target <> ".tar.gz"

-- What the assets of a host are called.
unfoldable pub check_names : Object → String → String → String → Result (Unit {0})
unfolding name_in archive_name
check_names entry host tag target = do
  archive ← name_in entry "archive"
  require (archive == archive_name tag target)
      (lock_error ("runtime lock " <> host <> " archive does not match version and target"))
  manifest ← name_in entry "manifest"
  require (manifest == archive <> ".manifest.json")
      (lock_error ("runtime lock " <> host <> " manifest name is not archive-bound"))
  archive_bundle ← name_in entry "archive_bundle"
  require (archive_bundle == archive <> ".sigstore.json")
      (lock_error ("runtime lock " <> host <> " archive bundle name is not archive-bound"))
  manifest_bundle ← name_in entry "manifest_bundle"
  require (manifest_bundle == archive <> ".manifest.json.sigstore.json")
      (lock_error ("runtime lock " <> host <> " manifest bundle name is not manifest-bound"))

-- One round of the loop over the hosts.
unfoldable pub add_host : Object → String → List String → String × String → Result (List String)
unfolding require_exact_keys add_asset check_names
add_host hosts tag seen_names (host, target) = do
  value ← item hosts host
  entry ← require_exact_keys value host_fields host
  found ← item entry "target"
  require (is_str found target)
      (lock_error ("runtime lock " <> host <> " target must be " <> target))
  seen ← fold (add_asset entry host) seen_names asset_kinds
  check_names entry host tag target
  ok seen

abbrev pub host_names : List String
host_names = "linux-x86_64" ∷ "linux-aarch64" ∷ "macos-aarch64" ∷ []

unfoldable pub validate_lock : Value → Result Object
unfolding require_exact_keys check_release add_host
validate_lock value = do
  top ← require_exact_keys value lock_fields "runtime lock"
  release ← check_release top
  hosts_value ← item top "hosts"
  hosts ← or_raise (as_dict hosts_value) (lock_error "runtime lock hosts are not those expected")
  require (has_exactly host_names hosts) (lock_error "runtime lock hosts are not those expected")
  seen ← fold (add_host hosts release.tag) [] host_targets
  ok top
