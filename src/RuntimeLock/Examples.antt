-- ===== src/RuntimeLock/Examples.antt =====
-- Runs of validate_lock.
use aros_toolchains.Prelude.{
  String, [], ◌∷◌, ok, raise, lock_error, ◌<>◌, string_eq, nat_eq, ◌≡◌, refl,
}
use aros_toolchains.Json.{Value, int, pos, str, object}
use aros_toolchains.RuntimeLock.{Object, validate_lock}
use aros_toolchains.RuntimeLock.Accepted.{IsLocked, validate_lock-IsLocked}

abbrev pub head : String
head = "0123456789abcdef0123456789abcdef01234567"

abbrev pub digest : String
digest = "0123456789abcdef0123456789abcdef0123456789abcdef0123456789abcdef"

abbrev pub asset : String → Value
asset name = object (("name", str name) ∷ ("sha256", str digest) ∷ ("size", int (pos 9)) ∷ [])

abbrev pub archive : String → String
archive target = "aros-tools-v1.2.0-" <> target <> ".tar.gz"

abbrev pub host : String → Value
host target = object (
    ("target", str target)
    ∷ ("archive", asset (archive target))
    ∷ ("manifest", asset (archive target <> ".manifest.json"))
    ∷ ("archive_bundle", asset (archive target <> ".sigstore.json"))
    ∷ ("manifest_bundle", asset (archive target <> ".manifest.json.sigstore.json"))
    ∷ [])

abbrev pub members : Object
members =
    (("schema", str "aros-tools-runtime-v1")
      ∷ ("repository", str "metaneutrons/aros-tools")
      ∷ ("release_id", int (pos 77))
      ∷ ("version", str "1.2.0")
      ∷ ("tag", str "v1.2.0")
      ∷ ("tag_object", str head)
      ∷ ("source_commit", str head)
      ∷ ("source_tree", str head)
      ∷ ("source_date_epoch", int (pos 1700000000))
      ∷ ("signer_workflow", str "metaneutrons/aros-tools/.github/workflows/release.yml")
      ∷ (
        "certificate_identity",
        str
            "https://github.com/metaneutrons/aros-tools/.github/workflows/release.yml@refs/tags/v1.2.0",
      )
      ∷ ("certificate_oidc_issuer", str "https://token.actions.githubusercontent.com")
      ∷ (
        "hosts",
        object (
            ("linux-x86_64", host "x86_64-unknown-linux-gnu")
            ∷ ("linux-aarch64", host "aarch64-unknown-linux-gnu")
            ∷ ("macos-aarch64", host "aarch64-apple-darwin")
            ∷ []),
      )
      ∷ [])

abbrev pub lock : Value
lock = object members

lock_accepted : validate_lock lock ≡ ok members
unfolding validate_lock string_eq nat_eq
lock_accepted = refl

validate_lock-IsLocked_example : IsLocked members
validate_lock-IsLocked_example = validate_lock-IsLocked lock members lock_accepted

-- The tag of another version.
other_refused :
    validate_lock (object (("tag", str "v1.2.1") ∷ members))
    ≡ raise (lock_error "runtime lock tag must be the exact vVERSION tag")
unfolding validate_lock string_eq nat_eq
other_refused = refl
