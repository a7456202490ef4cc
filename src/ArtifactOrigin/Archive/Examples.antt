-- ===== src/ArtifactOrigin/Archive/Examples.antt =====
-- Runs of verify_zip on a small archive.
use aros_toolchains.Prelude.{
  ℕ, String, List, [], ◌∷◌, none, some, ok, raise, origin_error, ◌<>◌, string_eq, list_eq, nat_eq,
  pair_eq, length, map, ◌≡◌, refl,
}
use aros_toolchains.Json.{Value, pos, int, str, object}
use aros_toolchains.Text.Bytes.{decimal}
use aros_toolchains.ArtifactOrigin.{kind_eq}
use aros_toolchains.ArtifactOrigin.Examples.{digest}
use aros_toolchains.ArtifactOrigin.Archive.{ZipMember, ZipArchive, verify_zip}
use aros_toolchains.ArtifactOrigin.Archive.Verified.{IsVerified, verify_zip-IsVerified}

abbrev zeros : String
zeros = "000000000000000000000000000000000000000000000000000000000000000"

-- A stand-in for SHA-256 of contents of less than ten bytes.
abbrev pub by_length : List ℕ → String
by_length content = zeros <> decimal (length content)

abbrev zip_member_of : String → List (List ℕ) → ℕ → ZipMember
zip_member_of name blocks size = record {
  filename = name;
  orig_filename = name;
  external_attr = 2175008768;
  flag_bits = 0;
  compress_type = 8;
  file_size = size;
  blocks = map ok blocks;
}

abbrev archive_of : List ZipMember → ZipArchive
archive_of members = record {
  before = ok (record { sha256 = digest; size = 300 });
  members = ok members;
  after = ok (record { sha256 = digest; size = 300 });
}

abbrev pub archive : ZipArchive
archive = archive_of (
    zip_member_of "bin/gcc" ((1 ∷ 2 ∷ []) ∷ (3 ∷ []) ∷ []) 3 ∷ zip_member_of "lib/crt0.o" [] 0 ∷ [])

abbrev entry : ℕ → Value
entry size = object (("sha256", str (zeros <> decimal size)) ∷ ("size", int (pos size)) ∷ [])

abbrev pub files : Value
files = object (("lib/crt0.o", entry 0) ∷ ("bin/gcc", entry 3) ∷ [])

archive_verified : verify_zip by_length archive files digest (some 300) ≡ ok tt
unfolding verify_zip string_eq nat_eq list_eq pair_eq kind_eq decimal
archive_verified = refl

-- One name twice.
repeated_refused :
    verify_zip by_length
      (archive_of (zip_member_of "lib/crt0.o" [] 0 ∷ zip_member_of "lib/crt0.o" [] 0 ∷ []))
      files
      digest
      none
    ≡ raise (origin_error "ZIP contains a duplicate or unselected member")
unfolding verify_zip string_eq nat_eq list_eq pair_eq kind_eq decimal
repeated_refused = refl

verify_zip-IsVerified_example : IsVerified by_length archive files digest (some 300)
verify_zip-IsVerified_example =
    verify_zip-IsVerified by_length archive files digest (some 300) archive_verified
