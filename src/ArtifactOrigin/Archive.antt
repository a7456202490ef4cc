-- ===== src/ArtifactOrigin/Archive.antt =====
-- `verify_zip` of scripts/toolchain/artifact-origin.py: the members of a downloaded archive against
-- the files that were signed.
pub mod Signed
pub mod Verified
pub mod Examples
use Prim.Native.Nat.{◌/◌, ◌%◌}
use aros_toolchains.Prelude.{
  ℕ, ◌+◌, String, Bool, true, false, ◌&&◌, ◌||◌, not, List, [], ◌∷◌, ◌++◌, Option, none, some,
  Result, ok, raise, origin_error, require, fold, ◌>>=◌, ◌>>◌, ◌==◌, string_eq, nat_eq, contains,
  Dict, keys, length, leb,
}
use aros_toolchains.Json.{
  Value, int, pos, str, as_dict, as_str, as_nat, has_exactly, item, or_raise,
}
use aros_toolchains.Text.{any_char, last_char, is_hex}
use aros_toolchains.ArtifactOrigin.{portable_path, require_portable_inventory}
use aros_toolchains.ArtifactOrigin.Provider.{max_payload}

-- What `normalized_file` says of a file.
pub record Measurement : Type 0 where
  pub sha256 : String
  pub size : ℕ

abbrev pub same_measurement : Measurement → Measurement → Bool
same_measurement m n = m.sha256 == n.sha256 && m.size == n.size

-- `exact_keys`
unfoldable pub exact_keys : Value → List String → Result (Dict String Value)
exact_keys value names = do
  entry ← or_raise (as_dict value) (origin_error "origin metadata has unexpected fields")
  require (has_exactly names entry) (origin_error "origin metadata has unexpected fields")
  ok entry

-- A member as `zipfile` reports it, and the blocks that its reads return or raise.
pub record ZipMember : Type 0 where
  pub filename : String
  pub orig_filename : String
  pub external_attr : ℕ
  pub flag_bits : ℕ
  pub compress_type : ℕ
  pub file_size : ℕ
  pub blocks : List (Result (List ℕ))

-- The archive on disk: its measurement before and after, and its directory, if they can be read.
pub record ZipArchive : Type 0 where
  pub before : Result Measurement
  pub members : Result (List ZipMember)
  pub after : Result Measurement

-- `stat.S_IFMT(external_attr >> 16) in (0, stat.S_IFREG)`
abbrev pub is_ordinary_mode : ℕ → Bool
is_ordinary_mode attr = let kind = attr / 65536 / 4096 % 16 in kind == 0 || kind == 8

-- Not a directory, not encrypted, stored or deflated.
abbrev pub is_ordinary : ZipMember → Bool
is_ordinary m =
    is_ordinary_mode m.external_attr
    && not (last_char (λ c. c == b'/') m.filename)
    && m.flag_bits % 2 == 0
    && (m.compress_type == 0 || m.compress_type == 8)

-- The variables of the loop over the blocks of a member: what was hashed, and how long it is.
pub record Hashed : Type 0 where
  pub content : List ℕ
  pub size : ℕ

unfoldable pub add_block : ℕ → Hashed → Result (List ℕ) → Result Hashed
add_block file_size s read = do
  block ← read
  let size = s.size + length block
  require (leb size file_size) (origin_error "ZIP member exceeds its declared size")
  ok (record { content = s.content ++ block; size = size })

-- The variables of the loop over the members.
pub record ZipState : Type 0 where
  pub seen : List String
  pub total : ℕ

-- What is signed of a file.
unfoldable pub read_expected : Dict String Value → ZipMember → Result Measurement
unfolding exact_keys
read_expected files m = do
  entry_value ← item files m.filename
  entry ← exact_keys entry_value ("sha256" ∷ "size" ∷ [])
  size_value ← item entry "size"
  size ← or_raise (as_nat size_value) (origin_error "ZIP member measurement differs")
  require (size == m.file_size && leb m.file_size max_payload)
      (origin_error "ZIP member measurement differs")
  sha256_value ← item entry "sha256"
  sha256 ← or_raise (as_str sha256_value) (origin_error "ZIP member measurement differs")
  require (is_hex 64 sha256) (origin_error "ZIP member measurement differs")
  ok (record { sha256 = sha256; size = size })

abbrev pub has_size : Option ℕ → ℕ → Bool
has_size none size = true
has_size (some expected) size = size == expected

module _ (sha256 : List ℕ → String) where
  -- One round of the loop over the members.
  unfoldable pub add_zip_member : Dict String Value → ZipState → ZipMember → Result ZipState
  unfolding portable_path read_expected add_block
  add_zip_member files s m = do
    require
        (m.orig_filename == m.filename
          && not (any_char (λ c. c == 0) m.orig_filename)
          && portable_path m.filename
          && not (contains s.seen m.filename)
          && contains (keys files) m.filename)
        (origin_error "ZIP contains a duplicate or unselected member")
    require (is_ordinary m) (origin_error "ZIP member is not an ordinary unencrypted file")
    expected ← read_expected files m
    hashed ← fold (add_block m.file_size) (record { content = []; size = 0 }) m.blocks
    let total = s.total + hashed.size
    require
        (leb total max_payload
          && hashed.size == expected.size
          && sha256 hashed.content == expected.sha256)
        (origin_error "ZIP member bytes differ")
    ok (record { seen = m.filename ∷ s.seen; total = total })

  -- An archive by its digest, and its size if that is known.
  unfoldable pub verify_zip : ZipArchive → Value → String → Option ℕ → Result (Unit {0})
  unfolding require_portable_inventory add_zip_member
  verify_zip archive files_value digest size = do
    measured ← archive.before
    require (measured.sha256 == digest && has_size size measured.size)
        (origin_error "downloaded artifact ZIP digest or size differs")
    files ← or_raise (as_dict files_value) (origin_error "signed file inventory is invalid")
    require_portable_inventory (keys files)
    members ← archive.members
    require (length members == length files)
        (origin_error "ZIP member count differs from signed files")
    checked ← fold (add_zip_member files) (record { seen = []; total = 0 }) members
    after ← archive.after
    require (same_measurement after measured)
        (origin_error "artifact ZIP changed during verification")
