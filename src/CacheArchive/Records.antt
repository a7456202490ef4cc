-- ===== src/CacheArchive/Records.antt =====
-- cache-archive-transport.py: one member of the archive, its path and its record.
use Prim.Native.Char.{code}
use aros_toolchains.Prelude.{
  ℕ, ◌*◌, ◌^◌, String, Bool, true, false, ◌&&◌, ◌||◌, not, if◌then◌else◌, List, Option, none, some,
  Result, ok, raise, transport_error, require, ◌>>=◌, ◌>>◌, ◌==◌, string_eq, nat_eq, pair_eq,
  length, leb, all,
}
use aros_toolchains.Json.{ℤ, pos, negsuc}
use aros_toolchains.Text.{any_char, first_char, last_char, is_upper, is_lower, strip_prefix}
use aros_toolchains.Text.Bytes.{encode}
use aros_toolchains.Text.Order.{string_ord}
use aros_toolchains.Text.Split.{split}
use aros_toolchains.Sorted.{pair_ord, nat_ord}

abbrev pub max_members : ℕ
max_members = 200000

abbrev pub max_total_file_bytes : ℕ
max_total_file_bytes = 8 * 1024 ^ 3

abbrev pub max_file_bytes : ℕ
max_file_bytes = 2 * 1024 ^ 3

abbrev pub max_path_bytes : ℕ
max_path_bytes = 4096

abbrev pub max_component_bytes : ℕ
max_component_bytes = 255

-- The `kind` of a member, a text in the source.
pub data Kind : Type 0 where
  file directory : Kind

abbrev pub is_directory : Kind → Bool
is_directory file = false
is_directory directory = true

pub record ArchiveMember : Type 0 where
  pub path : String
  pub kind : Kind
  pub mode : ℕ
  pub size : ℕ

pub record ArchivePlan : Type 0 where
  pub members : List ArchiveMember
  pub directories : List (String × ℕ)

-- What a header of the archive says of a member: its type flag, among others.
pub data TypeFlag : Type 0 where
  regtype aregtype dirtype other_type : TypeFlag

pub record TarInfo : Type 0 where
  pub name : String
  pub type_flag : TypeFlag
  pub mode : ℤ
  pub size : ℤ

-- `re_drive_path`: an ASCII letter and a colon
abbrev pub re_drive_path : String → Bool
re_drive_path String.[] = false
re_drive_path (String.◌∷◌ c s) =
    (is_upper (code c) || is_lower (code c)) && first_char (λ d. d == 58) s

-- `text[:-1]`
abbrev pub drop_last_char : String → String
drop_last_char String.[] = ""
drop_last_char (String.◌∷◌ c String.[]) = ""
drop_last_char (String.◌∷◌ c (String.◌∷◌ d s)) = String.◌∷◌ c (drop_last_char (String.◌∷◌ d s))

abbrev pub is_slash : ℕ → Bool
is_slash c = c == 47

abbrev pub without_dot_slash : String → String
without_dot_slash name = elim (strip_prefix "./" name) [ none ↦ name | some rest ↦ rest ]

abbrev pub without_slash : Bool → String → String
without_slash is_dir name = if is_dir && last_char is_slash name then drop_last_char name else name

abbrev pub is_unsafe_component : String → Bool
is_unsafe_component part = part == "" || part == "." || part == ".."

abbrev pub fits_component : String → Bool
fits_component part = leb (length (encode part)) max_component_bytes

-- The part of `_normalized_member_path` after the root entry.
unfoldable pub check_path : String → Result String
unfolding split
check_path normalized = do
  require (not (normalized == "") && not (last_char is_slash normalized))
      (transport_error "archive member path is empty or not normalized")
  let parts = split "/" normalized
  require (all (λ part. not (is_unsafe_component part)) parts)
      (transport_error "archive member path contains an unsafe component")
  require (all fits_component parts)
      (transport_error "archive member path component exceeds the filesystem limit")
  require (leb (length (encode normalized)) max_path_bytes)
      (transport_error "archive member path exceeds its byte limit")
  ok normalized

unfoldable pub normalized_member_path : String → Bool → Result String
unfolding check_path
normalized_member_path name is_dir = do
  require (not (any_char (λ c. c == 0) name) && not (any_char (λ c. c == 92) name))
      (transport_error "archive member path is unsafe")
  require (leb (length (encode name)) max_path_bytes)
      (transport_error "archive member path exceeds its byte limit")
  require (not (first_char is_slash name) && not (re_drive_path name))
      (transport_error "archive member path must be relative")
  if name == "." || name == "./"
      then require is_dir (transport_error "archive root entry must be a directory") >> ok ""
      else check_path (without_slash is_dir (without_dot_slash name))

abbrev pub kind_of : TypeFlag → Option Kind
kind_of regtype = some file
kind_of aregtype = some file
kind_of dirtype = some directory
kind_of other_type = none

-- `mode >= 0 and mode & ~0o777 == 0`
abbrev pub mode_of : ℤ → Option ℕ
mode_of (pos n) = if leb n 0o777 then some n else none
mode_of (negsuc n) = none

abbrev pub size_of : ℤ → Option ℕ
size_of (pos n) = some n
size_of (negsuc n) = none

abbrev pub require_some {ℓ} : {A : Type ℓ} → Option A → String → Result A
require_some none message = raise (transport_error message)
require_some (some a) message = ok a

abbrev pub check_size : Kind → ℕ → Result (Unit {0})
check_size file size =
    require (leb size max_file_bytes) (transport_error "archive member exceeds its file byte limit")
check_size directory size =
    require (size == 0) (transport_error "archive directory member must have no payload")

unfoldable pub member_record : TarInfo → Result ArchiveMember
unfolding normalized_member_path
member_record member = do
  kind ← require_some (kind_of member.type_flag) "archive contains a non-file, non-directory member"
  mode ←
      require_some (mode_of member.mode)
        "archive member contains special or unsupported permission bits"
  size ← require_some (size_of member.size) "archive member size is invalid"
  check_size kind size
  path ← normalized_member_path member.name (is_directory kind)
  ok (record { path = path; kind = kind; mode = mode; size = size })
