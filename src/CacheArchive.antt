-- ===== src/CacheArchive.antt =====
-- scripts/toolchain/cache-archive-transport.py: the members of a cache archive, and the plan of
-- what is restored from them.
pub mod Records
pub mod Stripped
pub mod Names
pub mod Paths
pub mod Members
pub mod Plan
pub mod Examples
use Prim.Native.Char.{code}
use aros_toolchains.Prelude.{
  ℕ, suc, ◌+◌, ◌*◌, ◌^◌, String, Bool, true, false, ◌&&◌, ◌||◌, not, if◌then◌else◌, List, [], ◌∷◌,
  ◌++◌, Option, none, some, Result, ok, raise, transport_error, require, fold, for_each, ◌>>=◌,
  ◌>>◌, ◌==◌, contains, string_eq, nat_eq, pair_eq, Dict, keys, lookup, insert, map, length, leb,
  ltb, all,
}
use aros_toolchains.Json.{ℤ, pos, negsuc}
use aros_toolchains.Text.{
  any_char, first_char, last_char, one_of, is_upper, is_lower, strip_prefix, starts_with,
}
use aros_toolchains.Text.Bytes.{encode}
use aros_toolchains.Text.Order.{string_ord}
use aros_toolchains.Text.Split.{split, join}
use aros_toolchains.Sorted.{sort_by, pair_ord, nat_ord}
use aros_toolchains.CacheArchive.Records.{
  file, directory, max_members, max_total_file_bytes, Kind, is_directory, ArchiveMember,
  ArchivePlan, is_slash,
}

-- The variables of the first loop of `_plan_members`.
pub record PlanState : Type 0 where
  pub by_path : Dict String ArchiveMember
  pub total_file_bytes : ℕ
  pub root_mode : Option ℕ

abbrev pub is_none {ℓ} : {A : Type ℓ} → Option A → Bool
is_none none = true
is_none (some a) = false

abbrev pub add_size : Kind → ℕ → ℕ → Result ℕ
add_size directory size total = ok total
add_size file size total =
    require (leb (total + size) max_total_file_bytes)
      (transport_error "archive exceeds its total file byte limit")
    >> ok (total + size)

unfoldable pub add_root : PlanState → ArchiveMember → Result PlanState
add_root s member = do
  require (is_directory member.kind && is_none s.root_mode)
      (transport_error "archive contains an invalid or duplicate root entry")
  ok (record {
    by_path = s.by_path;
    total_file_bytes = s.total_file_bytes;
    root_mode = some member.mode;
  })

unfoldable pub add_path : PlanState → ArchiveMember → Result PlanState
add_path s member = do
  require (is_none (lookup member.path s.by_path))
      (transport_error "archive contains duplicate or aliased member paths")
  total ← add_size member.kind member.size s.total_file_bytes
  ok (record {
    by_path = insert member.path member s.by_path;
    total_file_bytes = total;
    root_mode = s.root_mode;
  })

unfoldable pub add_member : PlanState → ArchiveMember → Result PlanState
unfolding add_root add_path
add_member s member = if member.path == "" then add_root s member else add_path s member

-- The proper prefixes of the components, the shortest first.
abbrev pub proper_prefixes : List String → List (List String)
proper_prefixes [] = []
proper_prefixes (w ∷ []) = []
proper_prefixes (w ∷ v ∷ ws) = (w ∷ []) ∷ map (λ ps. w ∷ ps) (proper_prefixes (v ∷ ws))

unfoldable pub ancestors : String → List String
unfolding split join
ancestors path = map (join "/") (proper_prefixes (split "/" path))

-- `parent_member is None or parent_member.kind == "directory"`
abbrev pub may_hold : Option ArchiveMember → Bool
may_hold none = true
may_hold (some member) = is_directory member.kind

-- One round of the second loop.
unfoldable pub check_ancestors :
    Dict String ArchiveMember → String × ArchiveMember → Result (Unit {0})
unfolding ancestors
check_ancestors by_path (path, member) =
    for_each
      (λ ancestor.
        require (may_hold (lookup ancestor by_path))
          (transport_error "archive contains a file and a descendant at the same path"))
      (ancestors path)

-- `directory_modes.setdefault(path, mode)`
abbrev pub set_default_mode : ℕ → Dict String ℕ → String → Dict String ℕ
set_default_mode mode modes path = elim (lookup path modes) [
  | none ↦ insert path mode modes
  | some m ↦ modes
]

abbrev pub fold_left {ℓ κ} : {A : Type ℓ} {S : Type κ} → (S → A → S) → S → List A → S
fold_left f s [] = s
fold_left f s (x ∷ xs) = fold_left f (f s x) xs

-- One round of the third loop.
unfoldable pub add_modes : Dict String ℕ → String × ArchiveMember → Dict String ℕ
unfolding ancestors
add_modes modes (path, member) =
    let held = fold_left (set_default_mode 0o755) modes (ancestors path) in
    if is_directory member.kind then insert path member.mode held else held

abbrev pub root_modes : Option ℕ → Dict String ℕ
root_modes none = []
root_modes (some mode) = ("", mode) ∷ []

-- `path.count("/")`
abbrev pub count_slashes : String → ℕ
count_slashes String.[] = 0
count_slashes (String.◌∷◌ c s) =
    if is_slash (code c) then suc (count_slashes s) else count_slashes s

abbrev pub depth_key : String × ℕ → ℕ × String
depth_key (path, mode) = (count_slashes path, path)

unfoldable pub plan_members : List ArchiveMember → Result ArchivePlan
unfolding add_member check_ancestors add_modes sort_by
plan_members members = do
  require (leb (length members) max_members)
      (transport_error "archive exceeds its member count limit")
  s ← fold add_member (record { by_path = []; total_file_bytes = 0; root_mode = none }) members
  for_each (check_ancestors s.by_path) s.by_path
  let modes = fold_left add_modes (root_modes s.root_mode) s.by_path
  let directory_modes = set_default_mode 0o700 modes ""
  ok (record { members = members; directories = sort_by depth_key directory_modes })
