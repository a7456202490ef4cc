-- ===== src/CacheArchive/Examples.antt =====
-- Runs of cache-archive-transport.py on small archives.
use aros_toolchains.Prelude.{
  true, false, List, [], ◌∷◌, ok, raise, transport_error, string_eq, nat_eq, pair_eq, ◌≡◌, refl,
  ◌↔◌,
}
use aros_toolchains.Json.{pos}
use aros_toolchains.Text.Order.{string_ord}
use aros_toolchains.Sorted.{pair_ord, nat_ord}
use aros_toolchains.CacheArchive.{plan_members, ancestors}
use aros_toolchains.CacheArchive.Records.{
  file, directory, regtype, ArchiveMember, ArchivePlan, normalized_member_path, member_record,
}
use aros_toolchains.CacheArchive.Names.{IsMember, normalized_member_path_iff}
use aros_toolchains.CacheArchive.Plan.{IsRestorable, plan_members-IsRestorable}

dot_slash_off : normalized_member_path "./cache/a/" true ≡ ok "cache/a"
unfolding normalized_member_path string_eq nat_eq
dot_slash_off = refl

parent_refused :
    normalized_member_path "cache/../a" false
    ≡ raise (transport_error "archive member path contains an unsafe component")
unfolding normalized_member_path string_eq nat_eq
parent_refused = refl

-- The drive test reads the name as it stands in the archive.
drive_refused :
    normalized_member_path "C:/a" false
    ≡ raise (transport_error "archive member path must be relative")
unfolding normalized_member_path string_eq nat_eq
drive_refused = refl

drive_after_dot_slash : normalized_member_path "./C:/a" false ≡ ok "C:/a"
unfolding normalized_member_path string_eq nat_eq
drive_after_dot_slash = refl

above_the_file : ancestors "a/b/c" ≡ "a" ∷ "a/b" ∷ []
unfolding ancestors nat_eq
above_the_file = refl

record_of_a_file :
    member_record (record { name = "./a/b"; type_flag = regtype; mode = pos 0o644; size = pos 5 })
    ≡ ok (record { path = "a/b"; kind = file; mode = 0o644; size = 5 })
unfolding member_record string_eq nat_eq
record_of_a_file = refl

abbrev members : List ArchiveMember
members =
    record { path = "a/b/c"; kind = file; mode = 0o644; size = 5 }
    ∷ record { path = "a"; kind = directory; mode = 0o750; size = 0 }
    ∷ []

abbrev plan : ArchivePlan
plan = record { members = members; directories = ("", 0o700) ∷ ("a", 0o750) ∷ ("a/b", 0o755) ∷ [] }

members_planned : plan_members members ≡ ok plan
unfolding plan_members string_eq nat_eq pair_eq pair_ord nat_ord string_ord
members_planned = refl

plan_members-IsRestorable_example : IsRestorable members plan
plan_members-IsRestorable_example = plan_members-IsRestorable members plan members_planned

normalized_member_path_iff_example :
    normalized_member_path "./cache/a/" true ≡ ok "cache/a" ↔ IsMember "./cache/a/" true "cache/a"
normalized_member_path_iff_example = normalized_member_path_iff "./cache/a/" true "cache/a"
