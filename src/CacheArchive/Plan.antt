-- ===== src/CacheArchive/Plan.antt =====
-- `_plan_members`: what an accepted plan restores.
use mathlib.Core.Path.{subst}
use aros_toolchains.Prelude.{
  ℕ, ◌≤◌, String, Bool, true, false, ◌||◌, if◌then◌else◌, List, [], ◌∷◌, none, some, ok, fold,
  for_each, for_each-All, >>=-ok, require-ok, ok-injective, ◌==◌, contains, string_eq, nat_eq,
  pair_eq, Dict, keys, lookup, insert, map, IsNodup, ◌≡◌, refl, arith, sym, ◌∙◌, All, All-map, leb,
  length,
}
use aros_toolchains.Text.Order.{string_ord}
use aros_toolchains.Sorted.{sort_by, pair_ord, nat_ord}
use aros_toolchains.Sorted.Length.{contains-sort_by}
use aros_toolchains.CacheArchive.{
  may_hold, ancestors, check_ancestors, set_default_mode, fold_left, add_modes, root_modes,
  depth_key, count_slashes, plan_members, add_member,
}
use aros_toolchains.CacheArchive.Records.{
  ArchiveMember, ArchivePlan, is_directory, max_members, max_total_file_bytes,
}
use aros_toolchains.CacheArchive.Members.{
  named, path_of, entry_of, file_bytes, members-IsPlanned, start, start-IsPlanned,
}

keys-insert :
    (k : String) (n : ℕ) (d : Dict String ℕ) (a : String)
    → contains (keys (insert k n d)) a ≡ (a == k || contains (keys d) a)
keys-insert k n [] a = refl
keys-insert k n ((j, m) ∷ d) a = ground (arith, keys-insert k n d a)

lookup-keys :
    (k : String) (m : ℕ) (d : Dict String ℕ) → lookup k d ≡ some m → contains (keys d) k ≡ true
lookup-keys k m [] h = cc
lookup-keys k m ((j, n) ∷ d) h = ground (arith, lookup-keys k m d)

set_default_mode-keeps :
    (n : ℕ) (d : Dict String ℕ) (k a : String)
    → contains (keys d) a ≡ true
    → contains (keys (set_default_mode n d k)) a ≡ true
set_default_mode-keeps n d k a h = ground (arith, keys-insert k n d a)

set_default_mode-adds :
    (n : ℕ) (d : Dict String ℕ) (k : String) → contains (keys (set_default_mode n d k)) k ≡ true
set_default_mode-adds n d k =
    elim (lookup k d)
        as (λ o.
          lookup k d ≡ o → contains (keys (elim o [ none ↦ insert k n d | some m ↦ d ])) k ≡ true) [
            | none ↦ λ h. ground (arith, keys-insert k n d k)
            | some m ↦ λ h. lookup-keys k m d h
          ]
      refl

defaults-keep :
    (n : ℕ) (ks : List String) (d : Dict String ℕ) (a : String)
    → contains (keys d) a ≡ true
    → contains (keys (fold_left (set_default_mode n) d ks)) a ≡ true
defaults-keep n [] d a h = h
defaults-keep n (k ∷ ks) d a h =
    defaults-keep n ks (set_default_mode n d k) a (set_default_mode-keeps n d k a h)

defaults-add :
    (n : ℕ) (ks : List String) (d : Dict String ℕ)
    → All (λ a. contains (keys (fold_left (set_default_mode n) d ks)) a ≡ true) ks
defaults-add n [] d = tt
defaults-add n (k ∷ ks) d = (
  defaults-keep n ks (set_default_mode n d k) k (set_default_mode-adds n d k),
  defaults-add n ks (set_default_mode n d k),
)

directory_insert-keeps :
    (b : Bool) (k : String) (n : ℕ) (d : Dict String ℕ) (a : String)
    → contains (keys d) a ≡ true
    → contains (keys (if b then insert k n d else d)) a ≡ true
directory_insert-keeps true k n d a h = ground (arith, keys-insert k n d a)
directory_insert-keeps false k n d a h = h

directory_insert-adds :
    (b : Bool) (k : String) (n : ℕ) (d : Dict String ℕ)
    → b ≡ true
    → contains (keys (if b then insert k n d else d)) k ≡ true
directory_insert-adds true k n d h = ground (arith, keys-insert k n d k)
directory_insert-adds false k n d h = cc

add_modes-keeps :
    (d : Dict String ℕ) (m : ArchiveMember) (a : String)
    → contains (keys d) a ≡ true
    → contains (keys (add_modes d (entry_of m))) a ≡ true
unfolding add_modes
add_modes-keeps d m a h =
    directory_insert-keeps (is_directory m.kind) m.path m.mode
      (fold_left (set_default_mode 0o755) d (ancestors m.path)) a
      (defaults-keep 0o755 (ancestors m.path) d a h)

-- The ancestors of a member, and itself if it is a directory, are among the directories.
pub record IsHeld (directories : List String) (m : ArchiveMember) : Type 0 where
  pub above : All (λ a. contains directories a ≡ true) (ancestors m.path)
  pub itself : is_directory m.kind ≡ true → contains directories m.path ≡ true

add_modes-IsHeld :
    (d : Dict String ℕ) (m : ArchiveMember) → IsHeld (keys (add_modes d (entry_of m))) m
unfolding add_modes
add_modes-IsHeld d m = record {
  above =
      All-map
        (λ a h.
          directory_insert-keeps (is_directory m.kind) m.path m.mode
            (fold_left (set_default_mode 0o755) d (ancestors m.path)) a h)
        (ancestors m.path) (defaults-add 0o755 (ancestors m.path) d);
  itself = λ h.
      directory_insert-adds (is_directory m.kind) m.path m.mode
        (fold_left (set_default_mode 0o755) d (ancestors m.path)) h;
}

-- A larger list of directories holds no less.
IsHeld-mono :
    (ds es : List String)
    → ((a : String) → contains ds a ≡ true → contains es a ≡ true)
    → (m : ArchiveMember) → IsHeld ds m
    → IsHeld es m
IsHeld-mono ds es f m h = record {
  above = All-map f (ancestors m.path) h.above;
  itself = λ d. f m.path (h.itself d);
}

modes-keep :
    (ms : List ArchiveMember) (d : Dict String ℕ) (a : String)
    → contains (keys d) a ≡ true
    → contains (keys (fold_left add_modes d (map entry_of ms))) a ≡ true
modes-keep [] d a h = h
modes-keep (m ∷ ms) d a h = modes-keep ms (add_modes d (entry_of m)) a (add_modes-keeps d m a h)

modes-hold :
    (ms : List ArchiveMember) (d : Dict String ℕ)
    → All (IsHeld (keys (fold_left add_modes d (map entry_of ms)))) ms
modes-hold [] d = tt
modes-hold (m ∷ ms) d = (
  IsHeld-mono (keys (add_modes d (entry_of m))) _ (modes-keep ms (add_modes d (entry_of m))) m
      (add_modes-IsHeld d m),
  modes-hold ms (add_modes d (entry_of m)),
)

contains-depth_key :
    (d : Dict String ℕ) (a : String)
    → contains (map depth_key d) (count_slashes a, a) ≡ contains (keys d) a
contains-depth_key [] a = refl
contains-depth_key ((j, m) ∷ d) a = ground (arith, contains-depth_key d a)

sorted_keys :
    (d : Dict String ℕ) (a : String) → contains (keys (sort_by depth_key d)) a ≡ contains (keys d) a
sorted_keys d a =
    sym (contains-depth_key (sort_by depth_key d) a)
    ∙ (contains-sort_by depth_key d (count_slashes a, a) ∙ contains-depth_key d a)

check_ancestors-All :
    (by_path : Dict String ArchiveMember) (m : ArchiveMember)
    → check_ancestors by_path (entry_of m) ≡ ok tt
    → All (λ a. may_hold (lookup a by_path) ≡ true) (ancestors m.path)
unfolding check_ancestors
check_ancestors-All by_path m h =
    All-map (λ a k. ground (arith, k)) (ancestors m.path) (for_each-All _ (ancestors m.path) h)

checked_entries :
    (by_path : Dict String ArchiveMember) (ms : List ArchiveMember)
    → All (λ e. check_ancestors by_path e ≡ ok tt) (map entry_of ms)
    → All (λ m. All (λ a. may_hold (lookup a by_path) ≡ true) (ancestors m.path)) ms
checked_entries by_path [] h = tt
checked_entries by_path (m ∷ ms) h =
    (check_ancestors-All by_path m h.0, checked_entries by_path ms h.1)

-- What `_plan_members` promises of an accepted plan.
pub record IsRestorable (members : List ArchiveMember) (plan : ArchivePlan) : Type 0 where
  pub same : plan.members ≡ members
  pub counted : length members ≤ max_members
  pub distinct : IsNodup (map path_of (named members))
  pub bounded : file_bytes members ≤ max_total_file_bytes
  pub clear :
      All
        (λ m.
          All (λ a. may_hold (lookup a (map entry_of (named members))) ≡ true) (ancestors m.path))
        (named members)
  pub held : All (IsHeld (keys plan.directories)) (named members)
  pub rooted : contains (keys plan.directories) "" ≡ true

-- An accepted plan has the members as they are: at most the bound of them, with no path but the
-- root's twice and files of at most 8 GiB together; no file stands at an ancestor of a member; and
-- the root, every ancestor of a member and every directory member are among the directories that
-- are made.
pub plan_members-IsRestorable :
    (members : List ArchiveMember) (plan : ArchivePlan)
    → plan_members members ≡ ok plan
    → IsRestorable members plan
unfolding plan_members
plan_members-IsRestorable members plan h =
    require-ok (leb (length members) max_members) _ _ h λ few h0.
      >>=-ok (fold add_member start members) _ h0 λ s looped h1.
        >>=-ok (for_each (check_ancestors s.by_path) s.by_path) _ h1 λ u checked h2.
          let i = members-IsPlanned [] members start s start-IsPlanned looped in
          let modes = fold_left add_modes (root_modes s.root_mode) s.by_path in
          let every = set_default_mode 0o700 modes "" in
          subst (IsRestorable members) (ok-injective h2) (record {
            same = refl;
            counted = ground (arith, few);
            distinct = i.distinct;
            bounded = omega (arith, i.total, i.bounded);
            clear =
                subst
                  (λ d.
                    All (λ m. All (λ a. may_hold (lookup a d) ≡ true) (ancestors m.path))
                      (named members))
                  i.by_path
                  (checked_entries s.by_path (named members) (
                    subst (All (λ e. check_ancestors s.by_path e ≡ ok tt)) i.by_path
                      (for_each-All (check_ancestors s.by_path) s.by_path checked)));
            held =
                All-map
                  (IsHeld-mono (keys modes) (keys (sort_by depth_key every))
                    (λ a k. sorted_keys every a ∙ set_default_mode-keeps 0o700 modes "" a k))
                  (named members)
                  (subst
                    (λ d.
                      All (IsHeld (keys (fold_left add_modes (root_modes s.root_mode) d)))
                        (named members))
                    (sym i.by_path) (modes-hold (named members) (root_modes s.root_mode)));
            rooted = sorted_keys every "" ∙ set_default_mode-adds 0o700 modes "";
          })
