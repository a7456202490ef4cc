-- ===== src/CacheArchive/Members.antt =====
-- The first loop of `_plan_members`: the members by path, and their total size.
use mathlib.Core.Path.{subst}
use mathlib.Core.List.{map-append, append_assoc, append-nil}
use aros_toolchains.Prelude.{
  ℕ, ◌+◌, ◌≤◌, String, true, false, ◌&&◌, not, List, [], ◌∷◌, ◌++◌, none, ok, fold, >>=-ok,
  require-ok, ok-injective, ◌==◌, contains, string_eq, lookup, insert, map, keep, IsNodup,
  IsNodup-snoc, ◌≡◌, refl, arith, sym, ap, ◌∙◌, Bool-cases, inl, inr,
}
use aros_toolchains.CacheArchive.{PlanState, add_root, add_path, add_member, add_size, is_none}
use aros_toolchains.CacheArchive.Records.{
  ArchiveMember, file, directory, Kind, is_directory, max_total_file_bytes,
}

-- The members other than the root entry.
abbrev pub named : List ArchiveMember → List ArchiveMember
named = keep (λ (m : ArchiveMember). not (m.path == ""))

abbrev pub path_of : ArchiveMember → String
path_of m = m.path

abbrev pub entry_of : ArchiveMember → String × ArchiveMember
entry_of m = (m.path, m)

abbrev pub file_size : ArchiveMember → ℕ
file_size m = elim m.kind [ file ↦ m.size | directory ↦ 0 ]

abbrev pub file_bytes : List ArchiveMember → ℕ
file_bytes [] = 0
file_bytes (m ∷ ms) = file_size m + file_bytes ms

-- The variables of the loop after the members ms.
pub record IsPlanned (ms : List ArchiveMember) (s : PlanState) : Type 0 where
  pub by_path : s.by_path ≡ map entry_of (named ms)
  pub distinct : IsNodup (map path_of (named ms))
  pub total : s.total_file_bytes ≡ file_bytes ms
  pub bounded : s.total_file_bytes ≤ max_total_file_bytes

fresh-contains :
    (k : String) (ms : List ArchiveMember)
    → is_none (lookup k (map entry_of ms)) ≡ true
    → contains (map path_of ms) k ≡ false
fresh-contains k [] h = refl
fresh-contains k (m ∷ ms) h = ground (arith, fresh-contains k ms)

insert-fresh :
    (k : String) (v : ArchiveMember) (ms : List ArchiveMember)
    → is_none (lookup k (map entry_of ms)) ≡ true
    → insert k v (map entry_of ms) ≡ map entry_of ms ++ (k, v) ∷ []
insert-fresh k v [] h = refl
insert-fresh k v (m ∷ ms) h = ground (arith, insert-fresh k v ms)

named-snoc_named :
    (ms : List ArchiveMember) (m : ArchiveMember)
    → (m.path == "") ≡ false
    → named (ms ++ m ∷ []) ≡ named ms ++ m ∷ []
named-snoc_named [] m h = ground arith
named-snoc_named (n ∷ ms) m h = ground (arith, named-snoc_named ms m)

named-snoc_root :
    (ms : List ArchiveMember) (m : ArchiveMember)
    → (m.path == "") ≡ true
    → named (ms ++ m ∷ []) ≡ named ms
named-snoc_root [] m h = ground arith
named-snoc_root (n ∷ ms) m h = ground (arith, named-snoc_root ms m)

file_bytes-snoc :
    (ms : List ArchiveMember) (m : ArchiveMember)
    → file_bytes (ms ++ m ∷ []) ≡ file_bytes ms + file_size m
file_bytes-snoc [] m = omega arith
file_bytes-snoc (n ∷ ms) m = omega (arith, file_bytes-snoc ms m)

add_size-ok :
    (k : Kind) (size total sum : ℕ)
    → total ≤ max_total_file_bytes
    → add_size k size total ≡ ok sum
    → (sum ≤ max_total_file_bytes) × (sum ≡ total + elim k [ file ↦ size | directory ↦ 0 ])
add_size-ok file size total sum b h = ground arith
add_size-ok directory size total sum b h = ground arith

root-no_bytes : (m : ArchiveMember) → is_directory m.kind ≡ true → file_size m ≡ 0
root-no_bytes m h = ground arith

add_root-IsPlanned :
    (ms : List ArchiveMember) (s : PlanState) (m : ArchiveMember) (t : PlanState)
    → IsPlanned ms s
    → (m.path == "") ≡ true
    → add_root s m ≡ ok t
    → IsPlanned (ms ++ m ∷ []) t
unfolding add_root
add_root-IsPlanned ms s m t i e h =
    require-ok (is_directory m.kind && is_none s.root_mode) _ _ h λ allowed h1.
      let same = named-snoc_root ms m e in
      subst (IsPlanned (ms ++ m ∷ [])) (ok-injective h1) (record {
        by_path = i.by_path ∙ ap (map entry_of) (sym same);
        distinct = subst (λ ns. IsNodup (map path_of ns)) (sym same) i.distinct;
        total =
            omega (arith, i.total, file_bytes-snoc ms m, root-no_bytes m (ground (arith, allowed)));
        bounded = i.bounded;
      })

add_path-IsPlanned :
    (ms : List ArchiveMember) (s : PlanState) (m : ArchiveMember) (t : PlanState)
    → IsPlanned ms s
    → (m.path == "") ≡ false
    → add_path s m ≡ ok t
    → IsPlanned (ms ++ m ∷ []) t
unfolding add_path
add_path-IsPlanned ms s m t i e h = require-ok (is_none (lookup m.path s.by_path)) _ _ h λ free h1.
    >>=-ok (add_size m.kind m.size s.total_file_bytes) _ h1 λ sum sized h2.
      let same = named-snoc_named ms m e in
      let fresh : is_none (lookup m.path (map entry_of (named ms))) ≡ true =
        subst (λ d. is_none (lookup m.path d) ≡ true) i.by_path free in
      let fits = add_size-ok m.kind m.size s.total_file_bytes sum i.bounded sized in
      subst (IsPlanned (ms ++ m ∷ [])) (ok-injective h2) (record {
        by_path =
            ap (insert m.path m) i.by_path
            ∙ (insert-fresh m.path m (named ms) fresh
                ∙ (sym (map-append entry_of (named ms) (m ∷ [])) ∙ ap (map entry_of) (sym same)));
        distinct =
            subst (λ ns. IsNodup (map path_of ns)) (sym same)
              (subst IsNodup (sym (map-append path_of (named ms) (m ∷ []))) (
                IsNodup-snoc (map path_of (named ms)) m.path i.distinct
                  (fresh-contains m.path (named ms) fresh)));
        total = omega (arith, fits.1, i.total, file_bytes-snoc ms m);
        bounded = fits.0;
      })

add_member-IsPlanned :
    (ms : List ArchiveMember) (s : PlanState) (m : ArchiveMember) (t : PlanState)
    → IsPlanned ms s
    → add_member s m ≡ ok t
    → IsPlanned (ms ++ m ∷ []) t
unfolding add_member
add_member-IsPlanned ms s m t i h = elim (Bool-cases (m.path == "")) [
  | inl e ↦ add_root-IsPlanned ms s m t i e (rw e at h)
  | inr e ↦ add_path-IsPlanned ms s m t i e (rw e at h)
]

-- What the loop has after all members.
pub members-IsPlanned :
    (done rest : List ArchiveMember) (s t : PlanState)
    → IsPlanned done s
    → fold add_member s rest ≡ ok t
    → IsPlanned (done ++ rest) t
members-IsPlanned done [] s t i h =
    subst (λ ms. IsPlanned ms t) (sym (append-nil done)) (subst (IsPlanned done) (ok-injective h) i)
members-IsPlanned done (m ∷ rest) s t i h =
    >>=-ok (add_member s m) (λ u. fold add_member u rest) h
      λ u one more.
        subst (λ ms. IsPlanned ms t) (append_assoc done (m ∷ []) rest)
          (members-IsPlanned (done ++ m ∷ []) rest u t (add_member-IsPlanned done s m u i one) more)

abbrev pub start : PlanState
start = record { by_path = []; total_file_bytes = 0; root_mode = none }

pub start-IsPlanned : IsPlanned [] start
start-IsPlanned = record { by_path = refl; distinct = tt; total = refl; bounded = omega arith }
