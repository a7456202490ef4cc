-- ===== src/ArtifactOrigin/Inventory.antt =====
-- What an accepted inventory of file names is.
use mathlib.Core.Path.{subst}
use mathlib.Core.List.{append_assoc, append-nil}
use aros_toolchains.Prelude.{
  some_injective, String, true, ◌&&◌, List, [], ◌∷◌, ◌++◌, some, ok, fold, >>=-ok, require-ok,
  ok-injective, ◌==◌, contains, string_eq, nat_eq, pair_eq, list_eq, lookup, insert, lookup-insert,
  length, leb, ltb, ◌≡◌, arith, sym, ap, ◌∙◌, All, All-map, All-append, All-contains, Bool-cases,
  inl, inr, eq_of_test,
}
use aros_toolchains.ArtifactOrigin.{
  Place, Seen, kind_eq, lower, may_stand, add_place, add_name, places, portable_path,
  require_portable_inventory, max_files,
}

-- The place is the one that was seen at its folded text.
abbrev pub IsSeen : Seen → Place → Type 0
IsSeen seen place = lookup (lower place.0) seen ≡ some place

same_place : (p q : Place) → may_stand (some p) q ≡ true → p ≡ q
same_place p q h = eq_of_test p q h

insert-IsSeen :
    (seen : Seen) (p q : Place)
    → may_stand (lookup (lower p.0) seen) p ≡ true
    → IsSeen seen q
    → IsSeen (insert (lower p.0) p seen) q
insert-IsSeen seen p q h k = elim (Bool-cases (lower q.0 == lower p.0)) [
  | inl e ↦
      let known : lookup (lower p.0) seen ≡ some q =
        subst (λ t. lookup t seen ≡ some q) (eq_of_test (lower q.0) (lower p.0) e) k in
      let same : q ≡ p = same_place q p (subst (λ o. may_stand o p ≡ true) known h) in
      rw (lookup-insert (lower q.0) (lower p.0) p seen, e) (ap some (sym same))
  | inr e ↦ rw (lookup-insert (lower q.0) (lower p.0) p seen, e) k
]

insert-IsSeen_self : (seen : Seen) (p : Place) → IsSeen (insert (lower p.0) p seen) p
insert-IsSeen_self seen p = ground (arith, lookup-insert (lower p.0) (lower p.0) p seen)

-- The inner loop, over the places of a name.
places_seen :
    (ps done : List Place) (seen out : Seen)
    → All (IsSeen seen) done
    → fold add_place seen ps ≡ ok out
    → All (IsSeen out) (done ++ ps)
unfolding add_place
places_seen [] done seen out h e =
    subst (All (IsSeen out)) (sym (append-nil done))
      (subst (λ s. All (IsSeen s) done) (ok-injective e) h)
places_seen (p ∷ ps) done seen out h e =
    >>=-ok (add_place seen p) (λ s. fold add_place s ps) e
      λ next one more. require-ok (may_stand (lookup (lower p.0) seen) p) _ _ one λ allowed kept.
        let held : All (IsSeen next) (done ++ p ∷ []) =
          subst (λ s. All (IsSeen s) (done ++ p ∷ [])) (ok-injective kept)
            (All-append (IsSeen (insert (lower p.0) p seen)) done (p ∷ [])
              (All-map (λ q k. insert-IsSeen seen p q allowed k) done h)
              (insert-IsSeen_self seen p, tt)) in
        subst (All (IsSeen out)) (append_assoc done (p ∷ []) ps)
          (places_seen ps (done ++ p ∷ []) next out held more)

-- The places of all names.
abbrev pub all_places : List String → List Place
all_places [] = []
all_places (name ∷ names) = places name ++ all_places names

record IsScanned (names : List String) (done : List Place) (out : Seen) : Type 0 where
  seen : All (IsSeen out) (done ++ all_places names)
  portable : All (λ name. portable_path name ≡ true) names

names_seen :
    (names : List String) (done : List Place) (seen out : Seen)
    → All (IsSeen seen) done
    → fold add_name seen names ≡ ok out
    → IsScanned names done out
unfolding add_name
names_seen [] done seen out h e = record {
  seen =
      subst (All (IsSeen out)) (sym (append-nil done))
        (subst (λ s. All (IsSeen s) done) (ok-injective e) h);
  portable = tt;
}
names_seen (name ∷ names) done seen out h e =
    >>=-ok (add_name seen name) (λ s. fold add_name s names) e
      λ next one more. require-ok (portable_path name) _ _ one λ fine scanned.
        let rest =
          names_seen names (done ++ places name) next out
            (places_seen (places name) done seen next h scanned) more in
        record {
          seen =
              subst (All (IsSeen out)) (append_assoc done (places name) (all_places names))
                rest.seen;
          portable = (fine, rest.portable);
        }

inventory_seen :
    (names : List String)
    → require_portable_inventory names ≡ ok tt
    → (out : Seen) × IsScanned names [] out
unfolding require_portable_inventory
inventory_seen names h =
    require-ok (ltb 0 (length names) && leb (length names) max_files) _ _ h λ few h1.
      >>=-ok (fold add_name [] names) _ h1
        λ out scanned h2. (out, names_seen names [] [] out tt scanned)

-- In an accepted inventory two places, files or directories above them, whose texts differ in the
-- case of letters only are one place: the same text, and both a file or both a directory. So no
-- two names, and no name and a directory, are aliases on a file system that ignores case.
pub require_portable_inventory_unaliased :
    (names : List String) (p q : Place)
    → require_portable_inventory names ≡ ok tt
    → contains (all_places names) p ≡ true
    → contains (all_places names) q ≡ true
    → lower p.0 ≡ lower q.0
    → p ≡ q
require_portable_inventory_unaliased names p q h mp mq e =
    let s = inventory_seen names h in
    let at_p = All-contains (IsSeen s.0) (all_places names) p s.1.seen mp in
    let at_q = All-contains (IsSeen s.0) (all_places names) q s.1.seen mq in
    some_injective (sym at_p ∙ (ap (λ t. lookup t s.0) e ∙ at_q))
