-- ===== src/ReleaseAdmission/Governance/Found.antt =====
-- The ruleset that `_governance` finds in the list, and what the query of its node answered.
use aros_toolchains.Prelude.{
  ℕ, ◌<◌, true, false, List, [], ◌∷◌, ok, >>=-ok, ok-injective, both_true, ◌==◌, string_eq, nat_eq,
  keep, traverse, length, ◌≡◌, refl, ap, sym, ◌∙◌, arith,
}
use aros_toolchains.Json.{pos, int, str, get, is_str}
use aros_toolchains.Json.Inversion.{is_str-eq}
use aros_toolchains.Sorted.{sorted_set, nat_ord}
use aros_toolchains.ReleaseAdmission.Checks.{Object, positive_int}
use aros_toolchains.ReleaseAdmission.Checks.Inverted.{IsOnly, keep_one, positive_int-eq}
use aros_toolchains.ReleaseAdmission.Session.{World, next-ok}
use aros_toolchains.ReleaseAdmission.Session.Returned.{lift-ok, hold-ok, lift_value}
use aros_toolchains.ReleaseAdmission.Pages.{paginated}
use aros_toolchains.ReleaseAdmission.Governance.{is_active_tag, the_only, rulesets, find_ruleset}

-- A ruleset of tags that is enforced.
pub record IsActiveTag (item : Object) : Type 0 where
  pub target : get item "target" ≡ str "tag"
  pub enforcement : get item "enforcement" ≡ str "active"

pub is_active_tag-IsActiveTag : (item : Object) → is_active_tag item ≡ true → IsActiveTag item
is_active_tag-IsActiveTag item h =
    let p =
      both_true (is_str (get item "target") "tag") (is_str (get item "enforcement") "active") h in
    record {
      target = is_str-eq (get item "target") "tag" p.0;
      enforcement = is_str-eq (get item "enforcement") "active" p.1;
    }

not-IsActiveTag : (item : Object) → is_active_tag item ≡ false → ¬ IsActiveTag item
unfolding string_eq
not-IsActiveTag item h a = true-ne-false (sym (rw (a.target, a.enforcement) refl) ∙ h)
  where
    true-ne-false : true ≡ false → ⊥
    true-ne-false h = cc

pub keep-IsOnly :
    (listing : List Object) (entry : Object)
    → keep is_active_tag listing ≡ entry ∷ []
    → IsOnly IsActiveTag listing entry
keep-IsOnly listing entry h =
    keep_one IsActiveTag is_active_tag is_active_tag-IsActiveTag not-IsActiveTag listing entry h

the_only-eq : (ids : List ℕ) (id : ℕ) → the_only ids ≡ ok id → ids ≡ id ∷ []
the_only-eq [] id h = cc
the_only-eq (i ∷ []) id h = ground arith
the_only-eq (i ∷ j ∷ ids) id h = cc

one_id :
    (items : List Object) (id : ℕ)
    → traverse (λ item. positive_int (get item "id") "active tag ruleset id") items ≡ ok (id ∷ [])
    → (item : Object) × (items ≡ item ∷ []) × (get item "id" ≡ int (pos id)) × (0 < id)
one_id [] id h = absurd (cc)
one_id (item ∷ items) id h =
    >>=-ok (positive_int (get item "id") "active tag ruleset id") _ h λ i is_i h1.
      >>=-ok (traverse (λ item. positive_int (get item "id") "active tag ruleset id") items) _ h1
        λ ids are_ids h2.
          let same : (i ∷ ids) ≡ id ∷ [] = ok-injective h2 in
          let no_more : ids ≡ [] = cc in
          let first : i ≡ id = cc in
          let p = positive_int-eq (get item "id") "active tag ruleset id" i is_i in
          (
            item,
            ap (λ t. item ∷ t) (none_left items (are_ids ∙ ap ok no_more)),
            p.0 ∙ ap (λ k. int (pos k)) first,
            omega (arith, first, p.1),
          )
  where
    none_left :
        (items : List Object)
        → traverse (λ item. positive_int (get item "id") "active tag ruleset id") items ≡ ok []
        → items ≡ []
    none_left [] h = refl
    none_left (item ∷ items) h =
        >>=-ok (positive_int (get item "id") "active tag ruleset id") _ h λ i is_i h1.
          >>=-ok (traverse (λ item. positive_int (get item "id") "active tag ruleset id") items) _
            h1 λ ids are_ids h2. absurd (cc)

-- The listing that was read from the request `n` on, up to `m`, has the ruleset as its one active
-- ruleset of tags.
pub record IsFound (w : World) (n m : ℕ) (identifier : ℕ) : Type 0 where
  pub listing : List Object
  pub listed : paginated rulesets w n ≡ ok (listing, m)
  pub entry : Object
  pub only : IsOnly IsActiveTag listing entry
  pub identified : get entry "id" ≡ int (pos identifier)
  pub positive : 0 < identifier

pub find_ruleset-IsFound :
    (w : World) (n m identifier : ℕ)
    → find_ruleset w n ≡ ok (identifier, m)
    → IsFound w n m identifier
unfolding find_ruleset
find_ruleset-IsFound w n m identifier h =
    next-ok (paginated rulesets w n) _ h λ listing k listed h1.
      lift-ok
        (traverse (λ item. positive_int (get item "id") "active tag ruleset id")
          (keep is_active_tag listing))
        w k _ h1
        λ ids are_ids h2.
          hold-ok (length ids == length (sorted_set ids))
            "ruleset listing contains duplicate active tag IDs" w k _ h2
            λ _ h3.
              let chosen = lift_value (the_only ids) w k m identifier h3 in
              let end : k ≡ m = chosen.1 in
              let is_only = the_only-eq ids identifier chosen.0 in
              let (entry, kept, identified, positive) =
                one_id (keep is_active_tag listing) identifier (are_ids ∙ ap ok is_only) in
              record {
                listing = listing;
                listed = listed ∙ ap (λ j. ok (listing, j)) end;
                entry = entry;
                only = keep-IsOnly listing entry kept;
                identified = identified;
                positive = positive;
              }
