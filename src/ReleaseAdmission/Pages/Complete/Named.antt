-- ===== src/ReleaseAdmission/Pages/Complete/Named.antt =====
-- The items of the pages and their identities.
use mathlib.Core.List.{append_assoc, append-nil}
use aros_toolchains.Prelude.{
  ℕ, String, false, List, [], ◌∷◌, ◌++◌, Option, none, some, ok, fold, nat_eq, contains,
  contains-append, IsNodup, map, ◌≡◌, refl, sym, ◌∙◌, arith,
}
use aros_toolchains.Json.{entries-to_members, object, get}
use aros_toolchains.ReleaseAdmission.Checks.{Object, positive_number, required_object}
use aros_toolchains.ReleaseAdmission.Pages.{Rows, identify, identities_with, add_item}

abbrev pub AreNamed : Option String → List Object → List ℕ → Type 0
AreNamed none items ids = Unit
AreNamed (some field) items ids =
    map (λ item. positive_number (get item field)) items ≡ map some ids

-- The same, with none that was seen before.
abbrev pub AreNew : Option String → List ℕ → List Object → Type 0
AreNew none seen items = Unit
AreNew (some field) seen [] = Unit
AreNew (some field) seen (item ∷ items) =
    (id : ℕ) × (positive_number (get item field) ≡ some id)
    × (contains seen id ≡ false)
    × AreNew (some field) (seen ++ id ∷ []) items

IsNodup-moved :
    (seen : List ℕ) (id : ℕ) (ids : List ℕ)
    → IsNodup (seen ++ id ∷ ids)
    → (contains seen id ≡ false) × IsNodup ((seen ++ id ∷ []) ++ ids)
IsNodup-moved [] id ids h = (refl, h)
IsNodup-moved (x ∷ seen) id ids h =
    let rest = IsNodup-moved seen id ids h.1 in
    ground (
      arith,
      contains-append seen (id ∷ ids) x,
      contains-append (seen ++ id ∷ []) ids x,
      contains-append seen (id ∷ []) x,
    )

list_head {ℓ} : {A : Type ℓ} {x y : A} {xs ys : List A} → x ∷ xs ≡ y ∷ ys → (x ≡ y) × (xs ≡ ys)
list_head h = (cc, cc)

pub AreNamed-AreNew :
    (f : Option String) (seen : List ℕ) (items : List Object) (ids : List ℕ)
    → AreNamed f items ids
    → IsNodup (seen ++ ids)
    → AreNew f seen items
AreNamed-AreNew none seen items ids h d = tt
AreNamed-AreNew (some field) seen [] ids h d = tt
AreNamed-AreNew (some field) seen (item ∷ items) [] h d = absurd (cc)
AreNamed-AreNew (some field) seen (item ∷ items) (id ∷ ids) h d =
    let e = list_head h in
    let m = IsNodup-moved seen id ids d in
    (id, e.0, m.0, AreNamed-AreNew (some field) (seen ++ id ∷ []) items ids e.1 m.1)

-- One round on an object, read as it was written.
add_item-object :
    (endpoint : String) (f : Option String) (s : Rows) (item : Object) (ids : List ℕ)
    → identities_with endpoint f item s.identities ≡ ok ids
    → add_item endpoint f s (object item)
      ≡ ok (record { rows = s.rows ++ item ∷ []; identities = ids })
unfolding add_item required_object
add_item-object endpoint f s item ids h = rw (entries-to_members item) (rw h refl)

identify_fresh :
    (endpoint field : String) (item : Object) (seen : List ℕ) (id : ℕ)
    → positive_number (get item field) ≡ some id
    → contains seen id ≡ false
    → identify endpoint field item seen ≡ ok (seen ++ id ∷ [])
unfolding identify
identify_fresh endpoint field item seen id named fresh = rw named (rw fresh refl)

-- A loop over new objects keeps them all.
pub fold_new :
    (endpoint : String) (f : Option String) (s : Rows) (items more : List Object)
    → AreNew f s.identities (items ++ more)
    → (t : Rows) × (fold (add_item endpoint f) s (map object items) ≡ ok t)
      × (t.rows ≡ s.rows ++ items)
      × AreNew f t.identities more
fold_new endpoint f s [] more h = (s, refl, sym (append-nil s.rows), h)
fold_new endpoint none s (item ∷ items) more h =
    let t : Rows = record { rows = s.rows ++ item ∷ []; identities = s.identities } in
    let (u, run, kept, rest) = fold_new endpoint none t items more tt in
    (
      u,
      rw (add_item-object endpoint none s item s.identities refl) run,
      kept ∙ append_assoc s.rows (item ∷ []) items,
      tt,
    )
fold_new endpoint (some field) s (item ∷ items) more (id, named, fresh, new) =
    let t : Rows = record { rows = s.rows ++ item ∷ []; identities = s.identities ++ id ∷ [] } in
    let (u, run, kept, rest) = fold_new endpoint (some field) t items more new in
    (
      u,
      rw
          (add_item-object endpoint (some field) s item (s.identities ++ id ∷ [])
            (identify_fresh endpoint field item s.identities id named fresh))
          run,
      kept ∙ append_assoc s.rows (item ∷ []) items,
      rest,
    )
