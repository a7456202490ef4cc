-- ===== src/ReleaseAdmission/Pages/Distinct.antt =====
-- What any list is that `paginated` returned.
use mathlib.Core.Path.{subst}
use mathlib.Core.List.{map-append}
use aros_toolchains.Prelude.{
  ℕ, zero, suc, ◌+◌, ◌≤◌, ◌<◌, String, Bool, true, false, if◌then◌else◌, List, [], ◌∷◌, ◌++◌,
  Option, none, some, Result, ok, admission_error, refuse-ok, fold, fold-invariant, >>=-ok,
  ok-injective, ◌<>◌, nat_eq, contains, IsNodup, IsNodup-snoc, ltb, length, map, ◌≡◌, refl, sym, ap,
  ◌∙◌, arith,
}
use aros_toolchains.Json.{Value, get, or_raise, or_raise-some}
use aros_toolchains.ReleaseAdmission.Checks.{Object, page_size, positive_number, required_object}
use aros_toolchains.ReleaseAdmission.Session.{World}
use aros_toolchains.ReleaseAdmission.Session.Returned.{lift-ok, api-ok}
use aros_toolchains.ReleaseAdmission.Pages.{
  Rows, Listing, identify, identities_with, add_item, page_values, page_path, read_pages, paginated,
}
use aros_toolchains.ReleaseAdmission.Pages.Complete.Named.{AreNamed}

-- The rows have the identities, which differ.
record IsDistinct (f : Option String) (s : Rows) : Type 0 where
  named : AreNamed f s.rows s.identities
  differ : IsNodup s.identities

identities_kept :
    (endpoint : String) (f : Option String) (item : Object) (s : Rows) (ids : List ℕ)
    → identities_with endpoint f item s.identities ≡ ok ids
    → IsDistinct f s
    → IsDistinct f (record { rows = s.rows ++ item ∷ []; identities = ids })
unfolding identify
identities_kept endpoint none item s ids h d = record {
  named = tt;
  differ = subst IsNodup (ok-injective h) d.differ;
}
identities_kept endpoint (some field) item s ids h d =
    >>=-ok
      (or_raise (positive_number (get item field))
        (admission_error ("GitHub GET identity is invalid for " <> endpoint)))
      _ h
      λ id is_id h1. refuse-ok (contains s.identities id) _ _ h1 λ fresh h2.
        let given = or_raise-some (positive_number (get item field)) id _ is_id in
        subst (λ t. IsDistinct (some field) (record { rows = s.rows ++ item ∷ []; identities = t }))
          (ok-injective h2)
          (record {
            named =
                map-append (λ i. positive_number (get i field)) s.rows (item ∷ [])
                ∙ (ap (λ t. t ++ positive_number (get item field) ∷ []) d.named
                    ∙ (ap (λ t. map some s.identities ++ t ∷ []) given
                        ∙ sym (map-append some s.identities (id ∷ []))));
            differ = IsNodup-snoc s.identities id d.differ fresh;
          })

add_item-IsDistinct :
    (endpoint : String) (f : Option String) (s : Rows) (value : Value) (t : Rows)
    → IsDistinct f s
    → add_item endpoint f s value ≡ ok t
    → IsDistinct f t
unfolding add_item
add_item-IsDistinct endpoint f s value t d h =
    >>=-ok (required_object value (endpoint <> " item")) _ h λ item _ h1.
      >>=-ok (identities_with endpoint f item s.identities) _ h1 λ ids made h2.
        subst (IsDistinct f) (ok-injective h2) (identities_kept endpoint f item s ids made d)

-- What the rounds return.
record IsReturned (f : Option String) (n m rounds : ℕ) (rows : List Object) : Type 0 where
  ids : List ℕ
  named : AreNamed f rows ids
  differ : IsNodup ids
  sent : n < m
  bounded : m ≤ n + rounds

last_page :
    (b : Bool) (l : Listing) (rounds n m : ℕ) (rows : List Object) (s : Rows)
    (rest : Result (List Object × ℕ))
    → IsDistinct l.identity_field s
    → (rest ≡ ok (rows, m) → IsReturned l.identity_field (suc n) m rounds rows)
    → (if b then ok (s.rows, suc n) else rest) ≡ ok (rows, m)
    → IsReturned l.identity_field n m (suc rounds) rows
last_page true l rounds n m rows s rest d more h =
    let same : ◌≡◌ {A = List Object × ℕ} (s.rows, suc n) (rows, m) = ok-injective h in
    let later : suc n ≡ m = ap (λ t. t.1) same in
    record {
      ids = s.identities;
      named = subst (λ t. AreNamed l.identity_field t s.identities) (ap (λ t. t.0) same) d.named;
      differ = d.differ;
      sent = omega arith;
      bounded = omega arith;
    }
last_page false l rounds n m rows s rest d more h =
    let r = more h in
    record {
      ids = r.ids;
      named = r.named;
      differ = r.differ;
      sent = omega (arith, r.sent);
      bounded = omega (arith, r.bounded);
    }

read_pages-IsReturned :
    (rounds page : ℕ) (l : Listing) (s : Rows) (w : World) (n m : ℕ) (rows : List Object)
    → IsDistinct l.identity_field s
    → read_pages rounds page l s w n ≡ ok (rows, m)
    → IsReturned l.identity_field n m rounds rows
unfolding read_pages
read_pages-IsReturned zero page l s w n m rows d h = absurd (cc)
read_pages-IsReturned (suc rounds) page l s w n m rows d h =
    api-ok (page_path l.endpoint page) false l.governance w n _ h λ response _ h1.
      lift-ok (page_values l.endpoint l.array_field response) w (suc n) _ h1 λ values _ h2.
        lift-ok (fold (add_item l.endpoint l.identity_field) s values) w (suc n) _ h2 λ t added h3.
          let d' =
            fold-invariant (IsDistinct l.identity_field) (add_item l.endpoint l.identity_field)
              (λ s x t. add_item-IsDistinct l.endpoint l.identity_field s x t) s values t d added in
          last_page (ltb (length values) page_size) l rounds n m rows t
            (read_pages rounds (page + 1) l t w (suc n)) d'
            (read_pages-IsReturned rounds (page + 1) l t w (suc n) m rows d') h3

-- Whatever the provider answers, a list that `paginated` returns has distinct positive identities in
-- the listing's identity field, if it has one, and was read by at least one request and at most
-- twenty.
pub paginated_distinct :
    (l : Listing) (w : World) (n m : ℕ) (rows : List Object)
    → paginated l w n ≡ ok (rows, m)
    → (ids : List ℕ) × AreNamed l.identity_field rows ids × IsNodup ids × (n < m) × (m ≤ n + 20)
unfolding paginated
paginated_distinct l w n m rows h =
    let start : IsDistinct l.identity_field (record { rows = []; identities = [] }) =
      begun l.identity_field in
    let r =
      read_pages-IsReturned 20 1 l (record { rows = []; identities = [] }) w n m rows start h in
    (r.ids, r.named, r.differ, r.sent, r.bounded)
  where
    begun : (f : Option String) → IsDistinct f (record { rows = []; identities = [] })
    begun none = record { named = tt; differ = tt }
    begun (some field) = record { named = refl; differ = tt }
