-- ===== src/ReleaseAdmission/Pages/Complete.antt =====
-- What `paginated` returns of a list that the provider serves in pages.
pub mod Named
use mathlib.Core.Path.{subst}
use mathlib.Core.List.{append_assoc, append-nil}
use aros_toolchains.Prelude.{
  ℕ, zero, suc, ◌+◌, ◌-◌, ◌*◌, ◌/◌, ◌≤◌, ◌<◌, String, Bool, true, false, not, ◌&&◌, if◌then◌else◌,
  List, [], ◌∷◌, ◌++◌, Option, none, some, Result, ok, raise, admission_error, fold, ◌<>◌, nat_eq,
  contains, contains-append, IsNodup, ltb, length, length-map, map, take, drop, take-append-drop,
  length-drop, take_short, length-take_long, drop-drop, ◌≡◌, refl, sym, ap, ◌∙◌, arith, Bool-cases,
  inl, inr,
}
use aros_toolchains.Json.{entries-to_members, elements-to_elements, Value, array, object, get}
use aros_toolchains.ReleaseAdmission.Checks.{Object, page_size, positive_number, required_object}
use aros_toolchains.ReleaseAdmission.Session.{
  World, answered, api, send, is_repository_path, is_governance_path,
}
use aros_toolchains.ReleaseAdmission.Pages.{
  Rows, Listing, identify, identities_with, add_item, page_values, page_list, page_path, read_pages,
  paginated,
}
use aros_toolchains.ReleaseAdmission.Pages.Complete.Named.{
  AreNamed, AreNew, AreNamed-AreNew, fold_new,
}

-- The objects have the positive identities `ids` in the field, if there is one.
-- The answer has the objects in a list, itself or its field.
abbrev pub IsPage : Option String → Value → List Object → Type 0
IsPage none response items = response ≡ array (map object items)
IsPage (some field) response items =
    (body : Object) × (response ≡ object body) × (get body field ≡ array (map object items))

-- The request of the number `n` for this page is allowed, and its answer has the objects.
pub record IsServed (w : World) (n page : ℕ) (l : Listing) (items : List Object) : Type 0 where
  pub allowed : is_repository_path (page_path l.endpoint page) ≡ true
  pub governed : (l.governance && not (is_governance_path (page_path l.endpoint page))) ≡ false
  pub response : Value
  pub answer : w.reply n (page_path l.endpoint page) ≡ answered response
  pub holds : IsPage l.array_field response items

-- From the request `n` and this page on, the provider serves the objects in pages of a hundred.
pub record Serves (w : World) (n page : ℕ) (l : Listing) (items : List Object) : Type 0 where
  pub pages :
      (k : ℕ)
      → 100 * k ≤ length items
      → IsServed w (n + k) (page + k) l (take 100 (drop (100 * k) items))

api_served :
    (w : World) (n page : ℕ) (l : Listing) (items : List Object)
    (served : IsServed w n page l items)
    → api (page_path l.endpoint page) false l.governance w n ≡ ok (served.response, suc n)
unfolding api send
api_served w n page l items served = rw (served.allowed, served.governed, served.answer) refl

page_values_served :
    (endpoint : String) (f : Option String) (response : Value) (items : List Object)
    → IsPage f response items
    → page_values endpoint f response ≡ ok (map object items)
unfolding page_values page_list required_object
page_values_served endpoint none response items h =
    rw h (ap ok (elements-to_elements (map object items)))
page_values_served endpoint (some field) response items (body, e, h) =
    rw e (rw (entries-to_members body) (rw h (ap ok (elements-to_elements (map object items)))))

abbrev too_many : Listing → Result (List Object × ℕ)
too_many l =
    raise (admission_error ("GitHub GET pagination exceeds the page limit for " <> l.endpoint))

-- One round, whatever follows it.
read_pages_step :
    (rounds n page : ℕ) (w : World) (l : Listing) (s t : Rows) (items : List Object)
    → IsServed w n page l items
    → fold (add_item l.endpoint l.identity_field) s (map object items) ≡ ok t
    → read_pages (suc rounds) page l s w n ≡ (
        if ltb (length (map object items)) page_size
        then ok (t.rows, suc n)
        else read_pages rounds (page + 1) l t w (suc n))
unfolding read_pages
read_pages_step rounds n page w l s t items served run = rw (api_served w n page l items served) (
    rw (page_values_served l.endpoint l.array_field served.response items served.holds)
      (rw run refl))

Serves-first :
    {w : World} {n page : ℕ} {l : Listing} {items : List Object}
    → Serves w n page l items
    → IsServed w n page l (take 100 items)
Serves-first {w} {n} {page} {l} {items} h =
    subst (λ m. IsServed w m page l (take 100 items)) (let e : n + 0 ≡ n = omega arith in e)
      (subst (λ p. IsServed w (n + 0) p l (take 100 items))
        (let e : page + 0 ≡ page = omega arith in e) (h.pages 0 (omega arith)))

Serves-rest :
    {w : World} {n page : ℕ} {l : Listing} {items : List Object}
    → Serves w n page l items
    → 100 ≤ length items
    → Serves w (suc n) (page + 1) l (drop 100 items)
Serves-rest {w} {n} {page} {l} {items} h long = record {
  pages = λ k fits.
      let at : 100 * (k + 1) ≤ length items = omega (arith, length-drop 100 items) in
      let rest : drop (100 * (k + 1)) items ≡ drop (100 * k) (drop 100 items) =
        ap (λ m. drop m items) (let e : 100 * (k + 1) ≡ 100 + 100 * k = omega arith in e)
        ∙ sym (drop-drop 100 (100 * k) items) in
      subst (λ m. IsServed w m ((page + 1) + k) l (take 100 (drop (100 * k) (drop 100 items))))
        (let e : n + (k + 1) ≡ suc n + k = omega arith in e)
        (subst (λ p. IsServed w (n + (k + 1)) p l (take 100 (drop (100 * k) (drop 100 items))))
          (let e : page + (k + 1) ≡ (page + 1) + k = omega arith in e)
          (subst (λ xs. IsServed w (n + (k + 1)) (page + (k + 1)) l (take 100 xs)) rest
            (h.pages (k + 1) at)));
}

abbrev outcome : ℕ → ℕ → ℕ → Listing → List Object → Result (List Object × ℕ)
outcome bound count n l items =
    if ltb count bound then ok (items, n + count / 100 + 1) else too_many l

outcome_short :
    (bound count n : ℕ) (l : Listing) (items : List Object)
    → count < 100
    → 100 ≤ bound
    → outcome bound count n l items ≡ ok (items, suc n)
outcome_short bound count n l items h k = ground arith

outcome_later :
    (bound count n : ℕ) (l : Listing) (items : List Object)
    → 100 ≤ count
    → outcome bound (count - 100) (suc n) l items ≡ outcome (bound + 100) count n l items
outcome_later bound count n l items h = ground arith

read_pages_none :
    (n page : ℕ) (w : World) (l : Listing) (s : Rows) (items : List Object)
    → read_pages 0 page l s w n ≡ outcome 0 (length items) n l (s.rows ++ items)
unfolding read_pages
read_pages_none n page w l s items = ground arith

ltb_intro : (a b : ℕ) → a < b → ltb a b ≡ true
ltb_intro a b h = ground arith

ltb_elim : (a b : ℕ) → ltb a b ≡ true → a < b
ltb_elim a b h = ground arith

ltb_elim_false : (a b : ℕ) → ltb a b ≡ false → b ≤ a
ltb_elim_false a b h = ground arith

branch {ℓ} :
    {A : Type ℓ} {b c : Bool} (x y : A) → b ≡ c → (if b then x else y) ≡ (if c then x else y)
branch x y h = rw h refl

-- What the rounds that are left return of the objects that are left.
read_pages_served :
    (rounds n page : ℕ) (w : World) (l : Listing) (s : Rows) (items : List Object)
    → AreNew l.identity_field s.identities items
    → Serves w n page l items
    → read_pages rounds page l s w n ≡ outcome (100 * rounds) (length items) n l (s.rows ++ items)
read_pages_served zero n page w l s items new served = read_pages_none n page w l s items
read_pages_served (suc rounds) n page w l s items new served =
    let whole = take-append-drop 100 items in
    let split : AreNew l.identity_field s.identities (take 100 items ++ drop 100 items) =
      subst (AreNew l.identity_field s.identities) (sym whole) new in
    let (t, run, kept, rest) =
      fold_new l.endpoint l.identity_field s (take 100 items) (drop 100 items) split in
    let step = read_pages_step rounds n page w l s t (take 100 items) (Serves-first served) run in
    let counted = length-map (take 100 items) object in
    elim (Bool-cases (ltb (length items) 100)) [
      | inl few ↦
          let short = take_short 100 items (ltb_elim (length items) 100 few) in
          step
          ∙ (branch (ok (t.rows, suc n)) (read_pages rounds (page + 1) l t w (suc n))
                (ap (λ c. ltb c page_size) (counted ∙ ap length short) ∙ few)
              ∙ (ap (λ r. ok (r, suc n)) (kept ∙ ap (λ xs. s.rows ++ xs) short)
                  ∙ sym (
                      outcome_short (100 * suc rounds) (length items) n l (s.rows ++ items)
                        (ltb_elim (length items) 100 few) (omega arith))))
      | inr more ↦
          let long = ltb_elim_false (length items) 100 more in
          let full : length (take 100 items) ≡ 100 = length-take_long 100 items long in
          step
          ∙ (branch (ok (t.rows, suc n)) (read_pages rounds (page + 1) l t w (suc n))
                (ap (λ c. ltb c page_size) (counted ∙ full))
              ∙ (read_pages_served rounds (suc n) (page + 1) w l t (drop 100 items) rest
                    (Serves-rest served long)
                  ∙ (ap (λ c. outcome (100 * rounds) c (suc n) l (t.rows ++ drop 100 items))
                        (length-drop 100 items)
                      ∙ (ap (outcome (100 * rounds) (length items - 100) (suc n) l) (
                            ap (λ r. r ++ drop 100 items) kept
                            ∙ (append_assoc s.rows (take 100 items) (drop 100 items)
                                ∙ ap (λ xs. s.rows ++ xs) whole))
                          ∙ (outcome_later (100 * rounds) (length items) n l (s.rows ++ items) long
                              ∙ ap (λ b. outcome b (length items) n l (s.rows ++ items))
                                  (let e : 100 * rounds + 100 ≡ 100 * suc rounds = omega arith in
                                    e))))))
    ]

-- Where the provider answers the requests from number `n` on with the pages of a list of objects,
-- a hundred to a page and the last one shorter, and where the objects have distinct positive
-- identities in the listing's identity field, if it has one: with fewer than 2000 objects
-- `paginated` returns all of them in their order, and has then sent one request more than there are
-- full pages; with 2000 or more it raises, and returns no part of the list.
pub paginated_complete :
    (w : World) (n : ℕ) (l : Listing) (items : List Object) (ids : List ℕ)
    → AreNamed l.identity_field items ids
    → IsNodup ids
    → Serves w n 1 l items
    → paginated l w n ≡ (
        if ltb (length items) 2000
        then ok (items, n + length items / 100 + 1)
        else raise
            (admission_error ("GitHub GET pagination exceeds the page limit for " <> l.endpoint)))
unfolding paginated
paginated_complete w n l items ids named distinct served =
    read_pages_served 20 n 1 w l (record { rows = []; identities = [] }) items
      (AreNamed-AreNew l.identity_field [] items ids named distinct) served
