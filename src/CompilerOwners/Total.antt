-- ===== src/CompilerOwners/Total.antt =====
-- `_project_owners` as a whole, on what it needs of a projection.
use mathlib.Core.Path.{subst}
use mathlib.Core.List.{map-map}
use aros_toolchains.Prelude.{
  ℕ, ◌<◌, ◌^◌, ◌*◌, String, Bool, true, false, ◌||◌, not, List, [], ◌∷◌, some, ok, fold, require,
  Exception, origin_error, ◌==◌, contains, string_eq, pair_eq, list_eq, nat_eq, Dict, ◌≡◌, refl,
  arith, sym, ap, ◌∙◌, All, All-map, map, IsNodup, length, length-map, all, leb, ltb,
}
use aros_toolchains.Json.{Value, as_list, item}
use aros_toolchains.Text.Order.{string_ord}
use aros_toolchains.Sorted.{sort_by, sorted_set, pair_ord}
use aros_toolchains.Sorted.Length.{length-sorted_set, sort_by-IsNodup, sort_by-All, length-sort_by}
use aros_toolchains.ReleaseMatrix.{max_build_entries}
use aros_toolchains.ReleaseMatrix.Project.{BuildEntry, Projection}
use aros_toolchains.CompilerOwners.{
  Key, key_of, digest_input, Owner, owner_id, add_group, lane_key_of, project_owners,
}
use aros_toolchains.CompilerOwners.Names.{IsPlainKey}
use aros_toolchains.CompilerOwners.Digests.{digest_input-injective}
use aros_toolchains.CompilerOwners.Loop.{IsReady, identity, loop_total}

or_false : (a b : Bool) → a ≡ false → b ≡ false → (a || b) ≡ false
or_false a b h k = ground arith

or_false_left : (a b : Bool) → (a || b) ≡ false → a ≡ false
or_false_left a b h = ground arith

or_false_right : (a b : Bool) → (a || b) ≡ false → b ≡ false
or_false_right a b h = ground arith

all-All : {A : Type 0} (f : A → Bool) (xs : List A) → all f xs ≡ true → All (λ x. f x ≡ true) xs
all-All f [] h = tt
all-All f (x ∷ xs) h = (ground arith, all-All f xs (ground arith))

module _ (sha256 : List ℕ → String) where
  -- Two builds whose digests agree have one digest input.
  abbrev pub is_apart : BuildEntry → BuildEntry → Bool
  is_apart b c =
      not (owner_id sha256 (key_of b) == owner_id sha256 (key_of c))
      || digest_input (key_of b) == digest_input (key_of c)

  -- SHA-256 has no collision among the digest inputs of these builds.
  abbrev pub no_collision : List BuildEntry → Bool
  no_collision bs = all (λ b. all (is_apart b) bs) bs

  abbrev pub id_of : BuildEntry → String
  id_of b = owner_id sha256 (key_of b)

  apart-differ :
      (b c : BuildEntry)
      → IsPlainKey (key_of b)
      → IsPlainKey (key_of c)
      → is_apart b c ≡ true
      → (key_of b == key_of c) ≡ false
      → (id_of b == id_of c) ≡ false
  apart-differ b c f k a d = ground (arith, digest_input-injective (key_of b) (key_of c) f k)

  contains-id_of :
      (b : BuildEntry) (cs : List BuildEntry)
      → IsPlainKey (key_of b)
      → All (λ c. IsPlainKey (key_of c)) cs
      → All (λ c. is_apart b c ≡ true) cs
      → contains (map key_of cs) (key_of b) ≡ false
      → contains (map id_of cs) (id_of b) ≡ false
  contains-id_of b [] f k a d = refl
  contains-id_of b (c ∷ cs) f k a d =
      or_false (id_of b == id_of c) (contains (map id_of cs) (id_of b))
        (apart-differ b c f k.0 a.0 (or_false_left (key_of b == key_of c) _ d))
        (contains-id_of b cs f k.1 a.1 (or_false_right (key_of b == key_of c) _ d))

  ids-IsNodup :
      (bs : List BuildEntry)
      → All (λ c. IsPlainKey (key_of c)) bs
      → All (λ b. All (λ c. is_apart b c ≡ true) bs) bs
      → IsNodup (map key_of bs)
      → IsNodup (map id_of bs)
  ids-IsNodup [] k a d = tt
  ids-IsNodup (b ∷ bs) k a d =
      (contains-id_of b bs k.0 k.1 a.0.1 d.0, ids-IsNodup bs k.1 (All-map (λ c h. h.1) bs a.1) d.1)

-- What `_project_owners` needs of the projection.
pub record IsProjected (sha256 : List ℕ → String) (groups : Dict String (Dict String Value))
    (p : Projection) (run_id run_attempt : ℕ) (small_id : run_id < 10 ^ 16)
    (small_attempt : run_attempt < 10 ^ 16) : Type 0 where
  pub doubled : length p.build_matrix ≡ length p.verify_matrix * 2
  pub nonempty : ltb 0 (length p.build_matrix) ≡ true
  pub bounded : leb (length p.build_matrix) max_build_entries ≡ true
  pub ready : All (IsReady sha256 groups run_id run_attempt small_id small_attempt) p.build_matrix
  pub distinct : IsNodup (map key_of p.build_matrix)
  pub lanes_distinct : IsNodup (map lane_key_of p.verify_matrix)
  pub apart : no_collision sha256 p.build_matrix ≡ true

require_lem : (b : Bool) (e : Exception) → b ≡ true → require b e ≡ ok tt
require_lem b e h = ground arith

same_test : (m n : ℕ) → m ≡ n → (m == n) ≡ true
same_test m n h = ground arith

ids_of_identities :
    (os : List Owner) (bs : List BuildEntry) (sha256 : List ℕ → String)
    → map identity os ≡ map (λ b. (key_of b, id_of sha256 b)) bs
    → map (λ (o : Owner). o.owner_id) os ≡ map (id_of sha256) bs
ids_of_identities os bs sha256 h =
    sym (map-map (λ (i : Key × String). i.1) identity os)
    ∙ (ap (map (λ (i : Key × String). i.1)) h
        ∙ map-map (λ (i : Key × String). i.1) (λ b. (key_of b, id_of sha256 b)) bs)

pub owners_total :
    (sha256 : List ℕ → String) (plan : Dict String Value) (p : Projection) (run_id run_attempt : ℕ)
    (small_id : run_id < 10 ^ 16) (small_attempt : run_attempt < 10 ^ 16) (groups_value : Value)
    (values : List Value) (groups : Dict String (Dict String Value))
    → item plan "groups" ≡ ok groups_value
    → as_list groups_value ≡ some values
    → fold add_group [] values ≡ ok groups
    → IsProjected sha256 groups p run_id run_attempt small_id small_attempt
    → (owners : List Owner) × (project_owners sha256 plan p run_id run_attempt
        ≡ ok (owners, sorted_set (map lane_key_of p.verify_matrix)))
      × (map identity owners
          ≡ map (λ b. (key_of b, id_of sha256 b)) (sort_by key_of p.build_matrix))
      × IsNodup (map (λ (o : Owner). o.owner_id) owners)
unfolding project_owners
owners_total sha256 plan p run_id run_attempt small_id small_attempt groups_value values groups at
      is_list folded i =
    let sorted = sort_by key_of p.build_matrix in
    let ready =
      sort_by-All key_of (IsReady sha256 groups run_id run_attempt small_id small_attempt)
        p.build_matrix i.ready in
    let distinct = sort_by-IsNodup key_of p.build_matrix i.distinct in
    let loop =
      loop_total sha256 groups run_id run_attempt small_id small_attempt sorted
        (record { owners = []; owner_keys = [] }) ready distinct in
    let ids = ids_of_identities loop.0.owners sorted sha256 loop.2.identities in
    let plain =
      All-map (λ c (r : IsReady sha256 groups run_id run_attempt small_id small_attempt c). r.plain)
        sorted ready in
    let apart =
      sort_by-All key_of (λ b. All (λ c. is_apart sha256 b c ≡ true) sorted) p.build_matrix
        (All-map
          (λ b h.
            sort_by-All key_of (λ c. is_apart sha256 b c ≡ true) p.build_matrix
              (all-All (is_apart sha256 b) p.build_matrix h))
          p.build_matrix
          (all-All (λ b. all (is_apart sha256 b) p.build_matrix) p.build_matrix i.apart)) in
    let unique : IsNodup (map (λ (o : Owner). o.owner_id) loop.0.owners) =
      subst IsNodup (sym ids) (ids-IsNodup sha256 sorted plain apart distinct) in
    let keys_count : length loop.0.owner_keys ≡ length p.build_matrix =
      ap length loop.2.keys_of
      ∙ (length-map sorted key_of ∙ length-sort_by key_of p.build_matrix) in
    let lanes = sorted_set (map lane_key_of p.verify_matrix) in
    let lanes_length : length lanes ≡ length p.verify_matrix =
      length-sorted_set (map lane_key_of p.verify_matrix) i.lanes_distinct
      ∙ length-map p.verify_matrix lane_key_of in
    let lanes_count : length lanes * 2 ≡ length loop.0.owner_keys =
      ap (λ n. n * 2) lanes_length ∙ (sym i.doubled ∙ sym keys_count) in
    let ids_count : length (sorted_set (map (λ (o : Owner). o.owner_id) loop.0.owners))
        ≡ length loop.0.owners =
      length-sorted_set (map (λ (o : Owner). o.owner_id) loop.0.owners) unique
      ∙ length-map loop.0.owners (λ (o : Owner). o.owner_id) in
    (
      loop.0.owners,
      rw
          (
            at,
            is_list,
            folded,
            i.nonempty,
            i.bounded,
            loop.1,
            require_lem (length loop.0.owner_keys == length p.build_matrix)
                (origin_error
                  "native compiler owner matrix is not closed over the validated build projection")
                (same_test _ _ keys_count),
            require_lem (length lanes * 2 == length loop.0.owner_keys)
                (origin_error "native compiler owners do not contain exactly two copies per lane")
                (same_test _ _ lanes_count),
            require_lem
                (length (sorted_set (map (λ (o : Owner). o.owner_id) loop.0.owners))
                  == length loop.0.owners)
                (origin_error "native compiler owner identities are not unique")
                (same_test _ _ ids_count),
          )
          refl,
      loop.2.identities,
      unique,
    )
