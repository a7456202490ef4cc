-- ===== src/ReleaseMatrix/Lanes/Order.antt =====
-- The order of the lane loop: the rank of the group, of the profile in its group, and of the
-- host.
use mathlib.Core.Path.{subst, subst₂}
use aros_toolchains.Prelude.{
  String, Bool, true, false, List, [], ◌∷◌, ◌++◌, none, some, ok, fold, contains, string_eq, nat_eq,
  Dict, keys, lookup, insert, ◌≡◌, refl, >>=-eq-ok, arith, All, ap, Bool-cases, inl, inr, ◌∙◌,
  IsNodup, sym, All-append, All-map, fold-invariant, lookup-insert, IsNodup-snoc,
}
use aros_toolchains.Json.{Value}
use aros_toolchains.Sorted.Members.{Ascends, Ascends-append, Ascends-change}
use aros_toolchains.ReleaseMatrix.Lanes.{
  Lane, LaneState, Rank, rank_ltb, append_new, is_after, index_of, read_lane, add_lane,
  validate_lane, start,
}
use aros_toolchains.ReleaseMatrix.Lanes.Unique.{
  rank_of, after, add_lane-Accepts, is_declared, IsSound, validate_lane-IsSound, start-IsSound,
}

-- `d[g]`, with no profiles for a group that is not there
abbrev pub profiles_in : Dict String (List String) → String → List String
profiles_in d g = elim (lookup g d) [ none ↦ [] | some ps ↦ ps ]

-- The position of a lane by the groups and the profiles that are listed.
abbrev pub rank_in : List String → Dict String (List String) → Lane → Rank
rank_in group_ids d l = rank_of group_ids (profiles_in d l.group_id) l

-- `a` stands before `b` in producer order.
abbrev pub lane_ltb : List String → Dict String (List String) → Lane → Lane → Bool
lane_ltb group_ids d a b = rank_ltb (rank_in group_ids d a) (rank_in group_ids d b)

pub rank_ltb_irrefl : (a : Rank) → rank_ltb a a ≡ false
rank_ltb_irrefl (g, (p, h)) = ground arith

pub rank_ltb_trans :
    (a b c : Rank) → rank_ltb a b ≡ true → rank_ltb b c ≡ true → rank_ltb a c ≡ true
rank_ltb_trans (a, (b, c)) (d, (e, f)) (g, (h, i)) p q = ground arith

rank_ltb-of-eq : {a b c d : Rank} → a ≡ c → b ≡ d → rank_ltb c d ≡ true → rank_ltb a b ≡ true
rank_ltb-of-eq p q h = subst₂ (λ x y. rank_ltb x y ≡ true) (sym p) (sym q) h

-- The variables of the loop are in order.
pub record IsOrdered (group_ids : List String) (s : LaneState) : Type 0 where
  pub keyed : keys s.profiles_by_group ≡ group_ids
  pub unrepeated : All (λ (e : String × List String). IsNodup e.1) s.profiles_by_group
  pub ascends : Ascends (lane_ltb group_ids s.profiles_by_group) s.lanes
  -- what comes after the previous key comes after every lane
  pub reached :
      All
        (λ l.
          (k : Rank)
          → is_after k s.previous_key ≡ true
          → rank_ltb (rank_in group_ids s.profiles_by_group l) k ≡ true)
        s.lanes

keys-insert {ℓ} :
    {V : Type ℓ} (k : String) (v w : V) (d : Dict String V)
    → lookup k d ≡ some w
    → keys (insert k v d) ≡ keys d
keys-insert k v w [] h = cc
keys-insert k v w ((j, u) ∷ d) h = ground (arith, keys-insert k v w d)

All-insert {ℓ κ} :
    {V : Type ℓ} (P : String × V → Type κ) (k : String) (v : V) (d : Dict String V)
    → ((j : String) → P (j, v))
    → All P d
    → All P (insert k v d)
All-insert P k v [] p h = (p k, tt)
All-insert P k v ((j, u) ∷ d) p h = ground (arith, p j, All-insert P k v d p h.1)

All-lookup {ℓ κ} :
    {V : Type ℓ} (P : String × V → Type κ) (k : String) (v : V) (d : Dict String V)
    → All P d
    → lookup k d ≡ some v
    → P (k, v)
All-lookup P k v [] h e = cc
All-lookup P k v ((j, u) ∷ d) h e = ground (arith, All-lookup P k v d h.1)

index_of-append_new :
    (x y : String) (ps : List String)
    → contains ps y ≡ true
    → index_of y (append_new x ps) ≡ index_of y ps
index_of-append_new x y ps h = elim (Bool-cases (contains ps x)) [
  | inl old ↦ rw old refl
  | inr new ↦ rw new (index_of-append x y ps h)
]
  where
    index_of-append :
        (x y : String) (ps : List String)
        → contains ps y ≡ true
        → index_of y (ps ++ x ∷ []) ≡ index_of y ps
    index_of-append x y [] h = cc
    index_of-append x y (p ∷ ps) h = ground (arith, index_of-append x y ps)

append_new-IsNodup : (x : String) (ps : List String) → IsNodup ps → IsNodup (append_new x ps)
append_new-IsNodup x ps h = ground (arith, IsNodup-snoc ps x h)

module _ (group_ids : List String) (d : Dict String (List String)) (g x : String) (ps : List String)
    (listed : lookup g d ≡ some ps) where
  -- A lane whose profile is listed keeps its rank when a profile is listed behind the others.
  rank_in-keeps :
      (l : Lane)
      → is_declared d l ≡ true
      → rank_in group_ids (insert g (append_new x ps) d) l ≡ rank_in group_ids d l
  rank_in-keeps l h = ground (
    arith,
    lookup-insert l.group_id g (append_new x ps) d,
    index_of-append_new x l.target_profile ps,
  )

module _ (group_ids : List String) (s : LaneState) (l : Lane) (ps : List String)
    (sound : IsSound group_ids s) (ordered : IsOrdered group_ids s)
    (listed : lookup l.group_id s.profiles_by_group ≡ some ps)
    (next : is_after (rank_of group_ids (append_new l.target_profile ps) l) s.previous_key
      ≡ true) where
  abbrev now : Dict String (List String)
  now = (after group_ids s l ps).profiles_by_group

  kept :
      (m : Lane)
      → is_declared s.profiles_by_group m ≡ true
      → rank_in group_ids now m ≡ rank_in group_ids s.profiles_by_group m
  kept = rank_in-keeps group_ids s.profiles_by_group l.group_id l.target_profile ps listed

  rank_in-new : rank_in group_ids now l ≡ rank_of group_ids (append_new l.target_profile ps) l
  rank_in-new = ground (
    arith,
    lookup-insert l.group_id l.group_id (append_new l.target_profile ps) s.profiles_by_group,
  )

  -- The lanes before come before the new one.
  before :
      (m : Lane)
      → is_declared s.profiles_by_group m ≡ true
      → ((k : Rank)
          → is_after k s.previous_key ≡ true
          → rank_ltb (rank_in group_ids s.profiles_by_group m) k ≡ true)
      → lane_ltb group_ids now m l ≡ true
  before m e r = rank_ltb-of-eq (kept m e) rank_in-new (r _ next)

  All-before :
      (ms : List Lane)
      → All (λ m. is_declared s.profiles_by_group m ≡ true) ms
      → All
          (λ m.
            (k : Rank)
            → is_after k s.previous_key ≡ true
            → rank_ltb (rank_in group_ids s.profiles_by_group m) k ≡ true)
          ms
      → All (λ m. lane_ltb group_ids now m l ≡ true) ms
  All-before [] e r = tt
  All-before (m ∷ ms) e r = (before m e.0 r.0, All-before ms e.1 r.1)

  after-IsOrdered : IsOrdered group_ids (after group_ids s l ps)
  after-IsOrdered = record {
    keyed = keys-insert l.group_id _ ps s.profiles_by_group listed ∙ ordered.keyed;
    unrepeated =
        All-insert _ l.group_id _ s.profiles_by_group
          (λ _.
            append_new-IsNodup l.target_profile ps
              (All-lookup _ l.group_id ps s.profiles_by_group ordered.unrepeated listed))
          ordered.unrepeated;
    ascends =
        Ascends-append (lane_ltb group_ids now) s.lanes (l ∷ [])
          (Ascends-change (lane_ltb group_ids s.profiles_by_group) (lane_ltb group_ids now)
            (λ m. is_declared s.profiles_by_group m ≡ true)
            (λ a b p q h. rank_ltb-of-eq (kept a p) (kept b q) h) s.lanes sound.declared
            ordered.ascends)
          (tt, tt)
          (All-map (λ m h. (h, tt)) s.lanes (All-before s.lanes sound.declared ordered.reached));
    reached =
        All-append _ s.lanes (l ∷ [])
          (All-map (λ m h k later. rank_ltb_trans _ _ k h (rank_ltb-of-eq rank_in-new refl later))
            s.lanes (All-before s.lanes sound.declared ordered.reached))
          (λ k later. rank_ltb-of-eq rank_in-new refl later, tt);
  }

keys-start : (group_ids : List String) → keys (start group_ids).profiles_by_group ≡ group_ids
keys-start [] = refl
keys-start (g ∷ gs) = ap (λ r. g ∷ r) (keys-start gs)

unrepeated-start :
    (group_ids : List String)
    → All (λ (e : String × List String). IsNodup e.1) (start group_ids).profiles_by_group
unrepeated-start [] = tt
unrepeated-start (g ∷ gs) = (tt, unrepeated-start gs)

start-IsOrdered : (group_ids : List String) → IsOrdered group_ids (start group_ids)
start-IsOrdered group_ids = record {
  keyed = keys-start group_ids;
  unrepeated = unrepeated-start group_ids;
  ascends = tt;
  reached = tt;
}

-- Both invariants, which the loop keeps together.
abbrev pub IsGood : List String → LaneState → Type 0
IsGood group_ids s = IsSound group_ids s × IsOrdered group_ids s

validate_lane-IsGood :
    (group_ids : List String) (s : LaneState) (v : Value) (t : LaneState)
    → IsGood group_ids s
    → validate_lane group_ids s v ≡ ok t
    → IsGood group_ids t
unfolding validate_lane
validate_lane-IsGood group_ids s v t (h, k) e =
    let (l, one, two) = >>=-eq-ok (read_lane group_ids v) (add_lane group_ids s) e in
    let a = add_lane-Accepts group_ids s l t two in
    (
      validate_lane-IsSound group_ids s v t h e,
      subst (IsOrdered group_ids) (sym a.result)
          (after-IsOrdered group_ids s l a.declared h k a.listed a.next),
    )

pub lanes-IsGood :
    (group_ids : List String) (values : List Value) (t : LaneState)
    → fold (validate_lane group_ids) (start group_ids) values ≡ ok t
    → IsGood group_ids t
lanes-IsGood group_ids values t e =
    fold-invariant (IsGood group_ids) (validate_lane group_ids) (validate_lane-IsGood group_ids)
      (start group_ids) values t (start-IsSound group_ids, start-IsOrdered group_ids) e
