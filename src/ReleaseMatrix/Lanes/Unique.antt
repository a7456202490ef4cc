-- ===== src/ReleaseMatrix/Lanes/Unique.antt =====
-- One accepted round of the lane loop, and the invariant of its variables.
use mathlib.Core.Path.{subst}
use mathlib.Core.List.{map-append}
use aros_toolchains.Prelude.{
  String, Bool, true, false, List, [], ◌∷◌, ◌++◌, none, some, ok, fold, ◌==◌, contains, string_eq,
  list_eq, pair_eq, nat_eq, Dict, lookup, insert, map, ◌≡◌, refl, >>=-eq-ok, require-eq-ok,
  refuse-eq-ok, ok-injective, arith, All, IsNodup, sym, All-append, All-map, IsNodup-snoc,
  fold-invariant, contains-append, lookup-insert,
}
use aros_toolchains.Json.{Value, item}
use aros_toolchains.ReleaseMatrix.{
  active_hosts, is_safe_id, is_profile_id, require_safe_id, require_profile_id,
}
use aros_toolchains.ReleaseMatrix.Lanes.{
  Lane, LaneState, lane_key, Rank, set_default, append_new, is_after, index_of, read_lane, add_lane,
  validate_lane, start,
}

-- The position of a lane, given the profiles of its group.
abbrev pub rank_of : List String → List String → Lane → Rank
rank_of group_ids profiles l = (
  index_of l.group_id group_ids,
  (index_of l.target_profile profiles, index_of l.host active_hosts),
)

-- The state after a round that accepts `l`, where `declared` are the profiles of its group before.
abbrev pub after : List String → LaneState → Lane → List String → LaneState
after group_ids s l declared =
    let profiles = append_new l.target_profile declared in
    record {
      lanes = s.lanes ++ l ∷ [];
      profiles_by_group = insert l.group_id profiles s.profiles_by_group;
      profile_owners = (set_default l.target_profile l.group_id s.profile_owners).1;
      previous_key = some (rank_of group_ids profiles l);
      seen_lanes = s.seen_lanes ++ lane_key l ∷ [];
    }

pub record Accepts (group_ids : List String) (s : LaneState) (l : Lane) (t : LaneState)
    : Type 0 where
  pub declared : List String
  pub fresh : contains s.seen_lanes (lane_key l) ≡ false
  pub owned : ((set_default l.target_profile l.group_id s.profile_owners).0 == l.group_id) ≡ true
  pub listed : lookup l.group_id s.profiles_by_group ≡ some declared
  pub next :
      is_after (rank_of group_ids (append_new l.target_profile declared) l) s.previous_key ≡ true
  pub result : t ≡ after group_ids s l declared

item-eq-ok {ℓ} :
    {V : Type ℓ} (d : Dict String V) (k : String) {v : V} → item d k ≡ ok v → lookup k d ≡ some v
item-eq-ok d k h = ground arith

pub add_lane-Accepts :
    (group_ids : List String) (s : LaneState) (l : Lane) (t : LaneState)
    → add_lane group_ids s l ≡ ok t
    → Accepts group_ids s l t
unfolding add_lane
add_lane-Accepts group_ids s l t h =
    let (fresh, h1) = refuse-eq-ok _ _ _ h in
    let (owned, h2) = refuse-eq-ok _ _ _ h1 in
    let (declared, listed, h3) = >>=-eq-ok (item s.profiles_by_group l.group_id) _ h2 in
    let (next, h4) = require-eq-ok _ _ _ h3 in
    record {
      declared = declared;
      fresh = fresh;
      owned = ground arith;
      listed = item-eq-ok _ _ listed;
      next = next;
      result = sym (ok-injective h4);
    }

-- The lane names a group of the plan and an active host.
pub record IsKnown (group_ids : List String) (l : Lane) : Type 0 where
  pub group : contains group_ids l.group_id ≡ true
  pub host : contains active_hosts l.host ≡ true
  pub safe_group : is_safe_id l.group_id ≡ true
  pub safe_profile : is_profile_id l.target_profile ≡ true

read_lane-IsKnown :
    (group_ids : List String) (v : Value) (l : Lane)
    → read_lane group_ids v ≡ ok l
    → IsKnown group_ids l
unfolding read_lane require_safe_id require_profile_id
read_lane-IsKnown group_ids v l h = ground arith

-- Whether the dict lists this profile under this group.
abbrev pub is_declared : Dict String (List String) → Lane → Bool
is_declared d l = elim (lookup l.group_id d) [
  | none ↦ false
  | some profiles ↦ contains profiles l.target_profile
]

-- What the loop keeps true of its variables.
pub record IsSound (group_ids : List String) (s : LaneState) : Type 0 where
  pub seen : s.seen_lanes ≡ map lane_key s.lanes
  pub distinct : IsNodup s.seen_lanes
  pub known : All (IsKnown group_ids) s.lanes
  pub owned : All (λ (l : Lane). lookup l.target_profile s.profile_owners ≡ some l.group_id) s.lanes
  pub declared : All (λ l. is_declared s.profiles_by_group l ≡ true) s.lanes

set_default-keeps :
    (p g j w : String) (d : Dict String String)
    → lookup j d ≡ some w
    → lookup j (set_default p g d).1 ≡ some w
set_default-keeps p g j w d h = ground (arith, lookup-insert j p g d)

lookup-set_default :
    (p g : String) (d : Dict String String)
    → lookup p (set_default p g d).1 ≡ some (set_default p g d).0
lookup-set_default p g d = ground (arith, lookup-insert p p g d)

append_new-keeps :
    (x y : String) (xs : List String) → contains xs y ≡ true → contains (append_new x xs) y ≡ true
append_new-keeps x y xs h = ground (arith, contains-append xs (x ∷ []) y)

contains-append_new : (x : String) (xs : List String) → contains (append_new x xs) x ≡ true
contains-append_new x xs = ground (arith, contains-append xs (x ∷ []) x)

is_declared-keeps :
    (d : Dict String (List String)) (g x : String) (ps : List String) (l : Lane)
    → lookup g d ≡ some ps
    → is_declared d l ≡ true
    → is_declared (insert g (append_new x ps) d) l ≡ true
is_declared-keeps d g x ps l h k =
    ground (
      arith,
      lookup-insert l.group_id g (append_new x ps) d,
      append_new-keeps x l.target_profile ps,
    )

after-IsSound :
    (group_ids : List String) (s : LaneState) (l : Lane) (declared : List String)
    → IsSound group_ids s
    → IsKnown group_ids l
    → contains s.seen_lanes (lane_key l) ≡ false
    → ((set_default l.target_profile l.group_id s.profile_owners).0 == l.group_id) ≡ true
    → lookup l.group_id s.profiles_by_group ≡ some declared
    → IsSound group_ids (after group_ids s l declared)
after-IsSound group_ids s l declared h known fresh owned listed = record {
  seen = rw (h.seen, map-append) refl;
  distinct = IsNodup-snoc s.seen_lanes (lane_key l) h.distinct fresh;
  known = All-append (IsKnown group_ids) s.lanes (l ∷ []) h.known (known, tt);
  owned =
      All-append _ s.lanes (l ∷ [])
        (All-map
          (λ m e. set_default-keeps l.target_profile l.group_id m.target_profile m.group_id _ e)
          s.lanes h.owned)
        (ground (arith, lookup-set_default l.target_profile l.group_id s.profile_owners), tt);
  declared =
      All-append _ s.lanes (l ∷ [])
        (All-map (λ m e. is_declared-keeps _ l.group_id l.target_profile declared m listed e)
          s.lanes h.declared)
        (
          ground (
            arith,
            lookup-insert l.group_id l.group_id (append_new l.target_profile declared)
                s.profiles_by_group,
            contains-append_new l.target_profile declared,
          ),
          tt,
        );
}

pub start-IsSound : (group_ids : List String) → IsSound group_ids (start group_ids)
start-IsSound group_ids = record {
  seen = refl;
  distinct = tt;
  known = tt;
  owned = tt;
  declared = tt;
}

pub validate_lane-IsSound :
    (group_ids : List String) (s : LaneState) (v : Value) (t : LaneState)
    → IsSound group_ids s
    → validate_lane group_ids s v ≡ ok t
    → IsSound group_ids t
unfolding validate_lane
validate_lane-IsSound group_ids s v t h e =
    let (l, one, two) = >>=-eq-ok (read_lane group_ids v) (add_lane group_ids s) e in
    let a = add_lane-Accepts group_ids s l t two in
    subst (IsSound group_ids) (sym a.result) (
      after-IsSound group_ids s l a.declared h (read_lane-IsKnown group_ids v l one) a.fresh a.owned
        a.listed)

-- The loop over any list of lane values, if it ends, has kept the invariant.
pub lanes-IsSound :
    (group_ids : List String) (values : List Value) (t : LaneState)
    → fold (validate_lane group_ids) (start group_ids) values ≡ ok t
    → IsSound group_ids t
lanes-IsSound group_ids values t e =
    fold-invariant (IsSound group_ids) (validate_lane group_ids) (validate_lane-IsSound group_ids)
      (start group_ids) values t (start-IsSound group_ids) e
