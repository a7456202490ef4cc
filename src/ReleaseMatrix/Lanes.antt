-- ===== src/ReleaseMatrix/Lanes.antt =====
-- `_validate_plan`: the loop over the lanes, and the check that every declared profile is crossed
-- with every active host.
pub mod Unique
pub mod Order
pub mod Count
pub mod Crossing
use aros_toolchains.Prelude.{
  ℕ, suc, String, Bool, true, false, ◌&&◌, ◌||◌, not, if◌then◌else◌, List, [], ◌∷◌, ◌++◌, Option,
  none, some, Result, ok, raise, plan_error, refuse, require, fold, for_each, ◌>>=◌, ◌>>◌, ◌==◌,
  contains, string_eq, list_eq, pair_eq, nat_eq, Dict, lookup, insert, map, keep, length, leb, ltb,
}
use aros_toolchains.Json.{Value, as_str, as_list, as_nat, item, or_raise}
use aros_toolchains.ReleaseMatrix.{
  active_hosts, lane_fields, require_exact_fields, require_safe_id, require_profile_id,
}

pub record Lane : Type 0 where
  pub group_id : String
  pub host : String
  pub target_profile : String

-- `(group_id, host, profile)`
abbrev pub lane_key : Lane → String × (String × String)
lane_key l = (l.group_id, (l.host, l.target_profile))

-- A position in producer order: the ranks of the group, of the profile in its group, of the host.
abbrev pub Rank : Type 0
Rank = ℕ × (ℕ × ℕ)

-- `a < b` on such tuples
abbrev pub rank_ltb : Rank → Rank → Bool
rank_ltb (g, (p, h)) (g', (p', h')) = ltb g g' || (g == g' && (ltb p p' || (p == p' && ltb h h')))

-- The position of the first `x`, the length of the list if there is none.
abbrev pub index_of : String → List String → ℕ
index_of x [] = 0
index_of x (y ∷ ys) = let rest = index_of x ys in if x == y then 0 else suc rest

-- The variables that the loop carries.
pub record LaneState : Type 0 where
  pub lanes : List Lane
  pub profiles_by_group : Dict String (List String)
  pub profile_owners : Dict String String
  pub previous_key : Option Rank
  pub seen_lanes : List (String × (String × String))

-- `d.setdefault(k, v)`: the value of `k` afterwards, and the dict
abbrev pub set_default : String → String → Dict String String → String × Dict String String
set_default k v d = elim (lookup k d) [ none ↦ (v, insert k v d) | some w ↦ (w, d) ]

-- `if x not in xs: xs.append(x)`
abbrev pub append_new : String → List String → List String
append_new x xs = if contains xs x then xs else xs ++ x ∷ []

abbrev pub is_after : Rank → Option Rank → Bool
is_after key none = true
is_after key (some previous) = rank_ltb previous key

-- The lane that a value states, with its group and host known.
unfoldable pub read_lane : List String → Value → Result Lane
unfolding require_exact_fields require_safe_id require_profile_id
read_lane group_ids lane_value = do
  lane ← require_exact_fields lane_value lane_fields "lane"
  group_id_value ← item lane "group_id"
  group_id ← require_safe_id group_id_value "lane group ID"
  host_value ← item lane "host"
  require (contains group_ids group_id) (plan_error "lane refers to an unknown group")
  host ← or_raise (as_str host_value) (plan_error "lane refers to an unknown host")
  require (contains active_hosts host) (plan_error "lane refers to an unknown host")
  profile_value ← item lane "target_profile"
  profile ← require_profile_id profile_value
  ok (record { group_id = group_id; host = host; target_profile = profile })

-- The rest of the round: the lane is new, its profile has one owner, and it comes next.
unfoldable pub add_lane : List String → LaneState → Lane → Result LaneState
add_lane group_ids s lane = do
  refuse (contains s.seen_lanes (lane_key lane)) (plan_error "plan contains a duplicate lane")
  let owners = set_default lane.target_profile lane.group_id s.profile_owners
  refuse (not (owners.0 == lane.group_id))
      (plan_error "target profile IDs must have one group owner")
  declared ← item s.profiles_by_group lane.group_id
  let profiles = append_new lane.target_profile declared
  let key : Rank = (
    index_of lane.group_id group_ids,
    (index_of lane.target_profile profiles, index_of lane.host active_hosts),
  )
  require (is_after key s.previous_key) (plan_error "plan lanes are not sorted in producer order")
  ok (record {
    lanes = s.lanes ++ lane ∷ [];
    profiles_by_group = insert lane.group_id profiles s.profiles_by_group;
    profile_owners = owners.1;
    previous_key = some key;
    seen_lanes = s.seen_lanes ++ lane_key lane ∷ [];
  })

-- One round of the loop over `plan["lanes"]`.
unfoldable pub validate_lane : List String → LaneState → Value → Result LaneState
unfolding read_lane add_lane
validate_lane group_ids s lane_value = do
  lane ← read_lane group_ids lane_value
  add_lane group_ids s lane

abbrev pub start : List String → LaneState
start group_ids = record {
  lanes = [];
  profiles_by_group = map (λ g. (g, [])) group_ids;
  profile_owners = [];
  previous_key = none;
  seen_lanes = [];
}

-- The hosts of the lanes of one profile of one group, in order.
abbrev pub hosts_of : String → String → List Lane → List String
hosts_of group_id profile lanes =
    map (λ (l : Lane). l.host)
      (keep (λ (l : Lane). l.group_id == group_id && l.target_profile == profile) lanes)

-- Every profile of the group has a lane on each active host, in their order.
unfoldable pub check_profile : List Lane → String → String → Result (Unit {0})
check_profile lanes group_id profile =
    require (hosts_of group_id profile lanes == active_hosts)
      (plan_error "each declared profile must be crossed with every active host")

unfoldable pub check_group : List Lane → String × List String → Result (Unit {0})
unfolding check_profile
check_group lanes (group_id, profiles) = do
  refuse (profiles == []) (plan_error "every group must declare at least one profile lane")
  for_each (check_profile lanes group_id) profiles

-- The lanes of a plan, with `lane_count`.
unfoldable pub validate_lanes : List String → Value → Value → Result (ℕ × LaneState)
unfolding validate_lane check_group
validate_lanes group_ids lanes_value lane_count_value = do
  values ← or_raise (as_list lanes_value) (plan_error "plan lanes must be a nonempty array")
  require (leb 1 (length values)) (plan_error "plan lanes must be a nonempty array")
  lane_count ←
      or_raise (as_nat lane_count_value)
        (plan_error "plan lane count does not match the lane array")
  require (lane_count == length values) (plan_error "plan lane count does not match the lane array")
  s ← fold (validate_lane group_ids) (start group_ids) values
  for_each (check_group s.lanes) s.profiles_by_group
  ok (lane_count, s)
