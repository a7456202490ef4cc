-- ===== src/ReleaseMatrix/Plan/Grid.antt =====
-- What an accepted plan says of its lanes.
use aros_toolchains.Prelude.{
  ℕ, String, true, false, not, List, [], ok, fold, ◌==◌, contains, IsNodup, All, All-map, map,
  pair_eq, string_eq, list_eq, Dict, keys, length, ◌<◌, ◌≡◌, sym, ap, ◌∙◌, >>=-eq-ok, >>=-ok,
  require-eq-ok, refuse-eq-ok, ok-injective, arith,
}
use mathlib.Core.Path.{subst}
use aros_toolchains.Json.{Value, as_list, item, or_raise}
use aros_toolchains.Sorted.{ascends, ascends-IsNodup, sorted_set, sorted_set-eq_iff}
use aros_toolchains.Text.Order.{string_ord}
use aros_toolchains.ReleaseMatrix.{active_hosts, top_level_fields, require_exact_fields}
use aros_toolchains.ReleaseMatrix.References.{GroupState, validate_group, validate_groups}
use aros_toolchains.ReleaseMatrix.Lanes.{Lane, LaneState, lane_key, validate_lanes}
use aros_toolchains.ReleaseMatrix.Lanes.Crossing.{lanes-eq-crossing, validate_lanes-Checked}
use aros_toolchains.ReleaseMatrix.Lanes.Crossing.Grid.{crossing}
use aros_toolchains.ReleaseMatrix.Lanes.Unique.{lanes-IsSound, IsKnown}
use aros_toolchains.ReleaseMatrix.Lanes.Count.{lanes-length}
use aros_toolchains.ReleaseMatrix.Sdks.{validate_sdks}
use aros_toolchains.ReleaseMatrix.Plan.{Expected, Validated, validate_plan, validate_header}

-- The group identifiers of an accepted plan strictly ascend.
validate_groups-ascends :
    (v : Value) (s : GroupState) → validate_groups v ≡ ok s → ascends s.group_ids ≡ true
unfolding validate_groups
validate_groups-ascends v s h =
    let (groups, e0, h0) = >>=-eq-ok (or_raise (as_list v) _) _ h in
    let (bounded, h1) = require-eq-ok _ _ _ h0 in
    let (t, e1, h2) =
      >>=-eq-ok (fold validate_group (record { group_ids = []; used_files = [] }) groups) _ h1 in
    let (sorted, h3) = refuse-eq-ok _ _ _ h2 in
    subst (λ (r : GroupState). ascends r.group_ids ≡ true) (ok-injective h3)
      ((sorted_set-eq_iff t.group_ids).0
        (sym (not-false t.group_ids (sorted_set t.group_ids) sorted)))
  where
    not-false : (xs ys : List String) → not (xs == ys) ≡ false → xs ≡ ys
    not-false xs ys k = ground arith

-- The parts that `validate_plan` puts together.
pub record Parts (plan : Value) (v : Validated) : Type 0 where
  pub dict : Dict String Value
  pub groups : GroupState
  pub groups_value : Value
  pub lanes_value : Value
  pub lane_count_value : Value
  pub state : LaneState
  pub is_dict : require_exact_fields plan top_level_fields "plan" ≡ ok dict
  pub at_groups : item dict "groups" ≡ ok groups_value
  pub accepted_groups : validate_groups groups_value ≡ ok groups
  pub accepted_lanes :
      validate_lanes groups.group_ids lanes_value lane_count_value ≡ ok (v.lane_count, state)
  pub same_groups : groups.group_ids ≡ v.group_ids
  pub same_lanes : state.lanes ≡ v.lanes

pub validate_plan-Parts :
    (plan : Value) (expected : Expected) (v : Validated)
    → validate_plan plan expected ≡ ok v
    → Parts plan v
unfolding validate_plan
validate_plan-Parts plan expected v h =
    >>=-ok (require_exact_fields plan top_level_fields "plan") _ h λ value e0 h0.
      >>=-ok (validate_header value expected) _ h0 λ _ _ h1.
        >>=-ok (item value "groups") _ h1 λ groups_value e2 h2.
          >>=-ok (validate_groups groups_value) _ h2 λ groups e3 h3.
            >>=-ok (item value "lanes") _ h3 λ lanes_value _ h4.
              >>=-ok (item value "lane_count") _ h4 λ lane_count_value _ h5.
                >>=-ok (validate_lanes groups.group_ids lanes_value lane_count_value) _ h5
                  λ counted e6 h6. >>=-ok (item value "sdk_count") _ h6 λ sdk_count_value _ h7.
                    >>=-ok (item value "sdks") _ h7 λ sdks_value _ h8.
                      >>=-ok
                        (validate_sdks counted.1.profiles_by_group groups.used_files sdk_count_value
                          sdks_value)
                        _ h8
                        λ sdks _ h9.
                          assemble value groups groups_value lanes_value lane_count_value counted
                            sdks e0 e2 e3 e6 (ok-injective h9)
  where
    assemble :
        (value : Dict String Value) (groups : GroupState)
        (groups_value lanes_value lane_count_value : Value) (counted : ℕ × LaneState)
        (sdks : List Value)
        → require_exact_fields plan top_level_fields "plan" ≡ ok value
        → item value "groups" ≡ ok groups_value
        → validate_groups groups_value ≡ ok groups
        → validate_lanes groups.group_ids lanes_value lane_count_value ≡ ok counted
        → record {
          lanes = counted.1.lanes;
          group_ids = groups.group_ids;
          lane_count = counted.0;
          sdks = sdks;
        }
          ≡ v
        → Parts plan v
    assemble value groups groups_value lanes_value lane_count_value counted sdks e0 e2 e3 e6 same =
        record {
          dict = value;
          is_dict = e0;
          at_groups = e2;
          groups = groups;
          groups_value = groups_value;
          lanes_value = lanes_value;
          lane_count_value = lane_count_value;
          state = counted.1;
          accepted_groups = e3;
          accepted_lanes = e6 ∙ ap (λ (r : Validated). ok (r.lane_count, counted.1)) same;
          same_groups = ap (λ (r : Validated). r.group_ids) same;
          same_lanes = ap (λ (r : Validated). r.lanes) same;
        }

-- For every plan that is accepted there are profiles for each of its groups, the groups in
-- strictly ascending order, such that its lanes are exactly the grid of those profiles and the
-- active hosts: each profile of each group on every active host, once, in producer order.
pub validate_plan_grid :
    (plan : Value) (expected : Expected) (v : Validated)
    → validate_plan plan expected ≡ ok v
    → (profiles : Dict String (List String)) × (keys profiles ≡ v.group_ids)
      × (ascends v.group_ids ≡ true)
      × (v.lanes ≡ crossing profiles)
validate_plan_grid plan expected v h =
    let p = validate_plan-Parts plan expected v h in
    let up = validate_groups-ascends p.groups_value p.groups p.accepted_groups in
    let grid =
      lanes-eq-crossing p.groups.group_ids p.lanes_value p.lane_count_value v.lane_count p.state
        (ascends-IsNodup p.groups.group_ids up) p.accepted_lanes in
    (
      p.state.profiles_by_group,
      grid.1 ∙ p.same_groups,
      subst (λ g. ascends g ≡ true) p.same_groups up,
      sym p.same_lanes ∙ grid.0,
    )

-- What other modules use of an accepted plan's lanes.
pub record LaneFacts (v : Validated) : Type 0 where
  pub on_active : All (λ (l : Lane). contains active_hosts l.host ≡ true) v.lanes
  pub distinct : IsNodup (map lane_key v.lanes)
  pub counted : v.lane_count ≡ length v.lanes
  pub nonempty : 0 < v.lane_count
  pub known : All (IsKnown v.group_ids) v.lanes

pub validate_plan-LaneFacts :
    (plan : Value) (expected : Expected) (v : Validated)
    → validate_plan plan expected ≡ ok v
    → LaneFacts v
validate_plan-LaneFacts plan expected v h =
    let p = validate_plan-Parts plan expected v h in
    let c =
      validate_lanes-Checked p.groups.group_ids p.lanes_value p.lane_count_value v.lane_count
        p.state p.accepted_lanes in
    let sound = lanes-IsSound p.groups.group_ids c.values p.state c.looped in
    let known = subst (λ ls. All (IsKnown p.groups.group_ids) ls) p.same_lanes sound.known in
    record {
      on_active = All-map (λ l (k : IsKnown p.groups.group_ids l). k.host) v.lanes known;
      distinct =
          subst (λ ls. IsNodup (map lane_key ls)) p.same_lanes
            (subst IsNodup sound.seen sound.distinct);
      counted =
          c.counted
          ∙ sym (lanes-length p.groups.group_ids c.values p.state c.looped)
          ∙ ap length p.same_lanes;
      nonempty = rw (c.counted) c.nonempty;
      known = subst (λ gs. All (IsKnown gs) v.lanes) p.same_groups known;
    }
