-- ===== src/ReleaseMatrix/Lanes/Crossing.antt =====
-- `_validate_plan`: the accepted lanes, and the declared profiles on the active hosts.
pub mod Grid
use mathlib.Core.Path.{subst}
use aros_toolchains.Prelude.{
  ℕ, suc, String, Bool, true, false, ◌&&◌, ◌||◌, not, if◌then◌else◌, List, [], ◌∷◌, ◌++◌, Option,
  none, some, Result, ok, raise, fold, for_each, for_each-All, ◌>>=◌, ◌>>◌, ◌==◌, contains, refuse,
  require, string_eq, list_eq, nat_eq, Dict, keys, lookup, map, length, leb, ltb, ◌<◌, ◌≡◌, refl,
  >>=-eq-ok, refuse-eq-ok, require-eq-ok, ok-injective, eq_of_test, Exception, arith, All,
  Bool-cases, inl, inr, ◌∙◌, IsNodup, sym, All-append, All-map, All-contains, contains-append, ap,
}
use aros_toolchains.Json.{Value, as_list, as_nat, or_raise}
use aros_toolchains.Sorted.Members.{Ascends, flat_map, Ascends-unique}
use aros_toolchains.ReleaseMatrix.{active_hosts}
use aros_toolchains.ReleaseMatrix.Lanes.{
  Lane, LaneState, hosts_of, check_profile, check_group, validate_lane, validate_lanes, start,
}
use aros_toolchains.ReleaseMatrix.Lanes.Unique.{is_declared, IsKnown}
use aros_toolchains.ReleaseMatrix.Lanes.Order.{
  IsGood, lane_ltb, rank_ltb_irrefl, rank_ltb_trans, lanes-IsGood, rank_in,
}
use Grid.{crossing, lane_eq, crossing-Ascends, contains-crossing}

positive : (n : ℕ) → leb 1 n ≡ true → 0 < n
positive n h = ground arith

-- What an accepted list of lanes went through.
pub record Checked (group_ids : List String) (count : ℕ) (s : LaneState) : Type 0 where
  pub values : List Value
  pub counted : count ≡ length values
  pub nonempty : 0 < length values
  pub looped : fold (validate_lane group_ids) (start group_ids) values ≡ ok s
  pub crossed : All (λ e. check_group s.lanes e ≡ ok tt) s.profiles_by_group

pub validate_lanes-Checked :
    (group_ids : List String) (lanes count_value : Value) (count : ℕ) (s : LaneState)
    → validate_lanes group_ids lanes count_value ≡ ok (count, s)
    → Checked group_ids count s
unfolding validate_lanes
validate_lanes-Checked group_ids lanes count_value count s h =
    let (values, e0, h0) = >>=-eq-ok (or_raise (as_list lanes) _) _ h in
    let (nonempty, h1) = require-eq-ok _ _ _ h0 in
    let (n, e1, h2) = >>=-eq-ok (or_raise (as_nat count_value) _) _ h1 in
    let (counted, h3) = require-eq-ok _ _ _ h2 in
    let (t, looped, h4) =
      >>=-eq-ok (fold (validate_lane group_ids) (start group_ids) values) _ h3 in
    let (u, crossed, h5) = >>=-eq-ok (for_each (check_group t.lanes) t.profiles_by_group) _ h4 in
    let same : (n, t) ≡ (count, s) = ok-injective h5 in
    let same_count : n ≡ count = ap (λ r. r.0) same in
    let same_state : t ≡ s = ap (λ r. r.1) same in
    record {
      values = values;
      counted = sym same_count ∙ eq_of_test n (length values) counted;
      nonempty = positive (length values) nonempty;
      looped = looped ∙ ap ok same_state;
      crossed =
          subst (λ (r : LaneState). All (λ e. check_group r.lanes e ≡ ok tt) r.profiles_by_group)
            same_state (for_each-All (check_group t.lanes) t.profiles_by_group crossed);
    }

-- A host of the lanes of a profile belongs to a lane.
contains-hosts_of :
    (l : Lane) (lanes : List Lane)
    → contains (hosts_of l.group_id l.target_profile lanes) l.host ≡ true
    → contains lanes l ≡ true
contains-hosts_of l [] h = cc
contains-hosts_of l (m ∷ lanes) h = ground (arith, contains-hosts_of l lanes)

require_same : {xs ys : List String} (e : Exception) → require (xs == ys) e ≡ ok tt → xs ≡ ys
require_same e h = ground arith

check_group-hosts :
    (lanes : List Lane) (g : String) (ps : List String)
    → check_group lanes (g, ps) ≡ ok tt
    → All (λ p. hosts_of g p lanes ≡ active_hosts) ps
unfolding check_group check_profile
check_group-hosts lanes g ps h =
    let (nonempty, h1) = refuse-eq-ok _ _ _ h in
    All-map (λ p. require_same _) ps (for_each-All (check_profile lanes g) ps h1)

crossed-here :
    (lanes : List Lane) (ps : List String) (l : Lane)
    → check_group lanes (l.group_id, ps) ≡ ok tt
    → contains ps l.target_profile ≡ true
    → contains active_hosts l.host ≡ true
    → contains lanes l ≡ true
crossed-here lanes ps l c m k =
    let hosts =
      All-contains (λ p. hosts_of l.group_id p lanes ≡ active_hosts) ps l.target_profile
        (check_group-hosts lanes l.group_id ps c) m in
    contains-hosts_of l lanes (subst (λ hs. contains hs l.host ≡ true) (sym hosts) k)

-- Every declared profile has a lane on each active host.
crossed-lane :
    (d : Dict String (List String)) (lanes : List Lane) (l : Lane)
    → All (λ e. check_group lanes e ≡ ok tt) d
    → is_declared d l ≡ true
    → contains active_hosts l.host ≡ true
    → contains lanes l ≡ true
crossed-lane [] lanes l c h k = cc
crossed-lane ((g, ps) ∷ d) lanes l c h k = elim (Bool-cases (l.group_id == g)) [
  | inl same ↦
      crossed-here lanes ps l
        (subst (λ x. check_group lanes (x, ps) ≡ ok tt) (sym (eq_of_test l.group_id g same)) c.0)
        (ground arith) k
  | inr other ↦ crossed-lane d lanes l c.1 (ground arith) k
]

-- A declared profile on an active host has a lane, and a lane is of such a profile and host.
contains-lanes :
    (group_ids : List String) (s : LaneState) (l : Lane)
    → IsGood group_ids s
    → All (λ e. check_group s.lanes e ≡ ok tt) s.profiles_by_group
    → contains s.lanes l ≡ (is_declared s.profiles_by_group l && contains active_hosts l.host)
contains-lanes group_ids s l (sound, ordered) c = ground (
  arith,
  crossed-lane s.profiles_by_group s.lanes l c,
  All-contains (λ m. is_declared s.profiles_by_group m ≡ true) s.lanes l sound.declared,
  All-contains (λ (m : Lane). contains active_hosts m.host ≡ true) s.lanes l
      (All-map (λ m (k : IsKnown group_ids m). k.host) s.lanes sound.known),
)

-- An accepted list of lanes is the grid of its declared profiles: groups in the plan's order, the
-- profiles of each in theirs, each of them on every active host, in the order of the hosts.
pub lanes-eq-crossing :
    (group_ids : List String) (lanes count_value : Value) (count : ℕ) (s : LaneState)
    → IsNodup group_ids
    → validate_lanes group_ids lanes count_value ≡ ok (count, s)
    → (s.lanes ≡ crossing s.profiles_by_group) × (keys s.profiles_by_group ≡ group_ids)
lanes-eq-crossing group_ids lanes count_value count s distinct h =
    let c = validate_lanes-Checked group_ids lanes count_value count s h in
    let good = lanes-IsGood group_ids c.values s c.looped in
    let d = s.profiles_by_group in
    (
      Ascends-unique (lane_ltb group_ids d) (λ a. rank_ltb_irrefl (rank_in group_ids d a))
          (λ a b e.
            rank_ltb_trans (rank_in group_ids d a) (rank_in group_ids d b) (rank_in group_ids d e))
          s.lanes (crossing d) good.1.ascends
          (crossing-Ascends group_ids d good.1.keyed distinct good.1.unrepeated)
          (λ l.
            contains-lanes group_ids s l good c.crossed
            ∙ sym (contains-crossing d l (subst IsNodup (sym good.1.keyed) distinct))),
      good.1.keyed,
    )
