-- ===== src/ReleaseMatrix/Plan/Groups.antt =====
-- The loop over the groups of an accepted plan.
use aros_toolchains.Prelude.{
  String, List, [], Dict, some, ok, fold, ◌≡◌, ap, ◌∙◌, >>=-eq-ok, require-eq-ok, refuse-eq-ok,
  ok-injective, arith, Option, Exception,
}
use aros_toolchains.Json.{Value, as_list, as_dict, item, or_raise}
use aros_toolchains.ReleaseMatrix.{top_level_fields, require_exact_fields}
use aros_toolchains.ReleaseMatrix.References.{GroupState, validate_group, validate_groups}
use aros_toolchains.ReleaseMatrix.Plan.{Expected, Validated, validate_plan}
use aros_toolchains.ReleaseMatrix.Plan.Grid.{Parts, validate_plan-Parts}

pub record GroupFacts (plan : Value) (v : Validated) : Type 0 where
  pub dict : Dict String Value
  pub is_dict : as_dict plan ≡ some dict
  pub groups_value : Value
  pub at_groups : item dict "groups" ≡ ok groups_value
  pub values : List Value
  pub is_list : as_list groups_value ≡ some values
  pub state : GroupState
  pub looped : fold validate_group (record { group_ids = []; used_files = [] }) values ≡ ok state
  pub same : state.group_ids ≡ v.group_ids

pub exact-as_dict :
    (v : Value) (fields : List String) (what : String) (d : Dict String Value)
    → require_exact_fields v fields what ≡ ok d
    → as_dict v ≡ some d
unfolding require_exact_fields
exact-as_dict v fields what d h = ground arith

pub or_raise-eq-ok :
    {A : Type 0} (o : Option A) (e : Exception) (a : A) → or_raise o e ≡ ok a → o ≡ some a
or_raise-eq-ok o e a h = ground arith

GroupFacts-intro :
    (plan : Value) (v : Validated) (p : Parts plan v)
    → validate_groups p.groups_value ≡ ok p.groups
    → GroupFacts plan v
unfolding validate_groups
GroupFacts-intro plan v p h =
    let (values, e0, h0) = >>=-eq-ok (or_raise (as_list p.groups_value) _) _ h in
    let (bounded, h1) = require-eq-ok _ _ _ h0 in
    let (t, e1, h2) =
      >>=-eq-ok (fold validate_group (record { group_ids = []; used_files = [] }) values) _ h1 in
    let (sorted, h3) = refuse-eq-ok _ _ _ h2 in
    record {
      dict = p.dict;
      is_dict = exact-as_dict plan top_level_fields "plan" p.dict p.is_dict;
      groups_value = p.groups_value;
      at_groups = p.at_groups;
      values = values;
      is_list = or_raise-eq-ok (as_list p.groups_value) _ values e0;
      state = t;
      looped = e1;
      same = ap (λ (r : GroupState). r.group_ids) (ok-injective h3) ∙ p.same_groups;
    }

pub validate_plan-GroupFacts :
    (plan : Value) (expected : Expected) (v : Validated)
    → validate_plan plan expected ≡ ok v
    → GroupFacts plan v
validate_plan-GroupFacts plan expected v h =
    let p = validate_plan-Parts plan expected v h in GroupFacts-intro plan v p p.accepted_groups
