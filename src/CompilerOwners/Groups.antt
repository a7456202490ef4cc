-- ===== src/CompilerOwners/Groups.antt =====
-- `_project_owners`: the dict of the plan's groups, beside the loop that validated them.
use mathlib.Core.Path.{subst}
use aros_toolchains.Prelude.{
  String, List, [], ◌∷◌, ◌++◌, some, ok, fold, not, ◌>>=◌, >>=-ok, refuse-ok, ok-injective, ◌==◌,
  string_eq, Dict, lookup, insert, lookup-insert, ◌≡◌, refl, arith, sym, ap, ◌∙◌, All, All-append,
  All-map, Bool-cases, inl, inr,
}
use aros_toolchains.Json.{Value, as_str, as_dict, item}
use aros_toolchains.ReleaseMatrix.{
  group_fields, require_exact_fields, require_safe_id, require_commit,
}
use aros_toolchains.ReleaseMatrix.References.{GroupState, validate_reference, validate_group}
use aros_toolchains.CompilerOwners.{add_group}

-- A group's dict with the three references that an owner takes from it.
pub record HasReferences (d : Dict String Value) : Type 0 where
  pub recipe : Value
  pub source_lock : Value
  pub profiles : Value
  pub at_recipe : item d "recipe" ≡ ok recipe
  pub at_source_lock : item d "source_lock" ≡ ok source_lock
  pub at_profiles : item d "profiles" ≡ ok profiles

pub record HasGroup (groups : Dict String (Dict String Value)) (g : String) : Type 0 where
  pub group : Dict String Value
  pub listed : lookup g groups ≡ some group
  pub references : HasReferences group

-- An accepted group value.
record IsGroup (s : GroupState) (v : Value) (t : GroupState) : Type 0 where
  dict : Dict String Value
  group_id : String
  id_value : Value
  is_dict : as_dict v ≡ some dict
  has_id : item dict "group_id" ≡ ok id_value
  is_text : as_str id_value ≡ some group_id
  references : HasReferences dict
  appended : t.group_ids ≡ s.group_ids ++ group_id ∷ []

exact-as_dict :
    (v : Value) (fields : List String) (what : String) (d : Dict String Value)
    → require_exact_fields v fields what ≡ ok d
    → as_dict v ≡ some d
unfolding require_exact_fields
exact-as_dict v fields what d h = ground arith

safe_id-as_str : (v : Value) (what s : String) → require_safe_id v what ≡ ok s → as_str v ≡ some s
unfolding require_safe_id
safe_id-as_str v what s h = ground arith

validate_group-IsGroup :
    (s : GroupState) (v : Value) (t : GroupState) → validate_group s v ≡ ok t → IsGroup s v t
unfolding validate_group
validate_group-IsGroup s v t h = >>=-ok (require_exact_fields v group_fields "group") _ h λ d e0 h0.
    >>=-ok (item d "group_id") _ h0 λ id_value e1 h1.
      >>=-ok (require_safe_id id_value "group ID") _ h1 λ g e2 h2.
        >>=-ok (item d "source_commit") _ h2 λ scv _ h3.
          >>=-ok (require_commit scv "source commit") _ h3 λ sc _ h4.
            >>=-ok (item d "source_tree") _ h4 λ stv _ h5.
              >>=-ok (require_commit stv "source tree") _ h5 λ _ _ h6.
                >>=-ok (item d "upstream_commit") _ h6 λ ucv _ h7.
                  >>=-ok (require_commit ucv "upstream commit") _ h7 λ uc _ h8.
                    refuse-ok (not (sc == uc)) _ _ h8 λ _ h9.
                      >>=-ok (item d "recipe") _ h9 λ recipe r0 h10.
                        >>=-ok (validate_reference recipe s.used_files) _ h10 λ u1 _ h11.
                          >>=-ok (item d "source_lock") _ h11 λ lock r1 h12.
                            >>=-ok (validate_reference lock u1) _ h12 λ u2 _ h13.
                              >>=-ok (item d "profiles") _ h13 λ profiles r2 h14.
                                >>=-ok (validate_reference profiles u2) _ h14 λ u3 _ h15. record {
                                  dict = d;
                                  group_id = g;
                                  id_value = id_value;
                                  is_dict = exact-as_dict v group_fields "group" d e0;
                                  has_id = e1;
                                  is_text = safe_id-as_str id_value "group ID" g e2;
                                  references = record {
                                    recipe = recipe;
                                    source_lock = lock;
                                    profiles = profiles;
                                    at_recipe = r0;
                                    at_source_lock = r1;
                                    at_profiles = r2;
                                  };
                                  appended =
                                      ap (λ (r : GroupState). r.group_ids) (sym (ok-injective h15));
                                }

add_group-IsGroup :
    (s : GroupState) (v : Value) (t : GroupState) (groups : Dict String (Dict String Value))
    → (i : IsGroup s v t) → add_group groups v ≡ ok (insert i.group_id i.dict groups)
unfolding add_group
add_group-IsGroup s v t groups i = rw (i.is_dict, i.has_id, i.is_text) refl

insert-HasGroup :
    (groups : Dict String (Dict String Value)) (g : String) (d : Dict String Value) (h : String)
    → HasReferences d
    → HasGroup groups h
    → HasGroup (insert g d groups) h
insert-HasGroup groups g d h r old = elim (Bool-cases (h == g)) [
  | inl e ↦ record {
    group = d;
    listed = ground (arith, lookup-insert h g d groups);
    references = r;
  }
  | inr e ↦ record {
    group = old.group;
    listed = ground (arith, lookup-insert h g d groups, old.listed);
    references = old.references;
  }
]

insert-HasGroup_self :
    (groups : Dict String (Dict String Value)) (g : String) (d : Dict String Value)
    → HasReferences d
    → HasGroup (insert g d groups) g
insert-HasGroup_self groups g d r = record {
  group = d;
  listed = ground (arith, lookup-insert g g d groups);
  references = r;
}

-- Both loops over the group values, side by side.
pub groups-HasGroup :
    (values : List Value) (s t : GroupState) (groups : Dict String (Dict String Value))
    → fold validate_group s values ≡ ok t
    → All (HasGroup groups) s.group_ids
    → (out : Dict String (Dict String Value)) × (fold add_group groups values ≡ ok out)
      × All (HasGroup out) t.group_ids
groups-HasGroup [] s t groups h k =
    (groups, refl, subst (λ (r : GroupState). All (HasGroup groups) r.group_ids) (ok-injective h) k)
groups-HasGroup (v ∷ vs) s t groups h k =
    >>=-ok (validate_group s v) (λ u. fold validate_group u vs) h
      λ u one rest.
        let i = validate_group-IsGroup s v u one in
        let next = insert i.group_id i.dict groups in
        let held : All (HasGroup next) (s.group_ids ++ i.group_id ∷ []) =
          All-append (HasGroup next) s.group_ids (i.group_id ∷ [])
            (All-map (λ h. insert-HasGroup groups i.group_id i.dict h i.references) s.group_ids k)
            (insert-HasGroup_self groups i.group_id i.dict i.references, tt) in
        let more =
          groups-HasGroup vs u t next rest (subst (All (HasGroup next)) (sym i.appended) held) in
        (
          more.0,
          ap (λ m. m >>= λ g. fold add_group g vs) (add_group-IsGroup s v u groups i) ∙ more.1,
          more.2,
        )
