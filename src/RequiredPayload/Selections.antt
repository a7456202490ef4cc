-- ===== src/RequiredPayload/Selections.antt =====
-- What `select_required_payload` selects.
use mathlib.Core.Path.{subst, ap₂}
use aros_toolchains.Prelude.{
  some_injective, ℕ, String, Bool, true, ◌&&◌, List, [], ◌∷◌, some, ok, policy_error, type_error,
  fold, for_each, traverse, >>=-ok, require-ok, ok-injective, ◌==◌, string_eq, Dict, keys, lookup,
  map, length, leb, ◌≡◌, refl, arith, sym, ◌∙◌, All, Bool-cases, inl, inr, eq_of_test,
}
use aros_toolchains.Json.{Value, str, as_list, as_dict, item, or_raise}
use aros_toolchains.ReleaseMatrix.Project.{VerifyEntry, Projection, project}
use aros_toolchains.CompilerOwners.{add_group, lane_key_of, LaneKey}
use aros_toolchains.RequiredPayload.{
  Selection, Selected, request_of, select_lane, select_on, same_members, add_plan_profile,
  check_policy_group, select_required_payload,
}
use aros_toolchains.RequiredPayload.Documents.{
  PolicyGroup, validate_policy, require_policy_digest, max_policy_bytes, max_plan_bytes,
}
use aros_toolchains.RequiredPayload.Policy.{IsPathList, HasPathLists, validate_policy-HasPathLists}

abbrev pub lane_of : Selection → LaneKey
lane_of s = (s.group_id, (s.host, s.target_profile))

lookup-All {ℓ} :
    {A : Type ℓ} (P : A → Type 0) (d : Dict String A) (k : String) (a : A)
    → All (λ e. P e.1) d
    → lookup k d ≡ some a
    → P a
lookup-All P [] k a h e = absurd (cc)
lookup-All P ((j, b) ∷ d) k a h e = elim (Bool-cases (k == j)) [
  | inl same ↦ subst P (some_injective (rw same at e)) h.0
  | inr other ↦ lookup-All P d k a h.1 (rw other at e)
]

item-lookup {ℓ} :
    {A : Type ℓ} (d : Dict String A) (k : String) (a : A) → item d k ≡ ok a → lookup k d ≡ some a
item-lookup d k a h = ground arith

item-All {ℓ} :
    {A : Type ℓ} (P : A → Type 0) (d : Dict String A) (k : String) (a : A)
    → All (λ e. P e.1) d
    → item d k ≡ ok a
    → P a
item-All P d k a h e = lookup-All P d k a h (item-lookup d k a e)

select_lane-IsPathList :
    (policy : Dict String PolicyGroup) (lane : VerifyEntry) (s : Selection)
    → All (λ e. HasPathLists e.1.profiles) policy
    → select_lane policy lane ≡ ok s
    → (lane_of s ≡ lane_key_of lane) × IsPathList s.required_paths
unfolding select_lane
select_lane-IsPathList policy lane s h e =
    >>=-ok (item policy lane.group_id) _ e λ group at_group e1.
      >>=-ok (item group.profiles lane.profile) _ e1 λ paths at_profile e2.
        let lists =
          item-All (λ (g : PolicyGroup). HasPathLists g.profiles) policy lane.group_id group h
            at_group in
        subst (λ (t : Selection). (lane_of t ≡ lane_key_of lane) × IsPathList t.required_paths)
          (ok-injective e2)
          (refl, item-All IsPathList group.profiles lane.profile paths lists at_profile)

-- The selections, lane by lane.
lanes_selected :
    (policy : Dict String PolicyGroup) (lanes : List VerifyEntry) (ss : List Selection)
    → All (λ e. HasPathLists e.1.profiles) policy
    → traverse (select_lane policy) lanes ≡ ok ss
    → (map lane_of ss ≡ map lane_key_of lanes) × All (λ s. IsPathList s.required_paths) ss
lanes_selected policy [] ss h e =
    subst (λ ss. (map lane_of ss ≡ []) × All (λ s. IsPathList s.required_paths) ss) (ok-injective e)
      (refl, tt)
lanes_selected policy (lane ∷ lanes) ss h e = >>=-ok (select_lane policy lane) _ e λ s one e1.
    >>=-ok (traverse (select_lane policy) lanes) _ e1 λ rest more e2.
      let here = select_lane-IsPathList policy lane s h one in
      let there = lanes_selected policy lanes rest h more in
      subst
        (λ ss.
          (map lane_of ss ≡ map lane_key_of (lane ∷ lanes))
          × All (λ s. IsPathList s.required_paths) ss)
        (ok-injective e2) (ap₂ (λ x xs. x ∷ xs) here.0 there.0, (here.1, there.1))

record IsSelectedOn (policy : Dict String PolicyGroup) (p : Projection) (ss : List Selection)
    : Type 0 where
  complete : p.complete_selection ≡ true
  traversed : traverse (select_lane policy) p.verify_matrix ≡ ok ss

last_of : (a b c : Bool) → (a && b && c) ≡ true → c ≡ true
last_of a b c h = ground arith

select_on-IsSelectedOn :
    (policy : Dict String PolicyGroup) (plan : Dict String Value) (p : Projection)
    (ss : List Selection)
    → select_on policy plan p ≡ ok ss
    → IsSelectedOn policy p ss
unfolding select_on
select_on-IsSelectedOn policy plan p ss h =
    require-ok (p.event == "workflow_dispatch" && p.scope == "full" && p.complete_selection) _ _ h
      λ full h1. >>=-ok (item plan "groups") _ h1 λ groups_value _ h2.
        >>=-ok (or_raise (as_list groups_value) type_error) _ h2 λ values _ h3.
          >>=-ok (fold add_group [] values) _ h3 λ plan_groups _ h4.
            require-ok (same_members (keys policy) (keys plan_groups)) _ _ h4 λ _ h5.
              >>=-ok
                (fold add_plan_profile (map (λ group_id. (group_id, [])) (keys plan_groups))
                  p.verify_matrix)
                _ h5
                λ plan_profiles _ h6.
                  >>=-ok (for_each (check_policy_group plan_groups plan_profiles) policy) _ h6
                    λ _ _ h7. record {
                      complete =
                          last_of (p.event == "workflow_dispatch") (p.scope == "full")
                            p.complete_selection full;
                      traversed = h7;
                    }

digest_same : (s t : String) → require_policy_digest (str s) "selected policy digest" ≡ ok t → s ≡ t
unfolding require_policy_digest
digest_same s t h = ground arith

-- What is selected of the policy for the plan.
pub record IsSelected (sha256 : List ℕ → String) (raw_policy : List ℕ) (expected : String)
    (raw_plan : List ℕ) (plan_value : Value)
    (plan_sha256 inputs_sha256 producer_commit tools_commit : String) (out : Selected)
    : Type 0 where
  pub bound : sha256 raw_policy ≡ expected
  pub projected :
      project sha256 raw_plan plan_value
        (request_of plan_sha256 inputs_sha256 producer_commit tools_commit)
      ≡ ok out.projection
  pub complete : out.projection.complete_selection ≡ true
  pub lanes : map lane_of out.selections ≡ map lane_key_of out.projection.verify_matrix
  pub paths : All (λ s. IsPathList s.required_paths) out.selections

-- A selection is made only of policy bytes with the expected digest and of a complete projection of
-- the plan. It has one entry for each lane of the projection, in its order, and no other; the paths
-- of each entry are safe relative paths in strictly ascending order.
pub select_required_payload-IsSelected :
    (sha256 : List ℕ → String) (raw_policy : List ℕ) (policy_value : Value) (expected : String)
    (raw_plan : List ℕ) (plan_value : Value)
    (plan_sha256 inputs_sha256 producer_commit tools_commit : String) (out : Selected)
    → select_required_payload sha256 raw_policy policy_value expected raw_plan plan_value
        plan_sha256 inputs_sha256 producer_commit tools_commit
      ≡ ok out
    → IsSelected sha256 raw_policy expected raw_plan plan_value plan_sha256 inputs_sha256
        producer_commit tools_commit out
unfolding select_required_payload
select_required_payload-IsSelected sha256 raw_policy policy_value expected raw_plan plan_value
      plan_sha256 inputs_sha256 producer_commit tools_commit out h =
    require-ok (leb (length raw_policy) max_policy_bytes) _ _ h λ _ h1.
      require-ok (leb (length raw_plan) max_plan_bytes) _ _ h1 λ _ h2.
        >>=-ok (or_raise (as_dict plan_value) (policy_error "plan must be a JSON object")) _ h2
          λ plan _ h3.
            >>=-ok (require_policy_digest (str expected) "selected policy digest") _ h3
              λ digest digested h4. require-ok (sha256 raw_policy == digest) _ _ h4 λ bound h5.
                >>=-ok
                  (or_raise (as_dict policy_value) (policy_error "policy must be a JSON object")) _
                  h5
                  λ _ _ h6. >>=-ok (validate_policy policy_value) _ h6 λ policy accepted h7.
                    >>=-ok
                      (project sha256 raw_plan plan_value
                        (request_of plan_sha256 inputs_sha256 producer_commit tools_commit))
                      _ h7
                      λ p projected h8. >>=-ok (select_on policy plan p) _ h8 λ ss selected h9.
                        let on = select_on-IsSelectedOn policy plan p ss selected in
                        let each =
                          lanes_selected policy p.verify_matrix ss
                            (validate_policy-HasPathLists policy_value policy accepted)
                            on.traversed in
                        subst
                          (IsSelected sha256 raw_policy expected raw_plan plan_value plan_sha256
                            inputs_sha256 producer_commit tools_commit)
                          (ok-injective h9)
                          (record {
                            bound =
                                eq_of_test (sha256 raw_policy) digest bound
                                ∙ sym (digest_same expected digest digested);
                            projected = projected;
                            complete = on.complete;
                            lanes = each.0;
                            paths = each.1;
                          })
