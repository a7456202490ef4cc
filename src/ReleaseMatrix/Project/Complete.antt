-- ===== src/ReleaseMatrix/Project/Complete.antt =====
-- `project`: the complete selection, and what is scheduled twice.
use mathlib.Core.Path.{subst, ap₂}
use aros_toolchains.Prelude.{
  ℕ, String, Bool, true, false, List, [], ◌∷◌, none, ok, ◌==◌, contains, string_eq, pair_eq, ◌≡◌,
  refl, arith, sym, ap, ◌∙◌, map, length, length-map, keep, IsNodup,
}
use aros_toolchains.Json.{Value}
use aros_toolchains.ReleaseMatrix.{active_hosts}
use aros_toolchains.ReleaseMatrix.Lanes.{Lane, lane_key}
use aros_toolchains.ReleaseMatrix.Plan.{Expected, Validated, validate_plan}
use aros_toolchains.ReleaseMatrix.Plan.Grid.{LaneFacts, validate_plan-LaneFacts}
use aros_toolchains.ReleaseMatrix.Project.{
  VerifyEntry, BuildEntry, verify_entry, build_entries, select_lanes, select_sdks, in_group,
  Request, Projection, assemble, project,
}
use aros_toolchains.ReleaseMatrix.Project.Scope.{select_scope-full}
use aros_toolchains.ReleaseMatrix.Project.Matrices.{project-Accepted, assembled, select_lanes-All}

-- What the caller of `project` expects of the plan.
abbrev pub expected_of : Request → Expected
expected_of r = record {
  inputs_sha256 = r.inputs_sha256;
  producer_commit = r.producer_commit;
  tools_commit = r.tools_commit;
}

select_sdks-none : (sdks : List Value) → select_sdks none sdks ≡ sdks
unfolding select_sdks
select_sdks-none sdks = refl

complete-full :
    (r : Request) (hosts : List String) (v : Validated)
    → (assemble r hosts v).complete_selection ≡ true
    → (r.scope ≡ "full") × (r.diagnostic_group ≡ none)
unfolding assemble
complete-full r hosts v h = ground arith

assemble-full :
    (r : Request) (hosts : List String) (v : Validated)
    → hosts ≡ active_hosts
    → r.diagnostic_group ≡ none
    → LaneFacts v
    → ((assemble r hosts v).verify_matrix ≡ map verify_entry v.lanes)
      × ((assemble r hosts v).sdk_matrix ≡ v.sdks)
      × ((assemble r hosts v).lane_count ≡ v.lane_count)
unfolding assemble
assemble-full r hosts v p q facts =
    let lanes : select_lanes hosts r.diagnostic_group v.lanes ≡ v.lanes =
      ap₂ (λ h g. select_lanes h g v.lanes) p q ∙ select_lanes-All v.lanes facts.on_active in
    (
      ap (map verify_entry) lanes,
      ap (λ g. select_sdks g v.sdks) q ∙ select_sdks-none v.sdks,
      length-map (select_lanes hosts r.diagnostic_group v.lanes) verify_entry
          ∙ (ap length lanes ∙ sym facts.counted),
    )

-- A complete projection schedules every lane of the accepted plan, in its order, and no other,
-- and every SDK of the plan.
pub project_complete :
    (sha256 : List ℕ → String) (raw : List ℕ) (plan : Value) (r : Request) (p : Projection)
    → project sha256 raw plan r ≡ ok p
    → p.complete_selection ≡ true
    → (v : Validated) × (validate_plan plan (expected_of r) ≡ ok v)
      × (p.verify_matrix ≡ map verify_entry v.lanes)
      × (p.sdk_matrix ≡ v.sdks)
      × (p.lane_count ≡ v.lane_count)
project_complete sha256 raw plan r p h complete =
    let a = project-Accepted sha256 raw plan r p h in
    let facts = validate_plan-LaneFacts plan (expected_of r) a.validated a.accepted in
    let same = assembled sha256 raw plan r p a in
    let full =
      complete-full r a.hosts a.validated
        (subst (λ (q : Projection). q.complete_selection ≡ true) (sym same) complete) in
    let hosts = select_scope-full r.event r.scope r.full_qualification a.hosts a.scoped full.0 in
    let every = assemble-full r a.hosts a.validated hosts full.1 facts in
    subst
      (λ (q : Projection).
        (w : Validated) × (validate_plan plan (expected_of r) ≡ ok w)
        × (q.verify_matrix ≡ map verify_entry w.lanes)
        × (q.sdk_matrix ≡ w.sdks)
        × (q.lane_count ≡ w.lane_count))
      same (a.validated, a.accepted, every.0, every.1, every.2)

-- The coordinates of a scheduled build: group, host, profile and copy.
abbrev pub build_key : BuildEntry → (String × (String × String)) × String
build_key b = ((b.group_id, (b.host, b.profile)), b.copy)

abbrev pub verify_key : VerifyEntry → String × (String × String)
verify_key e = (e.group_id, (e.host, e.profile))

contains-build_key :
    (es : List VerifyEntry) (k : String × (String × String)) (c : String)
    → contains (map verify_key es) k ≡ false
    → contains (map build_key (build_entries es)) (k, c) ≡ false
unfolding build_entries
contains-build_key [] k c h = refl
contains-build_key (e ∷ es) k c h = ground (arith, contains-build_key es k c)

a-ne-b : ((◌==◌ {A = String} "b" "a") ≡ false)
unfolding string_eq
a-ne-b = refl

build_entries-IsNodup :
    (es : List VerifyEntry)
    → IsNodup (map verify_key es)
    → IsNodup (map build_key (build_entries es))
unfolding build_entries
build_entries-IsNodup [] h = tt
build_entries-IsNodup (e ∷ es) h = ground (
  arith,
  a-ne-b,
  contains-build_key es (verify_key e) "a",
  contains-build_key es (verify_key e) "b",
  build_entries-IsNodup es,
)

contains-keep :
    (t : Lane → Bool) (ls : List Lane) (k : String × (String × String))
    → contains (map lane_key ls) k ≡ false
    → contains (map lane_key (keep t ls)) k ≡ false
contains-keep t [] k h = refl
contains-keep t (l ∷ ls) k h = ground (arith, contains-keep t ls k)

keep-IsNodup :
    (t : Lane → Bool) (ls : List Lane)
    → IsNodup (map lane_key ls)
    → IsNodup (map lane_key (keep t ls))
keep-IsNodup t [] h = tt
keep-IsNodup t (l ∷ ls) h = ground (arith, contains-keep t ls (lane_key l), keep-IsNodup t ls)

map-verify_key : (ls : List Lane) → map verify_key (map verify_entry ls) ≡ map lane_key ls
unfolding verify_entry
map-verify_key [] = refl
map-verify_key (l ∷ ls) = ap (λ r. lane_key l ∷ r) (map-verify_key ls)

assemble-IsNodup :
    (r : Request) (hosts : List String) (v : Validated)
    → IsNodup (map lane_key v.lanes)
    → IsNodup (map build_key (assemble r hosts v).build_matrix)
      × IsNodup (map verify_key (assemble r hosts v).verify_matrix)
unfolding assemble select_lanes
assemble-IsNodup r hosts v h =
    let ls =
      keep (in_group r.diagnostic_group) (keep (λ (l : Lane). contains hosts l.host) v.lanes) in
    let distinct : IsNodup (map verify_key (map verify_entry ls)) =
      subst IsNodup (sym (map-verify_key ls)) (
        keep-IsNodup (in_group r.diagnostic_group)
          (keep (λ (l : Lane). contains hosts l.host) v.lanes)
          (keep-IsNodup (λ (l : Lane). contains hosts l.host) v.lanes h)) in
    (build_entries-IsNodup (map verify_entry ls) distinct, distinct)

-- No lane is verified twice, and no copy of a lane is built twice.
pub project_distinct :
    (sha256 : List ℕ → String) (raw : List ℕ) (plan : Value) (r : Request) (p : Projection)
    → project sha256 raw plan r ≡ ok p
    → IsNodup (map build_key p.build_matrix) × IsNodup (map verify_key p.verify_matrix)
project_distinct sha256 raw plan r p h =
    let a = project-Accepted sha256 raw plan r p h in
    let facts = validate_plan-LaneFacts plan (expected_of r) a.validated a.accepted in
    subst
      (λ (q : Projection).
        IsNodup (map build_key q.build_matrix) × IsNodup (map verify_key q.verify_matrix))
      (assembled sha256 raw plan r p a) (assemble-IsNodup r a.hosts a.validated facts.distinct)
