-- ===== src/CompilerOwners/Accepted.antt =====
-- `_project_owners` on what `project` returns for a complete selection.
use mathlib.Core.Path.{subst}
use aros_toolchains.Prelude.{
  some_injective, ℕ, ◌<◌, ◌≤◌, ◌^◌, ◌*◌, String, true, false, List, [], ◌∷◌, some, ok, contains,
  string_eq, pair_eq, Dict, ◌≡◌, refl, arith, sym, ap, ◌∙◌, All, All-contains, map, IsNodup, length,
  ltb, leb,
}
use aros_toolchains.Json.{Value, as_dict, item}
use aros_toolchains.Text.{char_count}
use aros_toolchains.Text.Order.{string_ord}
use aros_toolchains.Sorted.{sort_by, sorted_set, pair_ord}
use aros_toolchains.ReleaseMatrix.Lanes.{Lane}
use aros_toolchains.ReleaseMatrix.Lanes.Unique.{IsKnown}
use aros_toolchains.ReleaseMatrix.Plan.Grid.{validate_plan-LaneFacts}
use aros_toolchains.ReleaseMatrix.Plan.Groups.{validate_plan-GroupFacts}
use aros_toolchains.ReleaseMatrix.Project.{
  BuildEntry, Request, Projection, verify_entry, build_entries, project,
}
use aros_toolchains.ReleaseMatrix.Project.Matrices.{length-build_entries, project_bounds}
use aros_toolchains.ReleaseMatrix.Project.Complete.{
  expected_of, build_key, project_complete, project_distinct,
}
use aros_toolchains.CompilerOwners.{
  key_of, digest_input, Owner, owner_id, lane_key_of, project_owners,
}
use aros_toolchains.CompilerOwners.Names.{is_plain, IsPlainKey-intro}
use aros_toolchains.CompilerOwners.Groups.{HasGroup, groups-HasGroup}
use aros_toolchains.CompilerOwners.Loop.{IsReady, identity}
use aros_toolchains.CompilerOwners.Total.{no_collision, owners_total}

contains-key_of :
    (b : BuildEntry) (bs : List BuildEntry)
    → contains (map build_key bs) (build_key b) ≡ false
    → contains (map key_of bs) (key_of b) ≡ false
contains-key_of b [] h = refl
contains-key_of b (c ∷ bs) h = ground (arith, contains-key_of b bs)

keys-IsNodup : (bs : List BuildEntry) → IsNodup (map build_key bs) → IsNodup (map key_of bs)
keys-IsNodup [] h = tt
keys-IsNodup (b ∷ bs) h = (contains-key_of b bs h.0, keys-IsNodup bs h.1)

ltb_intro : {m n : ℕ} → m < n → ltb m n ≡ true
ltb_intro h = ground arith

leb_intro : {m n : ℕ} → m ≤ n → leb m n ≡ true
leb_intro h = ground arith

twice : (n : ℕ) → 2 * n ≡ n * 2
twice n = omega arith

module _ (sha256 : List ℕ → String) (long : (x : List ℕ) → char_count (sha256 x) ≡ 64)
    (groups : Dict String (Dict String Value)) (run_id run_attempt : ℕ)
    (small_id : run_id < 10 ^ 16) (small_attempt : run_attempt < 10 ^ 16) where
  build-IsReady :
      (group_ids : List String) (l : Lane) (copy : String)
      → All (HasGroup groups) group_ids
      → IsKnown group_ids l
      → (is_plain copy ≡ true) × (char_count copy ≤ 1)
      → IsReady sha256 groups run_id run_attempt small_id small_attempt
          (record { entry = verify_entry l; copy = copy })
  unfolding verify_entry
  build-IsReady group_ids l copy h k fine = record {
    plain =
        IsPlainKey-intro l.group_id l.host l.target_profile copy k.safe_group k.host k.safe_profile
          fine;
    known = All-contains (HasGroup groups) group_ids l.group_id h k.group;
    long = long (digest_input (l.group_id, (l.host, (l.target_profile, copy))));
  }

  builds-IsReady :
      (group_ids : List String) (ls : List Lane)
      → All (HasGroup groups) group_ids
      → All (IsKnown group_ids) ls
      → All
          (IsReady sha256 groups run_id run_attempt small_id small_attempt)
          (build_entries (map verify_entry ls))
  unfolding build_entries
  builds-IsReady group_ids [] h k = tt
  builds-IsReady group_ids (l ∷ ls) h k = (
    build-IsReady group_ids l "a" h k.0 (refl, omega arith),
    (build-IsReady group_ids l "b" h k.0 (refl, omega arith), builds-IsReady group_ids ls h k.1),
  )

-- For every complete projection that `project` returned, with a digest of 64 characters without a
-- collision among the projected builds and with run numbers below 10^16, `_project_owners`
-- returns: its owners are the projected builds in the order of (group_id, host, profile, copy),
-- each with the digest of its own coordinates as its identity, no two identities are equal, and
-- the expected lanes are the projected lanes in ascending order.
pub project_owners_total :
    (sha256 : List ℕ → String) (raw : List ℕ) (plan : Value) (r : Request) (p : Projection)
    (dict : Dict String Value) (run_id run_attempt : ℕ)
    → project sha256 raw plan r ≡ ok p
    → p.complete_selection ≡ true
    → as_dict plan ≡ some dict
    → ((x : List ℕ) → char_count (sha256 x) ≡ 64)
    → no_collision sha256 p.build_matrix ≡ true
    → run_id < 10 ^ 16
    → run_attempt < 10 ^ 16
    → (owners : List Owner) × (project_owners sha256 dict p run_id run_attempt
        ≡ ok (owners, sorted_set (map lane_key_of p.verify_matrix)))
      × (map identity owners
          ≡ map (λ b. (key_of b, owner_id sha256 (key_of b))) (sort_by key_of p.build_matrix))
      × IsNodup (map (λ (o : Owner). o.owner_id) owners)
project_owners_total sha256 raw plan r p dict run_id run_attempt h complete is_dict long apart
      small_id small_attempt =
    let c = project_complete sha256 raw plan r p h complete in
    let d = project_distinct sha256 raw plan r p h in
    let b = project_bounds sha256 raw plan r p h in
    let lanes = validate_plan-LaneFacts plan (expected_of r) c.0 c.1 in
    let g = validate_plan-GroupFacts plan (expected_of r) c.0 c.1 in
    let same : g.dict ≡ dict = some_injective (sym g.is_dict ∙ is_dict) in
    let groups =
      groups-HasGroup g.values (record { group_ids = []; used_files = [] }) g.state [] g.looped
        tt in
    let has = subst (All (HasGroup groups.0)) g.same groups.2 in
    let builds : p.build_matrix ≡ build_entries (map verify_entry c.0.lanes) =
      b.1 ∙ ap build_entries c.2 in
    let doubled : length p.build_matrix ≡ length p.verify_matrix * 2 =
      ap length b.1 ∙ (length-build_entries p.verify_matrix ∙ twice (length p.verify_matrix)) in
    owners_total sha256 dict p run_id run_attempt small_id small_attempt g.groups_value g.values
      groups.0 (subst (λ e. item e "groups" ≡ ok g.groups_value) same g.at_groups) g.is_list
      groups.1
      (record {
        doubled = doubled;
        nonempty = ltb_intro (omega (arith, doubled, b.3, c.4, lanes.nonempty));
        bounded = leb_intro (omega (arith, doubled, b.2, b.3, b.4));
        ready =
            subst (All (IsReady sha256 groups.0 run_id run_attempt small_id small_attempt))
              (sym builds)
              (builds-IsReady sha256 long groups.0 run_id run_attempt small_id small_attempt
                c.0.group_ids c.0.lanes has lanes.known);
        distinct = keys-IsNodup p.build_matrix d.0;
        lanes_distinct = d.1;
        apart = apart;
      })
