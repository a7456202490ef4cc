-- ===== src/RequiredPayload/Policy.antt =====
-- What an accepted policy holds.
use mathlib.Core.Path.{subst}
use aros_toolchains.Prelude.{
  ℕ, ◌+◌, ◌≤◌, String, true, false, ◌&&◌, ◌||◌, List, [], ◌∷◌, ok, policy_error, fold, traverse,
  >>=-ok, require-ok, refuse-ok, ok-injective, fold-invariant, ◌==◌, contains, string_eq, list_eq,
  nat_eq, Dict, keys, insert, length, leb, ltb, all, ◌≡◌, arith, sym, All, Bool-cases, inl, inr,
  eq_of_test,
}
use aros_toolchains.Json.{Value, str, as_str, as_list, as_dict, is_str, item, or_raise}
use aros_toolchains.Text.Split.{split}
use aros_toolchains.Text.Order.{string_ord}
use aros_toolchains.Sorted.{sorted_set, ascends, sorted_set-eq_iff}
use aros_toolchains.ReleaseMatrix.{require_safe_id, require_profile_id}
use aros_toolchains.RequiredPayload.Documents.{
  is_bounded_path, is_relative_path, is_safe_component, validate_path, validate_paths, ProfileState,
  add_profile, PolicyState, PolicyGroup, add_policy_group, validate_policy, max_total_paths,
  max_total_path_bytes, path_bytes, require_policy_fields, require_policy_digest, policy_fields,
  policy_group_fields, max_policy_groups, max_paths_per_profile, max_profiles_per_group,
  max_total_profiles,
}

-- A path that a lane's payload may be required to have.
pub record IsRequiredPath (path : String) : Type 0 where
  pub bounded : is_bounded_path path ≡ true
  pub relative : is_relative_path path ≡ true
  pub components : all is_safe_component (split "/" path) ≡ true

validate_path-IsRequiredPath :
    (v : Value) (path : String) → validate_path v ≡ ok path → IsRequiredPath path
unfolding validate_path
validate_path-IsRequiredPath v path h = >>=-ok (or_raise (as_str v) _) _ h λ s _ h1.
    require-ok (is_bounded_path s) _ _ h1 λ bounded h2.
      require-ok (is_relative_path s) _ _ h2 λ relative h3.
        require-ok (all is_safe_component (split "/" s)) _ _ h3 λ components h4.
          subst IsRequiredPath (ok-injective h4)
            (record { bounded = bounded; relative = relative; components = components })

traverse-All :
    (values : List Value) (paths : List String)
    → traverse validate_path values ≡ ok paths
    → All IsRequiredPath paths
traverse-All [] paths h = subst (All IsRequiredPath) (ok-injective h) tt
traverse-All (v ∷ values) paths h = >>=-ok (validate_path v) _ h λ path one h1.
    >>=-ok (traverse validate_path values) _ h1 λ rest more h2.
      subst (All IsRequiredPath) (ok-injective h2)
        (validate_path-IsRequiredPath v path one, traverse-All values rest more)

-- The paths of a profile: safe, in ascending order.
pub record IsPathList (paths : List String) : Type 0 where
  pub safe : All IsRequiredPath paths
  pub ascending : ascends paths ≡ true

validate_paths-IsPathList :
    (v : Value) (paths : List String) → validate_paths v ≡ ok paths → IsPathList paths
unfolding validate_paths
validate_paths-IsPathList v paths h = >>=-ok (or_raise (as_list v) _) _ h λ values _ h1.
    require-ok (leb 1 (length values) && leb (length values) max_paths_per_profile) _ _ h1 λ few h2.
      >>=-ok (traverse validate_path values) _ h2 λ ps read h3.
        require-ok (ps == sorted_set ps) _ _ h3 λ sorted h4.
          subst IsPathList (ok-injective h4) (record {
            safe = traverse-All values ps read;
            ascending = (sorted_set-eq_iff ps).0 (sym (eq_of_test ps (sorted_set ps) sorted));
          })

-- Every profile that a dict lists has such paths.
abbrev pub HasPathLists : Dict String (List String) → Type 0
HasPathLists = All (λ e. IsPathList e.1)

insert-All {ℓ} :
    {A : Type ℓ} (P : A → Type 0) (k : String) (a : A) (d : Dict String A)
    → P a
    → All (λ e. P e.1) d
    → All (λ e. P e.1) (insert k a d)
insert-All P k a [] h t = (h, tt)
insert-All P k a ((j, b) ∷ d) h t = elim (Bool-cases (k == j)) [
  | inl e ↦ rw e (h, t.1)
  | inr e ↦ rw e (t.0, insert-All P k a d h t.1)
]

none_above : {m n k l : ℕ} → (ltb m n || ltb k l) ≡ false → (n ≤ m) × (l ≤ k)
none_above h = (ground arith, ground arith)

-- The loop over the profiles.
record IsBounded (s : ProfileState) : Type 0 where
  lists : HasPathLists s.profile_map
  few : s.total_paths ≤ max_total_paths
  short : s.total_path_bytes ≤ max_total_path_bytes

add_profile-IsBounded :
    (s : ProfileState) (e : String × Value) (t : ProfileState)
    → IsBounded s
    → add_profile s e ≡ ok t
    → IsBounded t
unfolding add_profile
add_profile-IsBounded s (p, v) t i h = >>=-ok (require_profile_id (str p)) _ h λ profile _ h1.
    refuse-ok (contains (keys s.profile_map) profile) _ _ h1 λ _ h2.
      >>=-ok (validate_paths v) _ h2 λ paths read h3.
        refuse-ok
          (ltb max_total_paths (s.total_paths + length paths)
            || ltb max_total_path_bytes (s.total_path_bytes + path_bytes paths))
          _ _ h3
          λ fits h4.
            let both = none_above fits in
            let lists =
              insert-All IsPathList profile paths s.profile_map
                (validate_paths-IsPathList v paths read) i.lists in
            let next : IsBounded (record {
              profile_map = insert profile paths s.profile_map;
              total_paths = s.total_paths + length paths;
              total_path_bytes = s.total_path_bytes + path_bytes paths;
            }) =
              record { lists = lists; few = both.0; short = both.1 } in
            subst IsBounded (ok-injective h4) next

-- The loop over the groups.
record IsBoundedPolicy (s : PolicyState) : Type 0 where
  groups : All (λ e. HasPathLists e.1.profiles) s.result
  few : s.group_paths ≤ max_total_paths
  short : s.group_path_bytes ≤ max_total_path_bytes

add_policy_group-IsBoundedPolicy :
    (s : PolicyState) (v : Value) (t : PolicyState)
    → IsBoundedPolicy s
    → add_policy_group s v ≡ ok t
    → IsBoundedPolicy t
unfolding add_policy_group
add_policy_group-IsBoundedPolicy s v t i h =
    >>=-ok (require_policy_fields v policy_group_fields "policy group") _ h λ group _ h1.
      >>=-ok (item group "group_id") _ h1 λ id_value _ h2.
        >>=-ok (require_safe_id id_value "policy group ID") _ h2 λ group_id _ h3.
          refuse-ok (contains (keys s.result) group_id) _ _ h3 λ _ h4.
            >>=-ok (item group "source_lock_sha256") _ h4 λ lock_value _ h5.
              >>=-ok (require_policy_digest lock_value "policy source-lock digest") _ h5
                λ lock _ h6. >>=-ok (item group "profiles_sha256") _ h6 λ digest_value _ h7.
                  >>=-ok (require_policy_digest digest_value "policy profiles digest") _ h7
                    λ digest _ h8. >>=-ok (item group "profiles") _ h8 λ profiles_value _ h9.
                      >>=-ok
                        (or_raise (as_dict profiles_value)
                          (policy_error "each policy group requires 1..64 profiles"))
                        _ h9
                        λ profiles _ h10.
                          require-ok
                            (leb 1 (length profiles)
                              && leb (length profiles) max_profiles_per_group)
                            _ _ h10
                            λ _ h11.
                              let first : ProfileState = record {
                                profile_map = [];
                                total_paths = s.group_paths;
                                total_path_bytes = s.group_path_bytes;
                              } in
                              >>=-ok (fold add_profile first profiles) _ h11 λ u looped h12.
                                refuse-ok
                                  (ltb max_total_profiles (s.total_profiles + length u.profile_map))
                                  _ _ h12
                                  λ _ h13.
                                    let b =
                                      fold-invariant IsBounded add_profile add_profile-IsBounded
                                        first profiles u
                                        (record { lists = tt; few = i.few; short = i.short })
                                        looped in
                                    let made : PolicyGroup = record {
                                      source_lock_sha256 = lock;
                                      profiles_sha256 = digest;
                                      profiles = u.profile_map;
                                    } in
                                    let next : IsBoundedPolicy (record {
                                      result = insert group_id made s.result;
                                      total_profiles = s.total_profiles + length u.profile_map;
                                      group_paths = u.total_paths;
                                      group_path_bytes = u.total_path_bytes;
                                    }) =
                                      record {
                                        groups =
                                            insert-All
                                              (λ (g : PolicyGroup). HasPathLists g.profiles)
                                              group_id made s.result b.lists i.groups;
                                        few = b.few;
                                        short = b.short;
                                      } in
                                    subst IsBoundedPolicy (ok-injective h13) next

-- Every profile of an accepted policy has a list of safe paths in ascending order.
pub validate_policy-HasPathLists :
    (policy : Value) (groups : Dict String PolicyGroup)
    → validate_policy policy ≡ ok groups
    → All (λ e. HasPathLists e.1.profiles) groups
unfolding validate_policy
validate_policy-HasPathLists policy groups h =
    >>=-ok (require_policy_fields policy policy_fields "policy") _ h λ value _ h1.
      >>=-ok (item value "schema") _ h1 λ schema _ h2.
        require-ok (is_str schema "aros-toolchain-required-payload-v1") _ _ h2 λ _ h3.
          >>=-ok (item value "groups") _ h3 λ groups_value _ h4.
            >>=-ok (or_raise (as_list groups_value) (policy_error "policy requires 1..32 groups")) _
              h4
              λ values _ h5.
                require-ok (leb 1 (length values) && leb (length values) max_policy_groups) _ _ h5
                  λ _ h6.
                    let first : PolicyState = record {
                      result = [];
                      total_profiles = 0;
                      group_paths = 0;
                      group_path_bytes = 0;
                    } in
                    >>=-ok (fold add_policy_group first values) _ h6 λ s looped h7.
                      let b =
                        fold-invariant IsBoundedPolicy add_policy_group
                          add_policy_group-IsBoundedPolicy first values s
                          (record { groups = tt; few = omega arith; short = omega arith }) looped in
                      subst (λ d. All (λ e. HasPathLists e.1.profiles) d) (ok-injective h7) b.groups
