-- ===== src/CompilerOwners.antt =====
-- scripts/toolchain/compiler-owner-matrix-v2.py: the owners of the native compiler builds, one
-- for each build of a projected release plan.
pub mod Names
pub mod Digests
pub mod Groups
pub mod Loop
pub mod Total
pub mod Accepted
pub mod Examples
use mathlib.Core.Path.{ap}
use aros_toolchains.Prelude.{
  ℕ, zero, suc, ◌+◌, String, Bool, true, false, ◌&&◌, ◌||◌, not, if◌then◌else◌, List, [], ◌∷◌, ◌++◌,
  Option, none, some, Result, ok, raise, origin_error, type_error, key_error, refuse, require, fold,
  traverse, ◌>>=◌, ◌>>◌, ◌==◌, contains, ◌<>◌, string_eq, list_eq, pair_eq, nat_eq, Dict, lookup,
  insert, map, length, leb, ltb, all, ◌*◌,
}
use aros_toolchains.Json.{Value, as_str, as_list, as_dict, item, or_raise}
use aros_toolchains.Text.{char_count, starts_with}
use aros_toolchains.Text.Bytes.{decimal, encode}
use aros_toolchains.Text.Order.{string_ord}
use aros_toolchains.Sorted.{sort_by, sorted_set, pair_ord}
use aros_toolchains.ReleaseMatrix.{max_build_entries}
use aros_toolchains.ReleaseMatrix.Project.{VerifyEntry, BuildEntry, Projection}

-- `_projection_route`: the event to project for, and whether it is a full qualification.
unfoldable pub projection_route : String → String → Result (String × Bool)
projection_route source_ref event =
    if starts_with "refs/tags/" source_ref && event == "push"
    then ok ("push", false)
    else if starts_with "refs/heads/" source_ref && event == "workflow_dispatch"
    then ok ("workflow_dispatch", true)
    else if starts_with "refs/tags/" source_ref && event == "workflow_dispatch"
    then ok ("workflow_dispatch", true)
    else raise (origin_error "source event/ref does not select a release route")

-- (group_id, host, profile, copy)
abbrev pub Key : Type 0
Key = String × (String × (String × String))

abbrev pub key_of : BuildEntry → Key
key_of entry = (entry.group_id, (entry.host, (entry.profile, entry.copy)))

-- A field, a zero byte, and what follows.
abbrev pub close : String → List ℕ → List ℕ
close text rest = encode text ++ (0 ∷ rest)

-- The bytes that an owner's identity is the digest of: each field, closed by a zero byte.
unfoldable pub digest_input : Key → List ℕ
digest_input (group_id, (host, (profile, copy))) =
    close group_id (close host (close profile (close copy [])))

pub record Owner : Type 0 where
  pub owner_id : String
  pub group_id : String
  pub host : String
  pub profile : String
  pub copy : String
  pub job_name : String
  pub payload_name : String
  pub proof_name : String
  pub recipe : Value
  pub source_lock : Value
  pub profiles : Value

-- (group_id, host, target_profile)
abbrev pub LaneKey : Type 0
LaneKey = String × (String × String)

abbrev pub lane_key_of : VerifyEntry → LaneKey
lane_key_of entry = (entry.group_id, (entry.host, entry.profile))

-- `groups[group["group_id"]] = group`
unfoldable pub add_group :
    Dict String (Dict String Value) → Value → Result (Dict String (Dict String Value))
add_group groups value = do
  group ← or_raise (as_dict value) type_error
  group_id_value ← item group "group_id"
  group_id ← or_raise (as_str group_id_value) type_error
  ok (insert group_id group groups)

abbrev pub fits : String → Bool
fits name = ltb 0 (char_count name) && leb (char_count name) 256

unfoldable pub job_name_of : Key → String
job_name_of (group_id, (host, (profile, copy))) =
    "Native compiler (" <> group_id <> ", " <> host <> ", " <> profile <> ", " <> copy <> ")"

unfoldable pub artifact_name : String → String → ℕ → ℕ → String
unfolding decimal
artifact_name prefix owner_id run_id run_attempt =
    prefix <> owner_id <> "-" <> decimal run_id <> "-" <> decimal run_attempt

-- The variables of the loop over the build entries.
pub record OwnerState : Type 0 where
  pub owners : List Owner
  pub owner_keys : List Key

module _ (sha256 : List ℕ → String) where
  abbrev pub owner_id : Key → String
  owner_id key = sha256 (digest_input key)

  module _ (groups : Dict String (Dict String Value)) (run_id run_attempt : ℕ) where
    -- The owner of an entry, whose group is at hand.
    unfoldable pub owner_of : BuildEntry → Dict String Value → Result Owner
    owner_of entry group = do
      let id = owner_id (key_of entry)
      let job_name = job_name_of (key_of entry)
      let payload_name = artifact_name "native-v2-" id run_id run_attempt
      let proof_name = artifact_name "native-v2-proof-" id run_id run_attempt
      require (all fits (job_name ∷ payload_name ∷ proof_name ∷ []))
          (origin_error "native compiler provider name exceeds 256 characters")
      recipe ← item group "recipe"
      source_lock ← item group "source_lock"
      profiles ← item group "profiles"
      ok (record {
        owner_id = id;
        group_id = entry.group_id;
        host = entry.host;
        profile = entry.profile;
        copy = entry.copy;
        job_name = job_name;
        payload_name = payload_name;
        proof_name = proof_name;
        recipe = recipe;
        source_lock = source_lock;
        profiles = profiles;
      })

    -- One round of the loop.
    unfoldable pub add_owner : OwnerState → BuildEntry → Result OwnerState
    unfolding owner_of
    add_owner s entry = do
      refuse (contains s.owner_keys (key_of entry))
          (origin_error "native compiler owner matrix contains duplicate lanes")
      group ← item groups entry.group_id
      owner ← owner_of entry group
      ok (record {
        owners = s.owners ++ owner ∷ [];
        owner_keys = s.owner_keys ++ key_of entry ∷ [];
      })

  -- The owners, and the lanes that they are two copies of.
  unfoldable pub project_owners :
      Dict String Value → Projection → ℕ → ℕ → Result (List Owner × List LaneKey)
  unfolding add_group add_owner sort_by sorted_set
  project_owners plan projection run_id run_attempt = do
    groups_value ← item plan "groups"
    group_values ← or_raise (as_list groups_value) type_error
    groups ← fold add_group [] group_values
    let build_entries = projection.build_matrix
    require (ltb 0 (length build_entries) && leb (length build_entries) max_build_entries)
        (origin_error "compiler owner matrix is empty or exceeds the native matrix bound")
    s ←
        fold (add_owner groups run_id run_attempt) (record { owners = []; owner_keys = [] })
          (sort_by key_of build_entries)
    let lanes = sorted_set (map lane_key_of projection.verify_matrix)
    require (length s.owner_keys == length build_entries) (
        origin_error
          "native compiler owner matrix is not closed over the validated build projection")
    require (length lanes * 2 == length s.owner_keys)
        (origin_error "native compiler owners do not contain exactly two copies per lane")
    require (length (sorted_set (map (λ (o : Owner). o.owner_id) s.owners)) == length s.owners)
        (origin_error "native compiler owner identities are not unique")
    ok (s.owners, lanes)
