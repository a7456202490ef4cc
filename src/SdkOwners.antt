-- ===== src/SdkOwners.antt =====
-- scripts/toolchain/sdk-owner-matrix-v2.py: the owners of the SDK builds, one for each compiler that
-- an SDK of the plan uses.
pub mod Closure
pub mod Examples
use aros_toolchains.Prelude.{
  ℕ, String, Bool, true, false, ◌&&◌, not, if◌then◌else◌, List, [], ◌∷◌, ◌++◌, Option, none, some,
  Result, ok, raise, origin_error, type_error, key_error, require, fold, traverse, ◌>>=◌, ◌>>◌,
  ◌==◌, ◌<>◌, contains, string_eq, pair_eq, list_eq, nat_eq, Dict, lookup, insert, keys, map,
  length, leb, ltb, all, ◌*◌,
}
use aros_toolchains.Json.{Value, as_str, as_list, as_dict, item, or_raise}
use aros_toolchains.Json.Canonical.{quote}
use aros_toolchains.Text.{starts_with}
use aros_toolchains.Text.Order.{string_ord}
use aros_toolchains.Text.Split.{join}
use aros_toolchains.Sorted.{sorted_set, pair_ord}
use aros_toolchains.ReleaseMatrix.{max_build_entries, max_sdks, max_sdk_compiler_profiles}
use aros_toolchains.CompilerOwners.{close, fits, artifact_name}

unfoldable pub projection_route : String → Result (String × Bool)
projection_route source_ref =
    if starts_with "refs/tags/" source_ref
    then ok ("push", false)
    else if starts_with "refs/heads/" source_ref
    then ok ("workflow_dispatch", true)
    else raise (origin_error "source ref does not select a release route")

-- (group_id, host, profile)
abbrev pub Key : Type 0
Key = String × (String × String)

-- (sdk_id, group_id, profile, host)
abbrev pub Generation : Type 0
Generation = String × (String × (String × String))

abbrev pub generation : String → Key → Generation
generation sdk_id (group_id, (host, profile)) = (sdk_id, (group_id, (profile, host)))

-- `json.dumps(sdk_ids, separators=(",", ":"))`
unfoldable pub compact_ids : List String → String
unfolding quote join
compact_ids sdk_ids = "[" <> join "," (map quote sdk_ids) <> "]"

unfoldable pub digest_input : List String → Key → List ℕ
unfolding compact_ids
digest_input sdk_ids (group_id, (host, profile)) =
    close "sdk" (close (compact_ids sdk_ids) (close group_id (close host (close profile []))))

-- The variables of the first loop; a set is the list of its members.
pub record Uses : Type 0 where
  pub owner_sdks : Dict Key (List String)
  pub expected : List Generation

abbrev pub sdks_of : Dict Key (List String) → Key → List String
sdks_of owner_sdks key = elim (lookup key owner_sdks) [ none ↦ [] | some ids ↦ ids ]

-- `set.add`
abbrev pub add_new : String → List String → List String
add_new id ids = if contains ids id then ids else ids ++ id ∷ []

-- The innermost round, on one host.
unfoldable pub add_use : String → Uses → Key → Result Uses
add_use sdk_id s key = do
  require (not (contains s.expected (generation sdk_id key)))
      (origin_error "SDK compiler closure contains duplicates")
  ok (record {
    owner_sdks = insert key (add_new sdk_id (sdks_of s.owner_sdks key)) s.owner_sdks;
    expected = s.expected ++ generation sdk_id key ∷ [];
  })

-- `d[k]` that is a text or a list in a validated plan
abbrev pub text_at : Dict String Value → String → Result String
text_at d k = item d k >>= λ v. or_raise (as_str v) type_error

abbrev pub list_at : Dict String Value → String → Result (List Value)
list_at d k = item d k >>= λ v. or_raise (as_list v) type_error

unfoldable pub add_reference : List String → String → Uses → Value → Result Uses
unfolding add_use
add_reference hosts sdk_id s value = do
  reference ← or_raise (as_dict value) type_error
  group_id ← text_at reference "group_id"
  profile ← text_at reference "profile"
  fold (λ s host. add_use sdk_id s (group_id, (host, profile))) s hosts

-- The uses, and the SDKs seen.
unfoldable pub add_sdk : List String → Uses × List String → Value → Result (Uses × List String)
unfolding add_reference
add_sdk hosts (s, sdk_ids) value = do
  sdk ← or_raise (as_dict value) type_error
  sdk_id ← text_at sdk "id"
  require (not (contains sdk_ids sdk_id)) (origin_error "SDK IDs are not unique")
  references ← list_at sdk "compiler_profiles"
  s' ← fold (add_reference hosts sdk_id) s references
  ok (s', sdk_ids ++ sdk_id ∷ [])

pub record Owner : Type 0 where
  pub owner_id : String
  pub key : Key
  pub compiler_family : String
  pub sdk_ids : List String
  pub job_name : String
  pub payload_name : String
  pub proof_name : String

unfoldable pub job_name_of : Key → String
job_name_of (group_id, (host, profile)) =
    "SDK from owned compilers (" <> group_id <> ", " <> host <> ", " <> profile <> ")"

abbrev pub no_uses : Uses
no_uses = record { owner_sdks = []; expected = [] }

module _ (sha256 : List ℕ → String) where
  -- The owner of a key, by the SDKs that use it.
  unfoldable pub owner_of : Dict String String → ℕ → ℕ → Dict Key (List String) → Key → Result Owner
  unfolding digest_input job_name_of sorted_set artifact_name
  owner_of families run_id run_attempt owner_sdks key = do
    let selected = sorted_set (sdks_of owner_sdks key)
    require (ltb 0 (length selected) && leb (length selected) max_sdks)
        (origin_error "SDK owner closure is empty or exceeds the SDK bound")
    let id = sha256 (digest_input selected key)
    let payload_name = artifact_name "sdk-v2-" id run_id run_attempt
    let proof_name = artifact_name "sdk-v2-proof-" id run_id run_attempt
    require (all fits (job_name_of key ∷ payload_name ∷ proof_name ∷ []))
        (origin_error "SDK owner provider name exceeds 256 characters")
    family ← item families key.0
    ok (record {
      owner_id = id;
      key = key;
      compiler_family = family;
      sdk_ids = selected;
      job_name = job_name_of key;
      payload_name = payload_name;
      proof_name = proof_name;
    })

  -- From the uses on.
  unfoldable pub make_owners :
      Dict String String → ℕ → ℕ → ℕ → Uses → Result (List Owner × List Generation)
  unfolding owner_of sorted_set
  make_owners families run_id run_attempt host_count s = do
    require (leb (length s.owner_sdks) max_build_entries)
        (origin_error "SDK owner matrix exceeds the bounded native matrix count")
    require (leb (length s.expected) (max_sdks * max_sdk_compiler_profiles * host_count))
        (origin_error "expected SDK generation closure exceeds the bounded matrix count")
    owners ←
        traverse (owner_of families run_id run_attempt s.owner_sdks)
          (sorted_set (keys s.owner_sdks))
    require (length (sorted_set (map (λ (o : Owner). o.owner_id) owners)) == length owners)
        (origin_error "SDK owner identities are not unique")
    ok (owners, sorted_set s.expected)

  -- The plan is a validated one; its hosts are read once.
  unfoldable pub project_owners :
      Dict String Value → Dict String String → ℕ → ℕ → Result (List Owner × List Generation)
  unfolding add_sdk make_owners
  project_owners plan families run_id run_attempt = do
    sdks ← list_at plan "sdks"
    host_values ← list_at plan "hosts"
    hosts ← traverse (λ v. or_raise (as_str v) type_error) host_values
    walked ← fold (add_sdk hosts) (no_uses, []) sdks
    require (ltb 0 (length walked.1)) (origin_error "release plan must select at least one SDK")
    make_owners families run_id run_attempt (length hosts) walked.0
