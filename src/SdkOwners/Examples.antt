-- ===== src/SdkOwners/Examples.antt =====
-- Runs of the owners.
use Prim.Native.Nat.{◌%◌}
use aros_toolchains.Prelude.{
  ℕ, ◌+◌, String, List, [], ◌∷◌, ok, raise, origin_error, Dict, map, any, contains, IsNodup, ◌≡◌,
  refl, string_eq, nat_eq, pair_eq, list_eq, ◌==◌, ◌<>◌, if◌then◌else◌,
}
use aros_toolchains.Json.{Value, str, array, object}
use aros_toolchains.Text.Order.{string_ord}
use aros_toolchains.Sorted.{pair_ord}
use aros_toolchains.SdkOwners.{Key, Owner, Generation, generation, project_owners}
use aros_toolchains.SdkOwners.Closure.{owns, project_owners-closure}

abbrev sum : List ℕ → ℕ
sum [] = 0
sum (x ∷ xs) = x + sum xs

-- A stand-in for SHA-256.
abbrev parity : List ℕ → String
parity xs = if sum xs % 2 == 0 then "even" else "odd"

abbrev reference : String → Value
reference profile = object (("group_id", str "tools") ∷ ("profile", str profile) ∷ [])

abbrev sdk : String → List Value → Value
sdk id references = object (("id", str id) ∷ ("compiler_profiles", array references) ∷ [])

abbrev plan_of : List Value → Dict String Value
plan_of sdks = ("sdks", array sdks) ∷ ("hosts", array (str "linux" ∷ [])) ∷ []

abbrev plan : Dict String Value
plan =
    plan_of (
      sdk "base" (reference "m68k" ∷ reference "arm" ∷ [])
      ∷ sdk "aros" (reference "m68k" ∷ [])
      ∷ [])

abbrev families : Dict String String
families = ("tools", "gnu") ∷ []

abbrev owner : String → String → List String → Owner
owner id profile sdk_ids = record {
  owner_id = id;
  key = ("tools", ("linux", profile));
  compiler_family = "gnu";
  sdk_ids = sdk_ids;
  job_name = "SDK from owned compilers (tools, linux, " <> profile <> ")";
  payload_name = "sdk-v2-" <> id <> "-7-1";
  proof_name = "sdk-v2-proof-" <> id <> "-7-1";
}

abbrev owners : List Owner
owners = owner "even" "arm" ("base" ∷ []) ∷ owner "odd" "m68k" ("aros" ∷ "base" ∷ []) ∷ []

abbrev generations : List Generation
generations =
    generation "aros" ("tools", ("linux", "m68k"))
    ∷ generation "base" ("tools", ("linux", "arm"))
    ∷ generation "base" ("tools", ("linux", "m68k"))
    ∷ []

plan_projected : project_owners parity plan families 7 1 ≡ ok (owners, generations)
unfolding project_owners string_eq nat_eq pair_eq list_eq pair_ord string_ord
plan_projected = refl

-- The same profile twice.
duplicate_refused :
    project_owners parity
      (plan_of (sdk "base" (reference "arm" ∷ reference "arm" ∷ []) ∷ []))
      families
      7
      1
    ≡ raise (origin_error "SDK compiler closure contains duplicates")
unfolding project_owners string_eq nat_eq pair_eq list_eq pair_ord string_ord
duplicate_refused = refl

project_owners-closure_example :
    ((id : String) (k : Key) → contains generations (generation id k) ≡ any (owns id k) owners)
    × IsNodup (map (λ (o : Owner). o.owner_id) owners)
project_owners-closure_example =
    project_owners-closure parity families 7 1 plan owners generations plan_projected
