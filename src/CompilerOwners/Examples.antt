-- ===== src/CompilerOwners/Examples.antt =====
-- compiler-owner-matrix-v2.py on the plan of the release matrix examples.
use Prim.Native.Nat.{◌%◌, ◌/◌}
use aros_toolchains.Prelude.{
  ℕ, ◌+◌, String, Bool, true, false, List, [], ◌∷◌, none, ok, ◌<>◌, ◌≡◌, refl, arith, string_eq,
  list_eq, nat_eq, pair_eq, map, IsNodup, ◌==◌, contains,
}
use aros_toolchains.Text.{char_count}
use aros_toolchains.Text.Bytes.{char_count-append}
use aros_toolchains.Text.Order.{string_ord}
use aros_toolchains.Sorted.{sort_by, sorted_set, pair_ord}
use aros_toolchains.ReleaseMatrix.{
  active_hosts, is_safe_id, is_profile_id, is_sdk_id, is_sdk_profile_id,
}
use aros_toolchains.ReleaseMatrix.Project.{Request, Projection, assemble, project}
use aros_toolchains.ReleaseMatrix.Examples.{digest, commit, plan, hosts, validated, plan_fields}
use aros_toolchains.CompilerOwners.{
  Key, digest_input, key_of, Owner, owner_id, lane_key_of, project_owners,
}
use aros_toolchains.CompilerOwners.Names.{IsPlainKey, IsPlainKey-intro}
use aros_toolchains.CompilerOwners.Digests.{digest_input-injective}
use aros_toolchains.CompilerOwners.Loop.{identity}
use aros_toolchains.CompilerOwners.Total.{no_collision}
use aros_toolchains.CompilerOwners.Accepted.{project_owners_total}

abbrev sum : List ℕ → ℕ
sum [] = 0
sum (x ∷ xs) = x + sum xs

abbrev digit : Bool → String
digit true = "a"
digit false = "b"

abbrev zeros : String
zeros = "0000000000000000000000000000000000000000000000000000000000000"

-- A stand-in for SHA-256 that sums the bytes.
abbrev byte_sum : List ℕ → String
byte_sum xs =
    digit (sum xs % 2 == 0) <> digit (sum xs / 2 % 2 == 0) <> digit (sum xs / 4 % 2 == 0) <> zeros

char_count-digit : (b : Bool) → char_count (digit b) ≡ 1
char_count-digit true = refl
char_count-digit false = refl

char_count-byte_sum : (xs : List ℕ) → char_count (byte_sum xs) ≡ 64
char_count-byte_sum xs = simp (char_count-append, char_count-digit) refl

abbrev request : Request
request = record {
  plan_sha256 = byte_sum [];
  inputs_sha256 = digest;
  producer_commit = commit;
  tools_commit = commit;
  event = "push";
  scope = "full";
  full_qualification = false;
  diagnostic_group = none;
}

projection : Projection
unfolding assemble
projection = assemble request hosts validated

plan_projected : project byte_sum [] plan request ≡ ok projection
unfolding project projection string_eq list_eq nat_eq pair_eq is_safe_id is_profile_id is_sdk_id
    is_sdk_profile_id
plan_projected = refl

builds_apart : no_collision byte_sum projection.build_matrix ≡ true
unfolding projection digest_input string_eq list_eq nat_eq
builds_apart = refl

project_owners_total_example :
    (owners : List Owner) × (project_owners byte_sum plan_fields projection 17 1
      ≡ ok (owners, sorted_set (map lane_key_of projection.verify_matrix)))
    × (map identity owners
        ≡ map
            (λ b. (key_of b, owner_id byte_sum (key_of b)))
            (sort_by key_of projection.build_matrix))
    × IsNodup (map (λ (o : Owner). o.owner_id) owners)
unfolding projection string_eq
project_owners_total_example =
    project_owners_total byte_sum [] plan request projection plan_fields 17 1 plan_projected refl
      refl char_count-byte_sum builds_apart (omega arith) (omega arith)

abbrev first_key : Key
first_key = ("gnu", ("linux-x86_64", ("pc-x86_64", "a")))

first_plain : IsPlainKey first_key
unfolding is_safe_id is_profile_id string_eq nat_eq
first_plain =
    IsPlainKey-intro "gnu" "linux-x86_64" "pc-x86_64" "a" safe known profile (refl, omega arith)
  where
    safe : is_safe_id "gnu" ≡ true
    safe = refl

    known : contains active_hosts "linux-x86_64" ≡ true
    known = refl

    profile : is_profile_id "pc-x86_64" ≡ true
    profile = refl

digest_input-injective_example : first_key ≡ first_key
digest_input-injective_example =
    digest_input-injective first_key first_key first_plain first_plain refl
