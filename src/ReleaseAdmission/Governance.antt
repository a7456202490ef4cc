-- ===== src/ReleaseAdmission/Governance.antt =====
-- `_governance` of release-admission-v2.py: the ruleset that protects the tags of releases.
pub mod Bypass
pub mod Found
pub mod Unbypassed
pub mod Kept
pub mod Governed
use aros_toolchains.Prelude.{
  ℕ, suc, ◌+◌, String, Bool, true, false, ◌&&◌, ◌||◌, not, if◌then◌else◌, List, [], ◌∷◌, Option,
  none, some, Result, ok, raise, admission_error, for_each, traverse, ◌==◌, ◌<>◌, string_eq, nat_eq,
  contains, lookup, map, length, ltb, leb, any, all, keep, keys,
}
use aros_toolchains.Prelude as P
use aros_toolchains.Json.{
  pos, negsuc, Value, str, int, arr, no_elements, get, is_str, is_false, as_dict, as_str, as_list,
  or_raise, is_str_list, array, object,
}
use aros_toolchains.Json.Canonical.{canonical_json, is_number}
use aros_toolchains.Sorted.{sort_by, sorted_set, nat_ord}
use aros_toolchains.Text.{char_count}
use aros_toolchains.Text.Order.{string_ord}
use aros_toolchains.Text.Bytes.{decimal, encode}
use aros_toolchains.ReleaseAdmission.Checks.{
  Object, own_repository, is_sha256, is_text, positive_int, required_object, exact_keys,
  require_hashable, governance_receipt_seconds,
}
use aros_toolchains.ReleaseAdmission.Session.{
  Session, Reply, answered, failed, ◌>>=◌, ◌>>◌, lift, hold, ask, api,
}
use aros_toolchains.ReleaseAdmission.Pages.{Listing, paginated}
use aros_toolchains.ReleaseAdmission.Governance.Bypass.{no_bypass, require_no_bypass}

-- `isinstance(rules, list)` of dicts
abbrev pub rule_list : Value → Option (List Object)
rule_list value = elim (as_list value) [
  | none ↦ none
  | some values ↦ elim (traverse (λ v. or_raise (as_dict v) (admission_error "")) values) [
    | ok rules ↦ some rules
    | raise e ↦ none
  ]
]

-- `_public_policy`
unfoldable pub public_policy : Object → Result Value
unfolding canonical_json
public_policy details =
    P.◌>>=◌
      (or_raise (rule_list (get details "rules"))
        (admission_error "tag ruleset rules are malformed"))
      (λ rules. ok (
        object (
          ("id", get details "id")
          ∷ ("target", get details "target")
          ∷ ("enforcement", get details "enforcement")
          ∷ ("conditions", get details "conditions")
          ∷ ("rules", array (sort_by canonical_json (map object rules)))
          ∷ [])))

-- `-60 <= now - checked_at <= 900` of an integer
abbrev pub is_recent : ℕ → Value → Bool
is_recent now (int (pos time)) = leb time (now + 60) && leb now (time + governance_receipt_seconds)
is_recent now (int (negsuc time)) = leb (now + suc time) governance_receipt_seconds
is_recent now _ = false

-- The receipt of an earlier admission, at a time.
unfoldable pub check_receipt : Value → ℕ → Result (Unit {0})
unfolding exact_keys positive_int
check_receipt value now =
    P.◌>>=◌
      (exact_keys value ("ruleset_id" ∷ "policy_sha256" ∷ "checked_at" ∷ []) "governance receipt")
      (λ receipt.
        P.◌>>=◌ (positive_int (get receipt "ruleset_id") "governance receipt ruleset_id") (λ id.
          P.◌>>◌
            (P.require (is_text is_sha256 (get receipt "policy_sha256"))
              (admission_error "governance receipt policy digest is malformed"))
            (P.require (is_recent now (get receipt "checked_at"))
              (admission_error "governance receipt is expired or from the future"))))

unfoldable pub check_saved : Option Value → Session (Unit {0})
unfolding check_receipt
check_saved none w n = ok (tt, n)
check_saved (some value) w n = lift (check_receipt value (w.now n)) w n

abbrev pub is_active_tag : Object → Bool
is_active_tag item = is_str (get item "target") "tag" && is_str (get item "enforcement") "active"

abbrev pub the_only : List ℕ → Result ℕ
the_only (identifier ∷ []) = ok identifier
the_only _ = raise (admission_error "tag governance is ambiguous or missing")

abbrev pub rulesets : Listing
rulesets = record {
  endpoint = "repos/" <> own_repository <> "/rulesets?includes_parents=true&targets=tag";
  array_field = none;
  governance = true;
  identity_field = some "id";
}

-- The active ruleset of tags.
unfoldable pub find_ruleset : Session ℕ
unfolding paginated positive_int sorted_set
find_ruleset = do
  listing ← paginated rulesets
  ids ← lift (
      traverse (λ item. positive_int (get item "id") "active tag ruleset id")
        (keep is_active_tag listing))
  hold (length ids == length (sorted_set ids)) "ruleset listing contains duplicate active tag IDs"
  lift (the_only ids)

abbrev pub names_of_refs : Value → Option Object
names_of_refs conditions = elim (as_dict conditions) [
  | none ↦ none
  | some members ↦ as_dict (get members "ref_name")
]

abbrev pub covers_tags : Option Object → Bool
covers_tags none = false
covers_tags (some names) =
    is_str_list (get names "include") ("refs/tags/v*" ∷ []) && is_str_list (get names "exclude") []

-- The types of the rules; none of them where the rules are malformed.
abbrev pub rule_types : Value → List Value
rule_types rules = elim (rule_list rules) [ none ↦ [] | some list ↦ map (λ r. get r "type") list ]

abbrev pub scope_message : String
scope_message = "active tag ruleset does not enforce the exact immutable v* ref scope"

-- The identity, the scope and the rules of the ruleset, in the order of the tests.
unfoldable pub check_ruleset : Object → ℕ → ℕ → Result (Unit {0})
check_ruleset details rest_id identifier =
    P.◌>>◌
      (P.require
        (rest_id == identifier
          && is_active_tag details
          && covers_tags (names_of_refs (get details "conditions")))
        (admission_error scope_message))
      (P.◌>>◌ (for_each require_hashable (rule_types (get details "rules"))) (
        P.◌>>◌
          (P.require
            (any (λ t. is_str t "update") (rule_types (get details "rules"))
              && any (λ t. is_str t "deletion") (rule_types (get details "rules")))
            (admission_error scope_message))
          (P.require (no_bypass (lookup "bypass_actors" details))
            (admission_error "REST tag ruleset bypass metadata is nonempty or malformed"))))

abbrev pub is_nonempty : String → Bool
is_nonempty s = ltb 0 (char_count s)

-- The new receipt, or the one of before if it is still true.
unfoldable pub conclude : Option Value → ℕ → String → Session Value
conclude none identifier digest w n = ok (
  object (
      ("ruleset_id", int (pos identifier))
      ∷ ("policy_sha256", str digest)
      ∷ ("checked_at", int (pos (w.now n)))
      ∷ []),
  n,
)
conclude (some receipt) identifier digest w n =
    lift
      (P.◌>>=◌ (or_raise (as_dict receipt) (admission_error "governance receipt must be an object"))
        (λ members.
          P.◌>>◌
            (P.require
              (is_number (get members "ruleset_id") identifier
                && is_str (get members "policy_sha256") digest)
              (admission_error "tag governance policy changed since admission"))
            (ok receipt)))
      w n

unfoldable pub governance : Option Value → Session Value
unfolding check_saved find_ruleset api required_object positive_int check_ruleset require_no_bypass
    public_policy conclude decimal
governance receipt = do
  check_saved receipt
  identifier ← find_ruleset
  response ← api ("repos/" <> own_repository <> "/rulesets/" <> decimal identifier) false true
  details ← lift (required_object response "tag ruleset details")
  rest_id ← lift (positive_int (get details "id") "tag ruleset detail id")
  lift (check_ruleset details rest_id identifier)
  node_id ← lift (
      or_raise (as_str (get details "node_id"))
        (admission_error "tag ruleset REST node id is malformed"))
  hold (is_nonempty node_id) "tag ruleset REST node id is malformed"
  require_no_bypass node_id rest_id
  policy ← lift (public_policy details)
  sha256 ← ask (λ w. w.sha256)
  conclude receipt identifier (sha256 (encode (canonical_json policy)))
