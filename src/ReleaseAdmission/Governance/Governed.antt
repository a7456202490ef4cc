-- ===== src/ReleaseAdmission/Governance/Governed.antt =====
-- What accepted tag governance is.
use aros_toolchains.Prelude.{map, ◌++◌, Bool-cases, inl, inr}
use aros_toolchains.Json.{int, pos, str, is_str_list}
use aros_toolchains.Json.Inversion.{is_str-eq, IsTexts, is_str_list-IsTexts}
use aros_toolchains.ReleaseAdmission.Governance.{rule_list}
use aros_toolchains.ReleaseAdmission.Checks.Inverted.{positive_int-eq}
use aros_toolchains.ReleaseAdmission.Governance.Found.{
  IsActiveTag, is_active_tag-IsActiveTag, IsFound, find_ruleset-IsFound,
}
use aros_toolchains.ReleaseAdmission.Governance.Unbypassed.{
  IsNoList, no_bypass-IsNoList, IsUnbypassed, require_no_bypass-IsUnbypassed,
}
use aros_toolchains.ReleaseAdmission.Governance.Kept.{IsKept, conclude-IsKept}
use mathlib.Core.Path.{subst}
use aros_toolchains.Prelude.{
  ℕ, suc, String, true, false, ◌&&◌, List, [], ◌∷◌, Option, none, some, ok, admission_error,
  require-ok, require_held, >>=-ok, for_each, any, lookup, both_true, ◌==◌, ◌<>◌, string_eq, nat_eq,
  eq_of_test, ◌≡◌, refl, ap, ◌∙◌,
}
use aros_toolchains.Json.{Value, get, is_str, as_dict, as_str, or_raise, or_raise-some}
use aros_toolchains.Json.Canonical.{canonical_json}
use aros_toolchains.Text.Bytes.{decimal, encode}
use aros_toolchains.ReleaseAdmission.Checks.{
  Object, own_repository, positive_int, required_object, require_hashable,
}
use aros_toolchains.ReleaseAdmission.Session.{World, answered, next-ok}
use aros_toolchains.ReleaseAdmission.Session.Returned.{lift-ok, hold-ok, api-ok, answered_lem}
use aros_toolchains.ReleaseAdmission.Runtime.Main.{required_object_lem}
use aros_toolchains.ReleaseAdmission.Governance.{
  check_saved, find_ruleset, check_ruleset, public_policy, governance, is_active_tag, covers_tags,
  names_of_refs, rule_types, is_nonempty,
}
use aros_toolchains.ReleaseAdmission.Governance.Bypass.{require_no_bypass, no_bypass}

-- The rule of a type is among the rules of a ruleset.
pub record HasRule (details : Object) (kind : String) : Type 0 where
  pub rules : List Object
  pub are_rules : rule_list (get details "rules") ≡ some rules
  pub before : List Object
  pub rule : Object
  pub after : List Object
  pub among : rules ≡ before ++ (rule ∷ after)
  pub is_kind : get rule "type" ≡ str kind

-- The rules of a ruleset forbid to move and to delete the tags of releases, for everybody.
pub record IsProtective (details : Object) (identifier : ℕ) : Type 0 where
  pub same : get details "id" ≡ int (pos identifier)
  pub active : IsActiveTag details
  pub conditions : Object
  pub are_conditions : as_dict (get details "conditions") ≡ some conditions
  pub names : Object
  pub are_names : as_dict (get conditions "ref_name") ≡ some names
  pub included : IsTexts (get names "include") ("refs/tags/v*" ∷ [])
  pub excluded : IsTexts (get names "exclude") []
  pub update : HasRule details "update"
  pub deletion : HasRule details "deletion"
  pub unbypassed : IsNoList (lookup "bypass_actors" details)

abbrev pub details_path : ℕ → String
details_path identifier = "repos/" <> own_repository <> "/rulesets/" <> decimal identifier

-- The one active ruleset of the listing, as it was answered: it protects the tags, and nobody may
-- pass it by; and the receipt is made of its policy.
pub record IsGoverned (w : World) (receipt : Option Value) (v : Value) : Type 0 where
  pub identifier : ℕ
  pub listed_at : ℕ
  pub found_at : ℕ
  pub found : IsFound w listed_at found_at identifier
  pub response : Value
  pub answer : w.reply found_at (details_path identifier) ≡ answered response
  pub details : Object
  pub are_details : as_dict response ≡ some details
  pub protective : IsProtective details identifier
  pub node_id : String
  pub at_node : as_str (get details "node_id") ≡ some node_id
  pub unbypassed : IsUnbypassed w node_id identifier
  pub policy : Value
  pub is_policy : public_policy details ≡ ok policy
  pub kept : IsKept w receipt identifier (w.sha256 (encode (canonical_json policy))) v

some_rule :
    (rules : List Object) (kind : String)
    → any (λ t. is_str t kind) (map (λ r. get r "type") rules) ≡ true
    → (before : List Object) × (rule : Object) × (after : List Object) × (rules
        ≡ before ++ (rule ∷ after))
      × (get rule "type" ≡ str kind)
some_rule [] kind h = absurd (cc)
some_rule (r ∷ rules) kind h = elim (Bool-cases (is_str (get r "type") kind)) [
  | inl e ↦ ([], r, rules, refl, is_str-eq (get r "type") kind e)
  | inr e ↦
      let (before, rule, after, split, is_kind) = some_rule rules kind (rw e at h) in
      (r ∷ before, rule, after, ap (λ t. r ∷ t) split, is_kind)
]

HasRule_lem :
    (details : Object) (kind : String) (o : Option (List Object))
    → rule_list (get details "rules") ≡ o
    → any (λ t. is_str t kind) (elim o [ none ↦ [] | some list ↦ map (λ r. get r "type") list ])
      ≡ true
    → HasRule details kind
HasRule_lem details kind none e h = absurd (cc)
HasRule_lem details kind (some rules) e h =
    let (before, rule, after, split, is_kind) = some_rule rules kind h in
    record {
      rules = rules;
      are_rules = e;
      before = before;
      rule = rule;
      after = after;
      among = split;
      is_kind = is_kind;
    }

-- What the scope of a ruleset that covers the tags is.
record IsScope (conditions : Value) : Type 0 where
  members : Object
  are_members : as_dict conditions ≡ some members
  names : Object
  are_names : as_dict (get members "ref_name") ≡ some names
  included : IsTexts (get names "include") ("refs/tags/v*" ∷ [])
  excluded : IsTexts (get names "exclude") []

covers_tags-IsScope :
    (conditions : Value) (o : Option Object)
    → as_dict conditions ≡ o
    → (names : Option Object)
    → elim o [ none ↦ none | some members ↦ as_dict (get members "ref_name") ] ≡ names
    → covers_tags names ≡ true
    → IsScope conditions
covers_tags-IsScope conditions o e none f h = absurd (cc)
covers_tags-IsScope conditions none e (some names) f h = absurd (cc)
covers_tags-IsScope conditions (some members) e (some names) f h =
    let p =
      both_true (is_str_list (get names "include") ("refs/tags/v*" ∷ []))
        (is_str_list (get names "exclude") []) h in
    record {
      members = members;
      are_members = e;
      names = names;
      are_names = f;
      included = is_str_list-IsTexts (get names "include") ("refs/tags/v*" ∷ []) p.0;
      excluded = is_str_list-IsTexts (get names "exclude") [] p.1;
    }

check_ruleset-IsProtective :
    (details : Object) (rest_id identifier : ℕ)
    → get details "id" ≡ int (pos rest_id)
    → check_ruleset details rest_id identifier ≡ ok tt
    → (rest_id ≡ identifier) × IsProtective details identifier
unfolding check_ruleset
check_ruleset-IsProtective details rest_id identifier numbered h =
    require-ok
      (rest_id == identifier
        && is_active_tag details
        && covers_tags (names_of_refs (get details "conditions")))
      _ _ h
      λ scope h1.
        >>=-ok (for_each require_hashable (rule_types (get details "rules"))) _ h1 λ _ _ h2.
          require-ok
            (any (λ t. is_str t "update") (rule_types (get details "rules"))
              && any (λ t. is_str t "deletion") (rule_types (get details "rules")))
            _ _ h2
            λ rules h3.
              let s = both_true _ (covers_tags (names_of_refs (get details "conditions"))) scope in
              let t = both_true (rest_id == identifier) (is_active_tag details) s.0 in
              let r =
                both_true (any (λ t. is_str t "update") (rule_types (get details "rules")))
                  (any (λ t. is_str t "deletion") (rule_types (get details "rules"))) rules in
              let same = eq_of_test rest_id identifier t.0 in
              let covered =
                covers_tags-IsScope (get details "conditions") (as_dict (get details "conditions"))
                  refl (names_of_refs (get details "conditions")) refl s.1 in
              (
                same,
                record {
                  same = numbered ∙ ap (λ k. int (pos k)) same;
                  active = is_active_tag-IsActiveTag details t.1;
                  conditions = covered.members;
                  are_conditions = covered.are_members;
                  names = covered.names;
                  are_names = covered.are_names;
                  included = covered.included;
                  excluded = covered.excluded;
                  update = HasRule_lem details "update" (rule_list (get details "rules")) refl r.0;
                  deletion =
                      HasRule_lem details "deletion" (rule_list (get details "rules")) refl r.1;
                  unbypassed =
                      no_bypass-IsNoList (lookup "bypass_actors" details)
                        (require_held (no_bypass (lookup "bypass_actors" details)) _ h3);
                },
              )

-- Whenever `_governance` returns a receipt: the listing of the rulesets has one entry with the target
-- tag and the enforcement active, and no other; the details were answered of the number of that
-- entry, and have that number, target and enforcement, apply to exactly `refs/tags/v*` with no
-- exclusion, have a rule of type update and one of type deletion, and no bypass list, or an empty
-- one; the query of their node was answered without errors, for that node and number, with no
-- bypass actor counted or listed and no further page; and what is returned is a new receipt of the
-- number, the digest of the policy of the details and the time, or the saved receipt, which then
-- has that number and that digest, and a time at most a minute ahead and at most fifteen minutes
-- past when it was read.
pub governance-IsGoverned :
    (w : World) (n m : ℕ) (receipt : Option Value) (v : Value)
    → governance receipt w n ≡ ok (v, m)
    → IsGoverned w receipt v
unfolding governance
governance-IsGoverned w n m receipt v h = next-ok (check_saved receipt w n) _ h λ _ n1 saved h1.
    next-ok (find_ruleset w n1) _ h1 λ identifier n2 found h2.
      api-ok (details_path identifier) false true w n2 _ h2 λ response replied h3.
        lift-ok (required_object response "tag ruleset details") w (suc n2) _ h3
          λ details are_details h4.
            lift-ok (positive_int (get details "id") "tag ruleset detail id") w (suc n2) _ h4
              λ rest_id numbered h5.
                lift-ok (check_ruleset details rest_id identifier) w (suc n2) _ h5 λ _ checked h6.
                  lift-ok
                    (or_raise (as_str (get details "node_id"))
                      (admission_error "tag ruleset REST node id is malformed"))
                    w (suc n2) _ h6
                    λ node_id at_node h7.
                      hold-ok (is_nonempty node_id) "tag ruleset REST node id is malformed" w
                        (suc n2) _ h7
                        λ _ h8.
                          next-ok (require_no_bypass node_id rest_id w (suc n2)) _ h8
                            λ _ n3 unbypassed h9.
                              lift-ok (public_policy details) w n3 _ h9 λ policy is_policy h10.
                                let p =
                                  check_ruleset-IsProtective details rest_id identifier
                                    (positive_int-eq (get details "id") "tag ruleset detail id"
                                      rest_id numbered).0
                                    checked in
                                record {
                                  identifier = identifier;
                                  listed_at = n1;
                                  found_at = n2;
                                  found = find_ruleset-IsFound w n1 n2 identifier found;
                                  response = response;
                                  answer =
                                      answered_lem (w.reply n2 (details_path identifier))
                                        (details_path identifier) response replied;
                                  details = details;
                                  are_details =
                                      required_object_lem response "tag ruleset details" details
                                        are_details;
                                  protective = p.1;
                                  node_id = node_id;
                                  at_node =
                                      or_raise-some (as_str (get details "node_id")) node_id _
                                        at_node;
                                  unbypassed = subst (IsUnbypassed w node_id) p.0 (
                                      require_no_bypass-IsUnbypassed w (suc n2) n3 node_id rest_id
                                        unbypassed);
                                  policy = policy;
                                  is_policy = is_policy;
                                  kept =
                                      conclude-IsKept w receipt n n1 n3 m identifier
                                        (w.sha256 (encode (canonical_json policy))) v saved h10;
                                }
