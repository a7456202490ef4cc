-- ===== src/ReleaseAdmission/Admit/Probed.antt =====
-- What the report of `probe-governance-visibility` says.
use mathlib.Core.Path.{subst}
use aros_toolchains.Prelude.{
  ℕ, suc, ◌<◌, length, none, String, true, false, ◌&&◌, List, [], ◌∷◌, Option, some, ok, raise,
  admission_error, keep, lookup, both_true, ok-injective, ◌<>◌, string_eq, ◌≡◌, refl, ap, arith,
}
use aros_toolchains.Json.{
  Value, Elements, null, bool, int, float, str, arr, obj, pos, no_elements, element, elements,
  entries, to_members, get, as_dict,
}
use aros_toolchains.ReleaseAdmission.Checks.Inverted.{IsOnly, positive_int-eq}
use aros_toolchains.ReleaseAdmission.Governance.Found.{
  IsActiveTag, is_active_tag-IsActiveTag, keep-IsOnly,
}
use aros_toolchains.ReleaseAdmission.Governance.Unbypassed.{is_int-eq}
use aros_toolchains.ReleaseAdmission.Admit.{is_visible, bypass_count, is_explicitly_empty}
use aros_toolchains.Json.Canonical.{canonical_json}
use aros_toolchains.Text.Bytes.{decimal, encode}
use aros_toolchains.ReleaseAdmission.Checks.{Object, own_repository, positive_int, required_object}
use aros_toolchains.ReleaseAdmission.Session.{World, answered, next-ok}
use aros_toolchains.ReleaseAdmission.Session.Returned.{lift-ok, hold-ok, api-ok, answered_lem}
use aros_toolchains.ReleaseAdmission.Pages.{paginated, plain}
use aros_toolchains.ReleaseAdmission.Runtime.{require_active_repository}
use aros_toolchains.ReleaseAdmission.Runtime.Main.{required_object_lem}
use aros_toolchains.ReleaseAdmission.Governance.{is_active_tag, public_policy}
use aros_toolchains.ReleaseAdmission.Governance.Bypass.{is_int}
use aros_toolchains.ReleaseAdmission.Receipt.{validate_receipt}
use aros_toolchains.ReleaseAdmission.Admit.{
  bypass_list, the_active, visibility_report, probe_visibility,
}

abbrev rulesets_path : String
rulesets_path = "repos/" <> own_repository <> "/rulesets?includes_parents=true&targets=tag"

abbrev details_path : ℕ → String
details_path identifier = "repos/" <> own_repository <> "/rulesets/" <> decimal identifier

-- What a report shows of the bypass list of the details, if the token saw one.
pub data ShowsBypass (report : Object) : Option Value → Type 0 where
  unseen :
      get report "bypass_visible" ≡ bool false
      → get report "bypass_count" ≡ null
      → get report "explicitly_empty_bypass" ≡ bool false
      → ShowsBypass report none
  seen_empty :
      get report "bypass_visible" ≡ bool true
      → get report "bypass_count" ≡ int (pos 0)
      → get report "explicitly_empty_bypass" ≡ bool true
      → ShowsBypass report (some (arr no_elements))
  seen :
      (actor : Value) (actors : Elements)
      → get report "bypass_visible" ≡ bool true
      → get report "bypass_count" ≡ int (pos (suc (length (elements actors))))
      → get report "explicitly_empty_bypass" ≡ bool false
      → ShowsBypass report (some (arr (element actor actors)))

-- A report of the ruleset with this number, these details, and the digest of this policy.
pub record IsReport (profile : String) (identifier : ℕ) (details : Object) (digest : String)
    (v : Value) : Type 0 where
  pub members : Object
  pub is_object : as_dict v ≡ some members
  pub schema : get members "schema" ≡ str "aros-toolchains-governance-visibility-probe-v1"
  pub assurance : get members "assurance" ≡ str "visibility-only-not-release-admission"
  pub declared : get members "declared_job_contents_permission" ≡ str profile
  pub numbered : get members "ruleset_id" ≡ int (pos identifier)
  pub bypass : ShowsBypass members (lookup "bypass_actors" details)
  pub policy : get members "public_policy_sha256" ≡ str digest

-- The one active ruleset of the listing, as it was answered, and the report that is made of it.
pub record IsProbed (w : World) (n m : ℕ) (profile : String) (v : Value) : Type 0 where
  pub listed_at : ℕ
  pub active_first : require_active_repository w n ≡ ok (tt, listed_at)
  pub listing : List Object
  pub found_at : ℕ
  pub listed : paginated (plain rulesets_path) w listed_at ≡ ok (listing, found_at)
  pub entry : Object
  pub only : IsOnly IsActiveTag listing entry
  pub identifier : ℕ
  pub positive : 0 < identifier
  pub numbered : get entry "id" ≡ int (pos identifier)
  pub response : Value
  pub answer : w.reply found_at (details_path identifier) ≡ answered response
  pub details : Object
  pub are_details : as_dict response ≡ some details
  pub same_id : get details "id" ≡ int (pos identifier)
  pub active : IsActiveTag details
  pub policy : Value
  pub is_policy : public_policy details ≡ ok policy
  pub report : IsReport profile identifier details (w.sha256 (encode (canonical_json policy))) v
  pub active_last : require_active_repository w (suc found_at) ≡ ok (tt, m)
  pub no_receipt :
      validate_receipt v ≡ raise (admission_error "admission receipt has an unexpected field set")

-- The members of a report.
abbrev members_of : String → ℕ → Option (List Value) → String → Object
members_of profile identifier bypass digest = entries (
    to_members (
      ("schema", str "aros-toolchains-governance-visibility-probe-v1")
      ∷ ("assurance", str "visibility-only-not-release-admission")
      ∷ ("repository", str own_repository)
      ∷ ("declared_job_contents_permission", str profile)
      ∷ ("ruleset_id", int (pos identifier))
      ∷ ("bypass_visible", bool (is_visible bypass))
      ∷ ("bypass_count", bypass_count bypass)
      ∷ ("explicitly_empty_bypass", bool (is_explicitly_empty bypass))
      ∷ ("public_policy_sha256", str digest)
      ∷ []))

bypass_shown :
    (profile : String) (identifier : ℕ) (o : Option Value) (bypass : Option (List Value))
    (digest : String)
    → bypass_list o ≡ ok bypass
    → ShowsBypass (members_of profile identifier bypass digest) o
unfolding string_eq
bypass_shown profile identifier none none digest h = ShowsBypass.unseen refl refl refl
bypass_shown profile identifier none (some actors) digest h = absurd (cc)
bypass_shown profile identifier (some (arr no_elements)) (some []) digest h =
    ShowsBypass.seen_empty refl refl refl
bypass_shown profile identifier (some (arr no_elements)) (some (a ∷ actors)) digest h = absurd (cc)
bypass_shown profile identifier (some (arr no_elements)) none digest h = absurd (cc)
bypass_shown profile identifier (some (arr (element a vs))) none digest h = absurd (cc)
bypass_shown profile identifier (some (arr (element a vs))) (some []) digest h = absurd (cc)
bypass_shown profile identifier (some (arr (element a vs))) (some (b ∷ actors)) digest h =
    ShowsBypass.seen a vs refl (counted (cc)) refl
  where
    counted :
        actors ≡ elements vs
        → ◌≡◌ {A = Value} (int (pos (suc (length actors)))) (int (pos (suc (length (elements vs)))))
    counted e = ap (λ t. int (pos (suc (length t)))) e
bypass_shown profile identifier (some null) bypass digest h = absurd (cc)
bypass_shown profile identifier (some (bool b)) bypass digest h = absurd (cc)
bypass_shown profile identifier (some (int z)) bypass digest h = absurd (cc)
bypass_shown profile identifier (some (float t)) bypass digest h = absurd (cc)
bypass_shown profile identifier (some (str s)) bypass digest h = absurd (cc)
bypass_shown profile identifier (some (obj fs)) bypass digest h = absurd (cc)

visibility_report-IsReport :
    (profile : String) (identifier : ℕ) (details : Object) (bypass : Option (List Value))
    (digest : String)
    → bypass_list (lookup "bypass_actors" details) ≡ ok bypass
    → IsReport profile identifier details digest
        (visibility_report profile identifier bypass digest)
unfolding visibility_report string_eq
visibility_report-IsReport profile identifier details bypass digest h = record {
  members = members_of profile identifier bypass digest;
  is_object = refl;
  schema = refl;
  assurance = refl;
  declared = refl;
  numbered = refl;
  bypass = bypass_shown profile identifier (lookup "bypass_actors" details) bypass digest h;
  policy = refl;
}

the_active-only :
    (entries : List Object) (entry : Object) → the_active entries ≡ ok entry → entries ≡ entry ∷ []
the_active-only [] entry h = cc
the_active-only (e ∷ []) entry h = ground arith
the_active-only (e ∷ f ∷ es) entry h = cc

report_refused :
    (profile : String) (identifier : ℕ) (bypass : Option (List Value)) (digest : String)
    → validate_receipt (visibility_report profile identifier bypass digest)
      ≡ raise (admission_error "admission receipt has an unexpected field set")
unfolding validate_receipt visibility_report string_eq
report_refused profile identifier bypass digest = refl

-- Whenever the probe of visibility returns a report: the repository was active at its first requests
-- and at its last; the list that it read in between has one active ruleset of tags and no other,
-- whose details were then answered, with the same number, target and enforcement; the report shows
-- the declared permission, that number, the digest of the policy of the details, and their bypass
-- list: not visible, with no count and not as empty where they have none, and else visible, with
-- its length, and as explicitly empty just if it is; and `validate_receipt` does not take the report
-- for a receipt of an admission.
pub probe_visibility-IsProbed :
    (w : World) (n m : ℕ) (profile : String) (v : Value)
    → probe_visibility profile w n ≡ ok (v, m)
    → IsProbed w n m profile v
unfolding probe_visibility
probe_visibility-IsProbed w n m profile v h =
    next-ok (require_active_repository w n) _ h λ _ n1 active h1.
      next-ok (paginated (plain rulesets_path) w n1) _ h1 λ listing n2 listed h2.
        lift-ok (the_active (keep is_active_tag listing)) w n2 _ h2 λ entry only h3.
          lift-ok (positive_int (get entry "id") "visibility ruleset id") w n2 _ h3
            λ identifier numbered h4.
              api-ok (details_path identifier) false false w n2 _ h4 λ response replied h5.
                lift-ok (required_object response "visibility ruleset") w (suc n2) _ h5
                  λ details are_details h6.
                    hold-ok (is_int (get details "id") identifier && is_active_tag details)
                      "visibility ruleset identity changed" w (suc n2) _ h6
                      λ same h7.
                        lift-ok (bypass_list (lookup "bypass_actors" details)) w (suc n2) _ h7
                          λ bypass of_details h8.
                            lift-ok (public_policy details) w (suc n2) _ h8 λ policy is_policy h9.
                              next-ok (require_active_repository w (suc n2)) _ h9 λ _ n3 last h10.
                                let digest = w.sha256 (encode (canonical_json policy)) in
                                let done : (visibility_report profile identifier bypass digest, n3)
                                    ≡ (v, m) =
                                  ok-injective h10 in
                                let split =
                                  both_true (is_int (get details "id") identifier)
                                    (is_active_tag details) same in
                                let number =
                                  positive_int-eq (get entry "id") "visibility ruleset id"
                                    identifier numbered in
                                let made = ap (λ t. t.0) done in
                                record {
                                  listed_at = n1;
                                  active_first = active;
                                  listing = listing;
                                  found_at = n2;
                                  listed = listed;
                                  entry = entry;
                                  only =
                                      keep-IsOnly listing entry
                                        (the_active-only (keep is_active_tag listing) entry only);
                                  identifier = identifier;
                                  positive = number.1;
                                  numbered = number.0;
                                  response = response;
                                  answer =
                                      answered_lem (w.reply n2 (details_path identifier))
                                        (details_path identifier) response replied;
                                  details = details;
                                  are_details =
                                      required_object_lem response "visibility ruleset" details
                                        are_details;
                                  same_id = is_int-eq (get details "id") identifier split.0;
                                  active = is_active_tag-IsActiveTag details split.1;
                                  policy = policy;
                                  is_policy = is_policy;
                                  report = subst (IsReport profile identifier details digest) made (
                                      visibility_report-IsReport profile identifier details bypass
                                        digest of_details);
                                  active_last =
                                      subst (λ k. require_active_repository w (suc n2) ≡ ok (tt, k))
                                        (ap (λ t. t.1) done) last;
                                  no_receipt =
                                      subst
                                        (λ u.
                                          validate_receipt u
                                          ≡ raise (
                                              admission_error
                                                "admission receipt has an unexpected field set"))
                                        made (report_refused profile identifier bypass digest);
                                }
