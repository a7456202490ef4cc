-- ===== src/ArtifactOrigin/Token/Bound.antt =====
-- What an accepted token is bound to.
use mathlib.Core.Path.{subst}
use aros_toolchains.Prelude.{
  some_injective, both_true, require_held, refl, eq_of_test, false, ◌⊎◌, inl, inr, Bool-cases, not,
  ◌||◌, if◌then◌else◌, keys, ℕ, ◌+◌, ◌≤◌, ◌<◌, String, Bool, true, ◌&&◌, some, ok, Exception,
  origin_error, require, for_each, for_each-All, >>=-ok, require-ok, ◌==◌, contains, string_eq,
  nat_eq, ◌≡◌, arith, sym, ap, ◌∙◌, All, All-map,
}
use aros_toolchains.Json.{
  or_raise-some, get, Value, int, pos, negsuc, null, bool, float, str, arr, obj, is_str, as_dict,
  or_raise,
}
use aros_toolchains.ArtifactOrigin.Provider.{Context, positive, require_number}
use aros_toolchains.ArtifactOrigin.Token.{
  Claims, audience, supported_events, expected_texts, expected_numbers, check_text, check_number,
  check_job_workflow, text_shape, identity_shape, workflow_ref_of, read_epoch, epoch_of, is_current,
  require_oidc_claims,
}

-- The token is current: issued and valid by now, with 30 seconds to spare, not yet expired, and
-- valid for an hour at most.
pub record IsCurrent (claims : Claims) (now : ℕ) : Type 0 where
  pub issued : ℕ
  pub starts : ℕ
  pub expires : ℕ
  pub issued_at : get claims "iat" ≡ int (pos issued)
  pub starts_at : get claims "nbf" ≡ int (pos starts)
  pub expires_at : get claims "exp" ≡ int (pos expires)
  pub begun : (issued ≤ now + 30) × (starts ≤ now + 30)
  pub alive : now + 30 < expires
  pub short : expires ≤ issued + 3600

-- The claims have no job workflow, or it is the workflow and commit of the context.
abbrev pub OwnWorkflow : Claims → Context → Type 0
OwnWorkflow claims context =
    ((contains (keys claims) "job_workflow_ref" || contains (keys claims) "job_workflow_sha")
      ≡ false)
    ⊎ ((is_str (get claims "job_workflow_ref") (workflow_ref_of context) ≡ true)
        × (is_str (get claims "job_workflow_sha") context.producer_commit ≡ true))

pub record IsBound (claims : Claims) (context : Context) (now : ℕ) (event : String) (check_id : ℕ)
    : Type 0 where
  pub issuer : is_str (get claims "iss") "https://token.actions.githubusercontent.com" ≡ true
  pub for_us : is_str (get claims "aud") audience ≡ true
  pub event_supported : contains supported_events event ≡ true
  pub event_claimed : is_str (get claims "event_name") event ≡ true
  pub texts : All (λ e. is_str (get claims e.0) e.1 ≡ true) (expected_texts context)
  pub numbers : All (λ e. positive (get claims e.0) ≡ ok e.1) (expected_numbers context)
  pub own_workflow : OwnWorkflow claims context
  pub current : IsCurrent claims now
  pub check : positive (get claims "check_run_id") ≡ ok check_id

text_shape-matches :
    (v : Value) (expected : String)
    → text_shape v expected ≡ "matches-caller"
    → is_str v expected ≡ true
text_shape-matches null expected h = absurd (cc)
text_shape-matches (bool b) expected h = absurd (cc)
text_shape-matches (int n) expected h = absurd (cc)
text_shape-matches (float t) expected h = absurd (cc)
text_shape-matches (arr vs) expected h = absurd (cc)
text_shape-matches (obj fs) expected h = absurd (cc)
text_shape-matches (str s) expected h = text_matches (s == "") (s == expected) h
  where
    text_matches :
        (empty same : Bool)
        → ◌≡◌ {A = String}
            (if empty then "empty" else (if same then "matches-caller" else "differs"))
            "matches-caller"
        → same ≡ true
    text_matches true same h = absurd (cc)
    text_matches false true h = refl
    text_matches false false h = absurd (cc)

identity_shape-matches :
    (claims : Claims) (key expected : String)
    → (identity_shape claims key expected == "matches-caller") ≡ true
    → is_str (get claims key) expected ≡ true
unfolding identity_shape
identity_shape-matches claims key expected h =
    present (contains (keys claims) key) (eq_of_test _ "matches-caller" h)
  where
    present :
        (there : Bool)
        → ◌≡◌ {A = String}
            (if not there then "absent" else text_shape (get claims key) expected)
            "matches-caller"
        → is_str (get claims key) expected ≡ true
    present true h = text_shape-matches (get claims key) expected h
    present false h = absurd (cc)

check_job_workflow-OwnWorkflow :
    (claims : Claims) (context : Context)
    → check_job_workflow claims context ≡ ok tt
    → OwnWorkflow claims context
unfolding check_job_workflow
check_job_workflow-OwnWorkflow claims context h =
    elim (Bool-cases
      (contains (keys claims) "job_workflow_ref" || contains (keys claims) "job_workflow_sha")) [
        | inr none_given ↦ inl none_given
        | inl given ↦
            let both = both_true _ _ (require_held _ _ (rw given at h)) in
            inr (
              identity_shape-matches claims "job_workflow_ref" (workflow_ref_of context) both.0,
              identity_shape-matches claims "job_workflow_sha" context.producer_commit both.1,
            )
      ]

require_same : (m n : ℕ) (e : Exception) → require (m == n) e ≡ ok tt → m ≡ n
require_same m n e h = ground arith

require_number-ok :
    (v : Value) (n : ℕ) (m : String) → require_number v n m ≡ ok tt → positive v ≡ ok n
unfolding require_number
require_number-ok v n m h =
    >>=-ok (positive v) _ h λ k one h1. one ∙ ap ok (require_same k n (origin_error m) h1)

text_held :
    (d : Claims) (e : String × String) → check_text d e ≡ ok tt → is_str (get d e.0) e.1 ≡ true
text_held d (k, expected) h =
    require_held (is_str (get d k) expected)
      (origin_error "OIDC workflow/source/runner binding differs") h

number_held :
    (d : Claims) (e : String × ℕ) → check_number d e ≡ ok tt → positive (get d e.0) ≡ ok e.1
number_held d (k, expected) h =
    require_number-ok (get d k) expected "OIDC provider identity differs" h

epoch_positive : (v : Value) (n : ℕ) → epoch_of v ≡ some n → 0 < n → v ≡ int (pos n)
epoch_positive null n h k = cc
epoch_positive (bool b) n h k = cc
epoch_positive (int (pos m)) n h k = ap (λ i. int (pos i)) (some_injective h)
epoch_positive (int (negsuc m)) n h k = absurd (omega (arith, k, some_injective h))
epoch_positive (float t) n h k = cc
epoch_positive (str s) n h k = cc
epoch_positive (arr vs) n h k = cc
epoch_positive (obj fs) n h k = cc

IsCurrent-intro :
    (claims : Claims) (now issued starts expires : ℕ)
    → read_epoch claims "iat" ≡ ok issued
    → read_epoch claims "nbf" ≡ ok starts
    → read_epoch claims "exp" ≡ ok expires
    → is_current now issued starts expires ≡ true
    → IsCurrent claims now
IsCurrent-intro claims now issued starts expires hi hs he h = record {
  issued = issued;
  starts = starts;
  expires = expires;
  issued_at =
      epoch_positive (get claims "iat") issued
        (or_raise-some _ issued (origin_error "OIDC token times are invalid") hi)
        (ground (arith, h));
  starts_at =
      epoch_positive (get claims "nbf") starts
        (or_raise-some _ starts (origin_error "OIDC token times are invalid") hs)
        (ground (arith, h));
  expires_at =
      epoch_positive (get claims "exp") expires
        (or_raise-some _ expires (origin_error "OIDC token times are invalid") he)
        (ground (arith, h));
  begun = (ground (arith, h), ground (arith, h));
  alive = ground (arith, h);
  short = ground (arith, h);
}

-- A token is accepted only if GitHub's issuer made it for this audience, its event is a supported
-- one and the one that was observed, its repository, commit, ref, workflow, runner, repository
-- number, run and attempt are those of the context, a job workflow that it names is that same
-- workflow at that commit, and it is current; what is returned is the
-- check run that it names.
pub require_oidc_claims-IsBound :
    (claims_value : Value) (context : Context) (now : ℕ) (event : String) (check_id : ℕ)
    (claims : Claims)
    → as_dict claims_value ≡ some claims
    → require_oidc_claims claims_value context now event ≡ ok check_id
    → IsBound claims context now event check_id
unfolding require_oidc_claims
require_oidc_claims-IsBound claims_value context now event check_id claims is_dict h =
    >>=-ok (or_raise (as_dict claims_value) (origin_error "OIDC claims are not an object")) _ h
      λ d given h1.
        require-ok
          (is_str (get d "iss") "https://token.actions.githubusercontent.com"
            && is_str (get d "aud") audience)
          _ _ h1
          λ made h2.
            require-ok (contains supported_events event && is_str (get d "event_name") event) _ _ h2
              λ evented h3.
                >>=-ok (for_each (check_text d) (expected_texts context)) _ h3 λ _ texts h4.
                  >>=-ok (for_each (check_number d) (expected_numbers context)) _ h4 λ _ numbers h5.
                    >>=-ok (check_job_workflow d context) _ h5 λ _ owned h6.
                      >>=-ok (read_epoch d "iat") _ h6 λ issued hi h7.
                        >>=-ok (read_epoch d "nbf") _ h7 λ starts hs h8.
                          >>=-ok (read_epoch d "exp") _ h8 λ expires he h9.
                            require-ok (is_current now issued starts expires) _ _ h9 λ current h10.
                              let same : d ≡ claims = some_injective (
                                sym (
                                  or_raise-some (as_dict claims_value) d
                                    (origin_error "OIDC claims are not an object") given)
                                ∙ is_dict) in
                              let by = both_true _ _ made in
                              let of_event = both_true _ _ evented in
                              subst (λ c. IsBound c context now event check_id) same
                                (record {
                                  issuer = by.0;
                                  for_us = by.1;
                                  event_supported = of_event.0;
                                  event_claimed = of_event.1;
                                  texts =
                                      All-map (text_held d) (expected_texts context) (
                                        for_each-All (check_text d) (expected_texts context) texts);
                                  numbers = All-map (number_held d) (expected_numbers context) (
                                      for_each-All (check_number d) (expected_numbers context)
                                        numbers);
                                  own_workflow = check_job_workflow-OwnWorkflow d context owned;
                                  current =
                                      IsCurrent-intro d now issued starts expires hi hs he current;
                                  check = h10;
                                })
