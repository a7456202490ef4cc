-- ===== src/ReleaseAdmission/Governance/Kept.antt =====
-- The receipt that `_governance` returns: a new one, or the saved one if it is recent and still true.
use mathlib.Core.Path.{subst}
use aros_toolchains.Prelude.{
  ℕ, suc, ◌+◌, ◌≤◌, String, true, ◌&&◌, List, ◌∷◌, [], Option, none, some, ok, admission_error,
  require-ok, >>=-ok, ok-injective, some_injective, both_true, require_held, le_of_leb, leb,
  string_eq, nat_eq, inl, inr, ◌⊎◌, eq_of_test, ◌≡◌, refl, ap, sym, ◌∙◌,
}
use aros_toolchains.Json.{
  Value, pos, negsuc, null, bool, int, float, str, arr, obj, get, is_str, as_dict, or_raise,
  or_raise-some, object, has_exactly,
}
use aros_toolchains.Json.Inversion.{is_str-eq}
use aros_toolchains.Json.Canonical.{is_number}
use aros_toolchains.ReleaseAdmission.Checks.{
  Object, is_sha256, is_text, positive_int, governance_receipt_seconds,
}
use aros_toolchains.ReleaseAdmission.Checks.Inverted.{exact_keys-ok, positive_int-eq}
use aros_toolchains.ReleaseAdmission.Session.{World}
use aros_toolchains.ReleaseAdmission.Session.Returned.{lift_value}
use aros_toolchains.ReleaseAdmission.Governance.{is_recent, check_receipt, check_saved, conclude}

-- A time at most a minute ahead and at most fifteen minutes past.
abbrev pub IsRecent : ℕ → Value → Type 0
IsRecent now v =
    ((time : ℕ) × (v ≡ int (pos time))
      × (time ≤ now + 60)
      × (now ≤ time + governance_receipt_seconds))
    ⊎ ((time : ℕ) × (v ≡ int (negsuc time)) × (now + suc time ≤ governance_receipt_seconds))

is_recent-IsRecent : (now : ℕ) (v : Value) → is_recent now v ≡ true → IsRecent now v
is_recent-IsRecent now (int (pos t)) h =
    let p = both_true (leb t (now + 60)) (leb now (t + governance_receipt_seconds)) h in
    inl (t, refl, le_of_leb t (now + 60) p.0, le_of_leb now (t + governance_receipt_seconds) p.1)
is_recent-IsRecent now (int (negsuc t)) h =
    inr (t, refl, le_of_leb (now + suc t) governance_receipt_seconds h)
is_recent-IsRecent now null h = absurd (cc)
is_recent-IsRecent now (bool b) h = absurd (cc)
is_recent-IsRecent now (float t) h = absurd (cc)
is_recent-IsRecent now (str s) h = absurd (cc)
is_recent-IsRecent now (arr vs) h = absurd (cc)
is_recent-IsRecent now (obj fs) h = absurd (cc)

abbrev pub saved_keys : List String
saved_keys = "ruleset_id" ∷ "policy_sha256" ∷ "checked_at" ∷ []

-- A saved receipt of the ruleset and of the digest of its policy, recent when it was read.
pub record IsSaved (w : World) (receipt : Value) (identifier : ℕ) (digest : String) : Type 0 where
  pub members : Object
  pub is_object : as_dict receipt ≡ some members
  pub exact : has_exactly saved_keys members ≡ true
  pub of_ruleset : get members "ruleset_id" ≡ int (pos identifier)
  pub of_policy : get members "policy_sha256" ≡ str digest
  pub is_digest : is_sha256 digest ≡ true
  pub read_at : ℕ
  pub recent : IsRecent (w.now read_at) (get members "checked_at")

-- What is returned: a new receipt with the time, or the saved one.
abbrev pub IsKept : World → Option Value → ℕ → String → Value → Type 0
IsKept w none identifier digest v =
    (at : ℕ) × (v
      ≡ object (
          ("ruleset_id", int (pos identifier))
          ∷ ("policy_sha256", str digest)
          ∷ ("checked_at", int (pos (w.now at)))
          ∷ []))
IsKept w (some receipt) identifier digest v = (v ≡ receipt) × IsSaved w receipt identifier digest

-- What is known of a saved receipt before the provider is asked.
record IsReadable (now : ℕ) (receipt : Value) : Type 0 where
  members : Object
  is_object : as_dict receipt ≡ some members
  exact : has_exactly saved_keys members ≡ true
  identifier : ℕ
  numbered : get members "ruleset_id" ≡ int (pos identifier)
  digested : is_text is_sha256 (get members "policy_sha256") ≡ true
  recent : IsRecent now (get members "checked_at")

check_receipt-IsReadable :
    (receipt : Value) (now : ℕ) → check_receipt receipt now ≡ ok tt → IsReadable now receipt
unfolding check_receipt
check_receipt-IsReadable receipt now h =
    exact_keys-ok receipt saved_keys "governance receipt" _ h λ members is_object exact h1.
      >>=-ok (positive_int (get members "ruleset_id") "governance receipt ruleset_id") _ h1
        λ identifier numbered h2.
          require-ok (is_text is_sha256 (get members "policy_sha256")) _ _ h2 λ digested h3.
            record {
              members = members;
              is_object = is_object;
              exact = exact;
              identifier = identifier;
              numbered =
                  (positive_int-eq (get members "ruleset_id") "governance receipt ruleset_id"
                    identifier numbered).0;
              digested = digested;
              recent =
                  is_recent-IsRecent now (get members "checked_at")
                    (require_held (is_recent now (get members "checked_at")) _ h3);
            }

same_number : (v : Value) (m n : ℕ) → v ≡ int (pos m) → is_number v n ≡ true → v ≡ int (pos n)
unfolding is_number
same_number v m n e h = e ∙ ap (λ k. int (pos k)) (eq_of_test m n (rw e at h))

conclude-IsSaved :
    (w : World) (read_at n m identifier : ℕ) (receipt : Value) (digest : String) (v : Value)
    → IsReadable (w.now read_at) receipt
    → conclude (some receipt) identifier digest w n ≡ ok (v, m)
    → (v ≡ receipt) × IsSaved w receipt identifier digest
unfolding conclude
conclude-IsSaved w read_at n m identifier receipt digest v r h =
    let done = (lift_value _ w n m v h).0 in
    >>=-ok (or_raise (as_dict receipt) (admission_error "governance receipt must be an object")) _
      done
      λ members is_object h1.
        require-ok
          (is_number (get members "ruleset_id") identifier
            && is_str (get members "policy_sha256") digest)
          _ _ h1
          λ same h2.
            let p =
              both_true (is_number (get members "ruleset_id") identifier)
                (is_str (get members "policy_sha256") digest) same in
            let dict = or_raise-some (as_dict receipt) members _ is_object in
            let one : r.members ≡ members = some_injective (sym r.is_object ∙ dict) in
            let digest_is = is_str-eq (get members "policy_sha256") digest p.1 in
            (
              sym (ok-injective h2),
              record {
                members = members;
                is_object = dict;
                exact = subst (λ t. has_exactly saved_keys t ≡ true) one r.exact;
                of_ruleset =
                    same_number (get members "ruleset_id") r.identifier identifier
                      (subst (λ t. get t "ruleset_id" ≡ int (pos r.identifier)) one r.numbered) p.0;
                of_policy = digest_is;
                is_digest =
                    subst (λ t. is_text is_sha256 t ≡ true) digest_is
                      (subst (λ t. is_text is_sha256 (get t "policy_sha256") ≡ true) one
                        r.digested);
                read_at = read_at;
                recent = subst (λ t. IsRecent (w.now read_at) (get t "checked_at")) one r.recent;
              },
            )

pub conclude-IsKept :
    (w : World) (receipt : Option Value) (first after n m identifier : ℕ) (digest : String)
    (v : Value)
    → check_saved receipt w first ≡ ok (tt, after)
    → conclude receipt identifier digest w n ≡ ok (v, m)
    → IsKept w receipt identifier digest v
unfolding conclude check_saved
conclude-IsKept w none first after n m identifier digest v read h =
    (n, sym (ap (λ (t : Value × ℕ). t.0) (ok-injective h)))
conclude-IsKept w (some receipt) first after n m identifier digest v read h =
    conclude-IsSaved w first n m identifier receipt digest v
      (check_receipt-IsReadable receipt (w.now first)
        (lift_value (check_receipt receipt (w.now first)) w first after tt read).0)
      h
