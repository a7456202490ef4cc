-- ===== src/ReleaseAdmission/Admit/Observed/Concluded.antt =====
-- The last steps of an admission: no tag, and main once more.
use aros_toolchains.Prelude.{
  ℕ, suc, Bool, true, false, some, ok, ◌<>◌, string_eq, some_injective, ok-injective, ◌≡◌, ap, sym,
  ◌∙◌,
}
use aros_toolchains.Json.{Value}
use aros_toolchains.ReleaseAdmission.Checks.{Object}
use aros_toolchains.ReleaseAdmission.Session.{World, next, next-ok, pure, lift}
use aros_toolchains.ReleaseAdmission.Session.Returned.{lift-ok}
use aros_toolchains.ReleaseAdmission.Runtime.{require_main, require_active_repository}
use aros_toolchains.ReleaseAdmission.Runtime.Main.{IsMain, require_main-IsMain}
use aros_toolchains.ReleaseAdmission.Ci.{no_candidate_tag_or_release}
use aros_toolchains.ReleaseAdmission.Ci.Absent.{IsAbsent, no_candidate_tag_or_release-IsAbsent}
use aros_toolchains.ReleaseAdmission.Receipt.{Admitted, receipt_of, validate_receipt}
use aros_toolchains.ReleaseAdmission.Admit.{only_if, conclude}

pub record IsConcluded (w : World) (m : ℕ) (a : Admitted) : Type 0 where
  pub absent_at : ℕ
  pub absent : IsAbsent w absent_at ("v" <> a.version)
  pub last : ℕ
  pub is_last : m ≡ suc last
  pub at_main : IsMain w last a.commit
  pub receipt : Object
  pub valid : validate_receipt (receipt_of a) ≡ ok receipt

pub conclude-IsConcluded :
    (w : World) (n m : ℕ) (a : Admitted) (v : Value)
    → conclude a w n ≡ ok (some v, m)
    → (v ≡ receipt_of a) × IsConcluded w m a
unfolding conclude
conclude-IsConcluded w n m a v h = next-ok (require_active_repository w n) _ h λ _ n1 _ h1.
    next-ok (no_candidate_tag_or_release ("v" <> a.version) w n1) _ h1
      λ absent n2 found h2. if_absent absent n1 n2 found h2
  where
    at_end :
        (current : Bool) (n3 n4 : ℕ) (absent_at : ℕ)
        → IsAbsent w absent_at ("v" <> a.version)
        → require_main a.commit w n3 ≡ ok (current, n4)
        → only_if current
            (λ w n.
              next
                (lift (validate_receipt (receipt_of a)) w n)
                (λ receipt k. pure (some (receipt_of a)) w k))
            w
            n4
          ≡ ok (some v, m)
        → (v ≡ receipt_of a) × IsConcluded w m a
    at_end false n3 n4 absent_at absent now h = cc
    at_end true n3 n4 absent_at absent now h =
        lift-ok (validate_receipt (receipt_of a)) w n4 _ h λ receipt valid h1.
          let main = require_main-IsMain w n3 n4 a.commit now in
          let same : (some (receipt_of a), n4) ≡ (some v, m) = ok-injective h1 in
          (
            sym (some_injective (ap (λ t. t.0) same)),
            record {
              absent_at = absent_at;
              absent = absent;
              last = n3;
              is_last = sym (ap (λ t. t.1) same) ∙ main.0;
              at_main = main.1;
              receipt = receipt;
              valid = valid;
            },
          )

    if_absent :
        (absent : Bool) (n1 n2 : ℕ)
        → no_candidate_tag_or_release ("v" <> a.version) w n1 ≡ ok (absent, n2)
        → only_if absent
            (λ w n. next (require_active_repository w n) (λ _ k.
              next (require_main a.commit w k) (λ current j.
                only_if current
                  (λ w n.
                    next
                      (lift (validate_receipt (receipt_of a)) w n)
                      (λ receipt i. pure (some (receipt_of a)) w i))
                  w
                  j)))
            w
            n2
          ≡ ok (some v, m)
        → (v ≡ receipt_of a) × IsConcluded w m a
    if_absent false n1 n2 found h = cc
    if_absent true n1 n2 found h = next-ok (require_active_repository w n2) _ h λ _ n3 _ h1.
        next-ok (require_main a.commit w n3) _ h1 λ current n4 now h2.
          at_end current n3 n4 n1
            (no_candidate_tag_or_release-IsAbsent w n1 n2 ("v" <> a.version) found) now h2

-- What an admitted receipt rests on: the event is one of the repository's main branch, and the first
-- answer of the provider was that main is at the checked out commit, which is the receipt's; the
-- checkout is clean and has the receipt's version; the pull request is the one candidate; the CI
-- tested the commit; and so the end.
