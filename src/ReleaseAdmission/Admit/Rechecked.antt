-- ===== src/ReleaseAdmission/Admit/Rechecked.antt =====
-- What a recheck of a saved receipt writes.
use aros_toolchains.Prelude.{ℕ, true, Option, none, some, ok, ok-injective, ◌≡◌, ap, ◌∙◌}
use mathlib.Core.Path.{subst}
use aros_toolchains.Json.{Value, get}
use aros_toolchains.Json.Equality.{py_equal}
use aros_toolchains.ReleaseAdmission.Checks.{Object}
use aros_toolchains.ReleaseAdmission.Session.{World, next-ok}
use aros_toolchains.ReleaseAdmission.Session.Returned.{lift-ok, hold-ok}
use aros_toolchains.ReleaseAdmission.Receipt.{validate_receipt}
use aros_toolchains.ReleaseAdmission.Admit.{admission, same_receipt, recheck}
use aros_toolchains.ReleaseAdmission.Admit.Observed.{IsObserved, admission-IsObserved}

pub record IsRechecked (w : World) (m : ℕ) (saved v : Value) : Type 0 where
  pub receipt : Object
  pub valid : validate_receipt saved ≡ ok receipt
  pub equal : py_equal v saved ≡ true
  pub observed : IsObserved w (some (get receipt "governance")) m v
  pub same_governance : observed.found.governance ≡ get receipt "governance"

same_receipt-IsRechecked :
    (current : Option Value) (w : World) (n m : ℕ) (saved v : Value) (receipt : Object)
    → validate_receipt saved ≡ ok receipt
    → admission (some (get receipt "governance")) w 0 ≡ ok (current, n)
    → same_receipt current saved w n ≡ ok (v, m)
    → IsRechecked w m saved v
same_receipt-IsRechecked none w n m saved v receipt valid found h = absurd (cc)
same_receipt-IsRechecked (some current) w n m saved v receipt valid found h =
    hold-ok (py_equal current saved) "read-only admission changed before recheck" w n _ h
      λ equal h1.
        let same : ◌≡◌ {A = Value × ℕ} (current, n) (v, m) = ok-injective h1 in
        let observed =
          admission-IsObserved w (some (get receipt "governance")) m v
            (found ∙ ap (λ t. ok (some t.0, t.1)) same) in
        record {
          receipt = receipt;
          valid = valid;
          equal = subst (λ t. py_equal t saved ≡ true) (ap (λ t. t.0) same) equal;
          observed = observed;
          same_governance = observed.governed.kept.0;
        }

-- What `recheck` writes is equal to the receipt that was saved, which `validate_receipt` accepts, and
-- is a receipt that a whole new admission has observed; that admission was given the governance of
-- the saved receipt, so that the one active ruleset has the number and the policy's digest that are
-- saved there, and the receipt that is written has the same governance.
pub recheck-IsRechecked :
    (w : World) (m : ℕ) (saved v : Value) → recheck saved w 0 ≡ ok (v, m) → IsRechecked w m saved v
unfolding recheck
recheck-IsRechecked w m saved v h = lift-ok (validate_receipt saved) w 0 _ h λ receipt valid h1.
    next-ok (admission (some (get receipt "governance")) w 0) _ h1
      λ current n found h2. same_receipt-IsRechecked current w n m saved v receipt valid found h2
