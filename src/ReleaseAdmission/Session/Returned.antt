-- ===== src/ReleaseAdmission/Session/Returned.antt =====
-- What a step of a session did, where the session returned.
use mathlib.Core.Path.{subst}
use aros_toolchains.Prelude.{
  ℕ, suc, List, String, Bool, true, false, not, ◌&&◌, Result, ok, raise, ◌≡◌, refl, arith, >>=-ok,
  ok-injective, sym, ap, ◌∙◌,
}
use aros_toolchains.Json.{Value}
use aros_toolchains.ReleaseAdmission.Session.{
  World, next, next-ok, parse_json, committed_input, lift, hold, fail_if, Reply, answered, failed,
  read_reply, send, api, is_repository_path, is_governance_path,
}

module _ {ℓ κ μ} {A : Type ℓ} {B : Type κ} {P : Type μ} where
  pub lift-ok :
      (r : Result A) (w : World) (n : ℕ) (f : A → ℕ → Result (B × ℕ)) {b : B × ℕ}
      → next (lift r w n) f ≡ ok b
      → ((a : A) → r ≡ ok a → f a n ≡ ok b → P)
      → P
  lift-ok (ok a) w n f h k = k a refl h
  lift-ok (raise e) w n f h k = cc

module _ {κ μ} {B : Type κ} {P : Type μ} where
  pub hold-ok :
      (test : Bool) (message : String) (w : World) (n : ℕ) (f : Unit {0} → ℕ → Result (B × ℕ))
      {b : B × ℕ}
      → next (hold test message w n) f ≡ ok b
      → (test ≡ true → f tt n ≡ ok b → P)
      → P
  hold-ok true message w n f h k = k refl h
  hold-ok false message w n f h k = cc

  pub fail_if-ok :
      (test : Bool) (message : String) (w : World) (n : ℕ) (f : Unit {0} → ℕ → Result (B × ℕ))
      {b : B × ℕ}
      → next (fail_if test message w n) f ≡ ok b
      → (test ≡ false → f tt n ≡ ok b → P)
      → P
  fail_if-ok true message w n f h k = cc
  fail_if-ok false message w n f h k = k refl h

pub lift_returned :
    (r : Result (Unit {0})) (w : World) (n m : ℕ) → lift r w n ≡ ok (tt, m) → r ≡ ok tt
lift_returned (ok u) w n m h = refl
lift_returned (raise e) w n m h = cc

pub lift_value {ℓ} :
    {A : Type ℓ} (r : Result A) (w : World) (n m : ℕ) (a : A)
    → lift r w n ≡ ok (a, m)
    → (r ≡ ok a) × (n ≡ m)
lift_value {A = A} (ok b) w n m a h =
    let same : ◌≡◌ {A = A × ℕ} (b, n) (a, m) = ok-injective h in
    (ap ok (ap (λ (t : A × ℕ). t.0) same), ap (λ (t : A × ℕ). t.1) same)
lift_value (raise e) w n m a h = absurd (cc)

-- What an answer that was taken is.
pub answered_lem :
    (r : Reply) (path : String) (v : Value) → read_reply r false path ≡ ok v → r ≡ answered v
answered_lem (answered u) path v h = ground arith
answered_lem (failed status) path v h = cc

send-ok :
    (path : String) (allow_404 : Bool) (w : World) (n m : ℕ) (v : Value)
    → send path allow_404 w n ≡ ok (v, m)
    → (m ≡ suc n) × (read_reply (w.reply n path) allow_404 path ≡ ok v)
unfolding send
send-ok path allow_404 w n m v h =
    >>=-ok (read_reply (w.reply n path) allow_404 path) (λ u. ok (u, suc n)) h
      λ u e h1.
        let same : (u, suc n) ≡ (v, m) = ok-injective h1 in
        (sym (ap (λ t. t.1) same), e ∙ ap (λ t. ok t.0) same)

api_returned :
    (path : String) (allow_404 gov : Bool) (w : World) (n m : ℕ) (v : Value)
    → api path allow_404 gov w n ≡ ok (v, m)
    → (m ≡ suc n) × (read_reply (w.reply n path) allow_404 path ≡ ok v)
unfolding api
api_returned path allow_404 gov w n m v h =
    hold-ok (is_repository_path path) "GitHub metadata endpoint is outside the fixed repository" w n
      _ h
      λ inside h1.
        fail_if-ok (gov && not (is_governance_path path))
          "governance metadata reads are restricted to tag ruleset endpoints" w n _ h1
          λ within h2. send-ok path allow_404 w n m v h2

module _ {κ μ} {B : Type κ} {P : Type μ} where
  pub api-ok :
      (path : String) (allow_404 gov : Bool) (w : World) (n : ℕ) (f : Value → ℕ → Result (B × ℕ))
      {b : B × ℕ}
      → next (api path allow_404 gov w n) f ≡ ok b
      → ((v : Value) → read_reply (w.reply n path) allow_404 path ≡ ok v → f v (suc n) ≡ ok b → P)
      → P
  api-ok path allow_404 gov w n f {b} h k = next-ok (api path allow_404 gov w n) f h λ v m sent h1.
      let r = api_returned path allow_404 gov w n m v sent in
      k v r.1 (subst (λ j. f v j ≡ ok b) r.0 h1)

-- Reading a document of the checkout sends nothing.
pub parse_json_silent :
    (raw : List ℕ) (label : String) (maximum : ℕ) (w : World) (n m : ℕ) (v : Value)
    → parse_json raw label maximum w n ≡ ok (v, m)
    → m ≡ n
unfolding parse_json
parse_json_silent raw label maximum w n m v h = ground arith

pub committed_input_silent :
    (path : String) (w : World) (n m : ℕ) (raw : List ℕ)
    → committed_input path w n ≡ ok (raw, m)
    → m ≡ n
unfolding committed_input
committed_input_silent path w n m raw h = ground arith
