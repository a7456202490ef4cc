-- ===== src/ReleaseAdmission/Admit/Observed.antt =====
-- What an admission that returned a receipt has observed.
mod Concluded
use mathlib.Core.Path.{subst}
use aros_toolchains.Prelude.{
  ℕ, suc, String, Bool, true, false, Option, none, some, ok, ◌<>◌, string_eq, some_injective,
  ok-injective, ◌≡◌, refl, ap, sym, ◌∙◌,
}
use aros_toolchains.Json.{Value}
use aros_toolchains.ReleaseAdmission.Checks.{Object, own_repository, main_ref, is_oid, is_semver}
use aros_toolchains.ReleaseAdmission.Session.{World, next, next-ok, pure, lift}
use aros_toolchains.ReleaseAdmission.Session.Returned.{lift-ok, hold-ok}
use aros_toolchains.ReleaseAdmission.Inputs.{
  Event, load_head, event_context, committed_release_version, input_context,
}
use aros_toolchains.ReleaseAdmission.Inputs.Silent.{
  event_context-IsOwnEvent, committed_release_version-IsVersion,
}
use aros_toolchains.ReleaseAdmission.Runtime.{
  require_main, require_active_repository, require_runtime,
}
use aros_toolchains.ReleaseAdmission.Runtime.Main.{IsMain, require_main-IsMain}
use aros_toolchains.ReleaseAdmission.Governance.{governance}
use aros_toolchains.ReleaseAdmission.Governance.Governed.{IsGoverned, governance-IsGoverned}
use aros_toolchains.ReleaseAdmission.Pull.{candidate_pull}
use aros_toolchains.ReleaseAdmission.Ci.{Attempt, require_ci, no_candidate_tag_or_release}
use aros_toolchains.ReleaseAdmission.Ci.Tested.{IsTested, require_ci-IsTested}
use aros_toolchains.ReleaseAdmission.Ci.Absent.{IsAbsent, no_candidate_tag_or_release-IsAbsent}
use aros_toolchains.ReleaseAdmission.Receipt.{Admitted, receipt_of, validate_receipt}
use aros_toolchains.ReleaseAdmission.Admit.{
  only_if, if_found, event_run, conclude, admit_pull, admit_current, admit_event, admission,
}
use aros_toolchains.ReleaseAdmission.Admit.Observed.Concluded.{IsConcluded, conclude-IsConcluded}

-- The end of an admission: after the request `from` the tag was missing and no release listed had
-- it, and the answer to the last request was that main is still at the commit.
pub record IsObserved (w : World) (g : Option Value) (m : ℕ) (v : Value) : Type 0 where
  pub found : Admitted
  pub is_receipt : v ≡ receipt_of found
  pub at_head : found.commit ≡ w.head
  pub is_commit : is_oid w.head ≡ true
  pub own_repository_event : w.repository ≡ own_repository
  pub main_event : w.ref ≡ main_ref
  pub event : Event
  pub of_event : event_context w.head w 0 ≡ ok (some event, 0)
  pub version_numbers : is_semver found.version ≡ true
  pub clean : w.is_clean ≡ true
  pub at_main : IsMain w 0 w.head
  pub committed : committed_release_version w 1 ≡ ok (found.version, 1)
  pub later : ℕ
  pub pull : candidate_pull w.head found.version w 1 ≡ ok (some found.pull_request, later)
  pub tested : IsTested w w.head (event_run event) found.run
  pub governed : IsGoverned w g found.governance
  pub concluded : IsConcluded w m found

-- From the pull request on.
record IsPulled (w : World) (g : Option Value) (m : ℕ) (v : Value) (head version : String)
    (event : Event) (number : ℕ) : Type 0 where
  found : Admitted
  is_receipt : v ≡ receipt_of found
  at_head : found.commit ≡ head
  versioned : found.version ≡ version
  numbered : found.pull_request ≡ number
  tested : IsTested w head (event_run event) found.run
  governed : IsGoverned w g found.governance
  concluded : IsConcluded w m found

found_run :
    (run : Option Attempt) (w : World) (g : Option Value) (n m : ℕ) (v policy : Value)
    (head version : String) (event : Event) (number : ℕ) (make : Attempt → Admitted)
    → ((a : Attempt)
        → ((make a).commit ≡ head)
          × ((make a).version ≡ version)
          × ((make a).pull_request ≡ number)
          × ((make a).run ≡ a)
          × ((make a).governance ≡ policy))
    → IsGoverned w g policy
    → ((a : Attempt) → run ≡ some a → IsTested w head (event_run event) a)
    → if_found run (λ a. conclude (make a)) w n ≡ ok (some v, m)
    → IsPulled w g m v head version event number
found_run none w g n m v policy head version event number make fits governed tested h = cc
found_run (some a) w g n m v policy head version event number make fits governed tested h =
    let f = fits a in
    let (is_receipt, end) = conclude-IsConcluded w n m (make a) v h in
    record {
      found = make a;
      is_receipt = is_receipt;
      at_head = f.0;
      versioned = f.1;
      numbered = f.2;
      tested = subst (IsTested w head (event_run event)) (sym f.3) (tested a refl);
      governed = subst (IsGoverned w g) (sym f.4) governed;
      concluded = end;
    }

admit_pull-IsPulled :
    (w : World) (n m : ℕ) (v : Value) (g : Option Value) (head version : String) (event : Event)
    (number : ℕ)
    → admit_pull g head event version number w n ≡ ok (some v, m)
    → IsPulled w g m v head version event number
unfolding admit_pull
admit_pull-IsPulled w n m v g head version event number h =
    next-ok (input_context version w n) _ h λ inputs n1 _ h1.
      next-ok (governance g w n1) _ h1 λ policy n2 ruled h2.
        next-ok (require_runtime inputs.lock w n2) _ h2 λ _ n3 _ h3.
          next-ok (require_ci head (event_run event) w n3) _ h3 λ run n4 ran h4.
            found_run run w g n4 m v policy head version event number
              (λ attempt. record {
                commit = head;
                version = version;
                pull_request = number;
                run = attempt;
                governance = policy;
                digests = inputs.digests;
              })
              (λ a. (refl, refl, refl, refl, refl)) (governance-IsGoverned w n1 n2 g policy ruled)
              (λ a e.
                require_ci-IsTested w n3 n4 head (event_run event) a (ran ∙ ap (λ r. ok (r, n4)) e))
              h4

-- What holds when the pull request is looked for.
record IsStarted (w : World) (event : Event) : Type 0 where
  is_commit : is_oid w.head ≡ true
  of_event : event_context w.head w 0 ≡ ok (some event, 0)
  clean : w.is_clean ≡ true
  at_main : IsMain w 0 w.head

with_pull :
    (w : World) (m : ℕ) (v : Value) (g : Option Value) (event : Event) (version : String) (n : ℕ)
    → IsStarted w event
    → committed_release_version w 1 ≡ ok (version, n)
    → (pull : Option ℕ) (k : ℕ) → candidate_pull w.head version w n ≡ ok (pull, k)
    → if_found pull (admit_pull g w.head event version) w k ≡ ok (some v, m)
    → IsObserved w g m v
with_pull w m v g event version n s read none k pulled h = cc
with_pull w m v g event version n s read (some number) k pulled h =
    let numbers = committed_release_version-IsVersion w 1 n version read in
    let p = admit_pull-IsPulled w k m v g w.head version event number h in
    let ours = event_context-IsOwnEvent w.head w 0 0 event s.of_event in
    record {
      found = p.found;
      is_receipt = p.is_receipt;
      at_head = p.at_head;
      is_commit = s.is_commit;
      own_repository_event = ours.own;
      main_event = ours.main;
      event = event;
      of_event = s.of_event;
      version_numbers = subst (λ t. is_semver t ≡ true) (sym p.versioned) numbers.semver;
      clean = s.clean;
      at_main = s.at_main;
      committed =
          subst (λ t. committed_release_version w 1 ≡ ok (t, 1)) (sym p.versioned)
            (read ∙ ap (λ k. ok (version, k)) numbers.silent);
      later = k;
      pull =
          subst (λ t. candidate_pull w.head t w 1 ≡ ok (some p.found.pull_request, k))
            (sym p.versioned)
            (subst (λ j. candidate_pull w.head version w j ≡ ok (some p.found.pull_request, k))
              numbers.silent (pulled ∙ ap (λ j. ok (some j, k)) (sym p.numbered)));
      tested = p.tested;
      governed = p.governed;
      concluded = p.concluded;
    }

admit_current-IsObserved :
    (w : World) (m : ℕ) (v : Value) (g : Option Value) (event : Event)
    → is_oid w.head ≡ true
    → event_context w.head w 0 ≡ ok (some event, 0)
    → IsMain w 0 w.head
    → admit_current g w.head event w 1 ≡ ok (some v, m)
    → IsObserved w g m v
unfolding admit_current
admit_current-IsObserved w m v g event oid from main h =
    hold-ok w.is_clean "tracked checkout differs from HEAD" w 1 _ h λ clean h1.
      next-ok (committed_release_version w 1) _ h1 λ version n read h2.
        next-ok (candidate_pull w.head version w n) _ h2 λ pull k pulled h3.
          with_pull w m v g event version n
            (record { is_commit = oid; of_event = from; clean = clean; at_main = main }) read pull k
            pulled h3

if_current :
    (current : Bool) (w : World) (n m : ℕ) (v : Value) (g : Option Value) (event : Event)
    → is_oid w.head ≡ true
    → event_context w.head w 0 ≡ ok (some event, 0)
    → require_main w.head w 0 ≡ ok (current, n)
    → only_if current (admit_current g w.head event) w n ≡ ok (some v, m)
    → IsObserved w g m v
if_current false w n m v g event oid from now h = cc
if_current true w n m v g event oid from now h =
    let main = require_main-IsMain w 0 n w.head now in
    admit_current-IsObserved w m v g event oid from main.1
      (subst (λ k. admit_current g w.head event w k ≡ ok (some v, m)) main.0 h)

admit_event-IsObserved :
    (w : World) (m : ℕ) (v : Value) (g : Option Value) (event : Event)
    → is_oid w.head ≡ true
    → event_context w.head w 0 ≡ ok (some event, 0)
    → admit_event g w.head event w 0 ≡ ok (some v, m)
    → IsObserved w g m v
unfolding admit_event
admit_event-IsObserved w m v g event oid from h =
    next-ok (require_main w.head w 0) _ h
      λ current n now h1. if_current current w n m v g event oid from now h1

with_event :
    (event : Option Event) (w : World) (n m : ℕ) (v : Value) (g : Option Value)
    → is_oid w.head ≡ true
    → event_context w.head w 0 ≡ ok (event, n)
    → if_found event (admit_event g w.head) w n ≡ ok (some v, m)
    → IsObserved w g m v
with_event none w n m v g oid from h = cc
with_event (some event) w n m v g oid from h =
    let silent = (event_context-IsOwnEvent w.head w 0 n event from).silent in
    admit_event-IsObserved w m v g event oid
      (subst (λ k. event_context w.head w 0 ≡ ok (some event, k)) silent from)
      (subst (λ k. admit_event g w.head event w k ≡ ok (some v, m)) silent h)

load_head_lem :
    (w : World) (n m : ℕ) (head : String)
    → load_head w n ≡ ok (head, m)
    → (is_oid w.head ≡ true) × (m ≡ n) × (head ≡ w.head)
unfolding load_head
load_head_lem w n m head h = hold-ok (is_oid w.head) "local Git HEAD is malformed" w n _ h λ oid h1.
    let same : (w.head, n) ≡ (head, m) = ok-injective h1 in
    (oid, sym (ap (λ t. t.1) same), sym (ap (λ t. t.0) same))

-- Whenever `admission`, started with no request sent, returns a receipt: the event is one of the
-- repository's own main branch; the checkout is clean and at a commit with 40 hexadecimal digits,
-- which is the receipt's; the first answer of the provider was that main is protected and at that
-- commit, and so was the last one; the receipt's version is the committed one, of three numbers,
-- and its pull request is what `candidate_pull` found for it; the CI run in the receipt and its
-- attempt were answered to be successful pushes of the commit to main, of the event's run if it has
-- one, with every job passed and one successful contracts job; the tag of the version was answered
-- to be missing, and no release that was listed then has it; the governance in the receipt is one
-- that `_governance` returned, of a governed ruleset, and is the one that was handed in if there was
-- one; and `validate_receipt` accepts the receipt.
pub admission-IsObserved :
    (w : World) (g : Option Value) (m : ℕ) (v : Value)
    → admission g w 0 ≡ ok (some v, m)
    → IsObserved w g m v
unfolding admission
admission-IsObserved w g m v h = next-ok (load_head w 0) _ h λ head n loaded h1.
    let (oid, silent, is_head) = load_head_lem w 0 n head loaded in
    next-ok (event_context head w n) _ h1 λ event k from h2.
      with_event event w k m v g oid
        (subst (λ j. event_context w.head w j ≡ ok (event, k)) silent
          (subst (λ t. event_context t w n ≡ ok (event, k)) is_head from))
        (subst (λ t. if_found event (admit_event g t) w k ≡ ok (some v, m)) is_head h2)
