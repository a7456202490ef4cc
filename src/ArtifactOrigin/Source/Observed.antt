-- ===== src/ArtifactOrigin/Source/Observed.antt =====
-- What validate_context and observe_run_event accept.
use mathlib.Core.Path.{subst}
use aros_toolchains.Prelude.{
  ◌∙◌, ℕ, String, Bool, true, false, ◌&&◌, ◌||◌, Option, none, some, ok, origin_error, require-ok,
  >>=-ok, ok-injective, both_true, string_eq, nat_eq, contains, Dict, eq_of_test, ◌≡◌, refl, arith,
  inl, inr, ◌⊎◌, ◌<>◌, ap,
}
use aros_toolchains.Json.{
  Value, pos, negsuc, null, bool, int, float, str, arr, obj, as_dict, as_str, is_str, get, item,
  or_raise, or_raise-some,
}
use aros_toolchains.Json.Inversion.{as_str-eq, is_str-eq}
use aros_toolchains.Text.{is_hex}
use aros_toolchains.ArtifactOrigin.Provider.{Context, positive}
use aros_toolchains.ArtifactOrigin.Token.{supported_events}
use aros_toolchains.ArtifactOrigin.Archive.{exact_keys}
use aros_toolchains.ArtifactOrigin.Source.{
  is_repository, is_source_ref, is_workflow, is_int_value, is_exact, exact_number, context_fields,
  context_text, context_number, validate_context, context_value, branch_of, run_attempt_path,
  is_run_workflow, is_own_repository, check_run, Api, observe_run_event,
}

pub is_exact-eq : (v : Value) (n : ℕ) → is_exact v n ≡ true → v ≡ int (pos n)
is_exact-eq (int (pos m)) n h = ap (λ k. int (pos k)) (eq_of_test m n h)
is_exact-eq (int (negsuc m)) n h = cc
is_exact-eq null n h = cc
is_exact-eq (bool b) n h = cc
is_exact-eq (float t) n h = cc
is_exact-eq (str s) n h = cc
is_exact-eq (arr vs) n h = cc
is_exact-eq (obj fs) n h = cc

-- A number that is read exactly is an integer of the document that `positive` accepts.
pub exact_number-eq :
    (v : Value) (message : String) (n : ℕ)
    → exact_number v message ≡ ok n
    → (v ≡ int (pos n)) × (positive (int (pos n)) ≡ ok n)
unfolding exact_number
exact_number-eq v message n h = require-ok (is_int_value v) _ _ h λ _ h1.
    >>=-ok (positive v) _ h1 λ m read h2. require-ok (is_exact v m) _ _ h2 λ exact h3.
      let same : m ≡ n = ok-injective h3 in
      let made = is_exact-eq v m exact in
      subst (λ k. (v ≡ int (pos k)) × (positive (int (pos k)) ≡ ok k)) same
        (made, subst (λ u. positive u ≡ ok m) made read)

exact_number_held :
    (n : ℕ) (message : String)
    → positive (int (pos n)) ≡ ok n
    → exact_number (int (pos n)) message ≡ ok n
unfolding exact_number
exact_number_held n message h = rw h (ground arith)

-- The forms that are asked of a context.
pub record IsContext (c : Context) : Type 0 where
  pub repository : is_repository c.repository ≡ true
  pub producer_commit : is_hex 40 c.producer_commit ≡ true
  pub source_ref : is_source_ref c.source_ref ≡ true
  pub workflow : is_workflow c.workflow ≡ true
  pub repository_id : positive (int (pos c.repository_id)) ≡ ok c.repository_id
  pub run_id : positive (int (pos c.run_id)) ≡ ok c.run_id
  pub run_attempt : positive (int (pos c.run_attempt)) ≡ ok c.run_attempt

context_number-positive :
    (d : Dict String Value) (key : String) (n : ℕ)
    → context_number d key ≡ ok n
    → positive (int (pos n)) ≡ ok n
context_number-positive d key n h =
    >>=-ok (item d key) _ h
      λ v _ h1. (exact_number-eq v "selected provider identity is not an integer" n h1).1

pub validate_context-IsContext : (v : Value) (c : Context) → validate_context v ≡ ok c → IsContext c
unfolding validate_context
validate_context-IsContext v c h = >>=-ok (exact_keys v context_fields) _ h λ d _ h1.
    >>=-ok (context_text d "repository") _ h1 λ repository _ h2.
      >>=-ok (context_text d "producer_commit") _ h2 λ source _ h3.
        >>=-ok (context_text d "source_ref") _ h3 λ ref _ h4.
          >>=-ok (context_text d "workflow") _ h4 λ workflow _ h5.
            require-ok (is_repository repository) _ _ h5 λ p1 h6.
              require-ok (is_hex 40 source) _ _ h6 λ p2 h7.
                require-ok (is_source_ref ref) _ _ h7 λ p3 h8.
                  require-ok (is_workflow workflow) _ _ h8 λ p4 h9.
                    >>=-ok (context_number d "repository_id") _ h9 λ n1 q1 h10.
                      >>=-ok (context_number d "run_id") _ h10 λ n2 q2 h11.
                        >>=-ok (context_number d "run_attempt") _ h11 λ n3 q3 h12.
                          subst IsContext (ok-injective h12) (record {
                            repository = p1;
                            producer_commit = p2;
                            source_ref = p3;
                            workflow = p4;
                            repository_id = context_number-positive d "repository_id" n1 q1;
                            run_id = context_number-positive d "run_id" n2 q2;
                            run_attempt = context_number-positive d "run_attempt" n3 q3;
                          })

abbrev number_message : String
number_message = "selected provider identity is not an integer"

-- A context of those forms is accepted as it is written.
pub validate_context-context_value :
    (c : Context) → IsContext c → validate_context (context_value c) ≡ ok c
unfolding validate_context exact_keys string_eq nat_eq
validate_context-context_value c h =
    rw
      (
        h.repository,
        h.producer_commit,
        h.source_ref,
        h.workflow,
        exact_number_held c.repository_id number_message h.repository_id,
        exact_number_held c.run_id number_message h.run_id,
        exact_number_held c.run_attempt number_message h.run_attempt,
      )
      refl

-- A context that is accepted has the forms of `IsContext`, and is accepted again, as the same, when
-- it is written as a document.
pub validate_context_again :
    (v : Value) (c : Context)
    → validate_context v ≡ ok c
    → IsContext c × (validate_context (context_value c) ≡ ok c)
validate_context_again v c h =
    let forms = validate_context-IsContext v c h in (forms, validate_context-context_value c forms)

-- The run that the provider reports is the context's.
pub record IsRun (value : Value) (c : Context) (event : String) : Type 0 where
  pub run : Dict String Value
  pub is_run : as_dict value ≡ some run
  pub id : get run "id" ≡ int (pos c.run_id)
  pub attempt : get run "run_attempt" ≡ int (pos c.run_attempt)
  pub commit : get run "head_sha" ≡ str c.producer_commit
  pub branch : String
  pub of_ref : branch_of c.source_ref ≡ some branch
  pub on_branch : get run "head_branch" ≡ str branch
  pub workflow :
      (get run "path" ≡ str c.workflow) ⊎ (get run "path" ≡ str (c.workflow <> "@" <> c.source_ref))
  pub repository : Dict String Value
  pub is_repository : as_dict (get run "head_repository") ≡ some repository
  pub repository_id : get repository "id" ≡ int (pos c.repository_id)
  pub full_name : get repository "full_name" ≡ str c.repository
  pub of_event : get run "event" ≡ str event
  pub supported : contains supported_events event ≡ true

either_true : (a b : Bool) → (a || b) ≡ true → (a ≡ true) ⊎ (b ≡ true)
either_true true b h = inl refl
either_true false b h = inr h

workflow_path :
    (path : Value) (c : Context)
    → is_run_workflow path c ≡ true
    → (path ≡ str c.workflow) ⊎ (path ≡ str (c.workflow <> "@" <> c.source_ref))
workflow_path path c h = elim (either_true (is_str path c.workflow) _ h) [
  | inl a ↦ inl (is_str-eq path c.workflow a)
  | inr b ↦ inr (is_str-eq path (c.workflow <> "@" <> c.source_ref) b)
]

record IsOwn (o : Option (Dict String Value)) (c : Context) : Type 0 where
  repository : Dict String Value
  is_repository : o ≡ some repository
  repository_id : get repository "id" ≡ int (pos c.repository_id)
  full_name : get repository "full_name" ≡ str c.repository

own_repository :
    (o : Option (Dict String Value)) (c : Context) → is_own_repository o c ≡ true → IsOwn o c
own_repository none c h = cc
own_repository (some d) c h =
    let b =
      both_true (is_exact (get d "id") c.repository_id) (is_str (get d "full_name") c.repository)
        h in
    record {
      repository = d;
      is_repository = refl;
      repository_id = is_exact-eq (get d "id") c.repository_id b.0;
      full_name = is_str-eq (get d "full_name") c.repository b.1;
    }

check_run-IsRun :
    (value : Value) (c : Context) (event : String)
    → check_run value c ≡ ok event
    → IsRun value c event
unfolding check_run
check_run-IsRun value c event h =
    >>=-ok (or_raise (as_dict value) (origin_error "provider run attempt is not an object")) _ h
      λ run is_run h1.
        require-ok
          (is_exact (get run "id") c.run_id && is_exact (get run "run_attempt") c.run_attempt) _ _
          h1
          λ numbers h2.
            require-ok (is_str (get run "head_sha") c.producer_commit) _ _ h2 λ commit h3.
              >>=-ok
                (or_raise (branch_of c.source_ref) (origin_error "provider source ref is invalid"))
                _ h3
                λ branch of_ref h4.
                  require-ok (is_str (get run "head_branch") branch) _ _ h4 λ on_branch h5.
                    require-ok (is_run_workflow (get run "path") c) _ _ h5 λ workflow h6.
                      require-ok (is_own_repository (as_dict (get run "head_repository")) c) _ _ h6
                        λ own h7.
                          >>=-ok
                            (or_raise (as_str (get run "event"))
                              (origin_error "provider run event is unsupported"))
                            _ h7
                            λ name is_text h8.
                              require-ok (contains supported_events name) _ _ h8 λ supported h9.
                                let b = both_true (is_exact (get run "id") c.run_id) _ numbers in
                                let o =
                                  own_repository (as_dict (get run "head_repository")) c own in
                                subst (IsRun value c) (ok-injective h9) (record {
                                  run = run;
                                  is_run = or_raise-some (as_dict value) run _ is_run;
                                  id = is_exact-eq (get run "id") c.run_id b.0;
                                  attempt = is_exact-eq (get run "run_attempt") c.run_attempt b.1;
                                  commit = is_str-eq (get run "head_sha") c.producer_commit commit;
                                  branch = branch;
                                  of_ref = or_raise-some (branch_of c.source_ref) branch _ of_ref;
                                  on_branch = is_str-eq (get run "head_branch") branch on_branch;
                                  workflow = workflow_path (get run "path") c workflow;
                                  repository = o.repository;
                                  is_repository = o.is_repository;
                                  repository_id = o.repository_id;
                                  full_name = o.full_name;
                                  of_event =
                                      as_str-eq (get run "event") name
                                        (or_raise-some (as_str (get run "event")) name _ is_text);
                                  supported = supported;
                                })

-- The event that is returned is a supported one that the provider reports for the run of the context:
-- the answer at the path of its run and attempt has their numbers, the commit, the branch or tag of
-- the ref, the workflow's path, alone or at the ref, and the repository of the context.
pub observe_run_event-IsRun :
    (api : Api) (v : Value) (event : String)
    → observe_run_event api v ≡ ok event
    → (c : Context) × (run : Value) × (validate_context v ≡ ok c)
      × (api (run_attempt_path c) ≡ ok run)
      × IsRun run c event
unfolding observe_run_event
observe_run_event-IsRun api v event h = >>=-ok (validate_context v) _ h λ c valid h1.
    >>=-ok (api (run_attempt_path c)) _ h1
      λ run answer h2. (c, run, valid, answer, check_run-IsRun run c event h2)

int_injective : {m n : ℕ} → int (pos m) ≡ int (pos n) → m ≡ n
int_injective h = cc

-- Nothing else is read of a context that is written as a document.
pub context_value-eq : (a c : Context) → validate_context (context_value a) ≡ ok c → a ≡ c
unfolding validate_context exact_keys string_eq nat_eq
context_value-eq a c h = require-ok (is_repository a.repository) _ _ h λ _ h1.
    require-ok (is_hex 40 a.producer_commit) _ _ h1 λ _ h2.
      require-ok (is_source_ref a.source_ref) _ _ h2 λ _ h3.
        require-ok (is_workflow a.workflow) _ _ h3 λ _ h4.
          >>=-ok (exact_number (int (pos a.repository_id)) number_message) _ h4 λ i is_i h5.
            >>=-ok (exact_number (int (pos a.run_id)) number_message) _ h5 λ j is_j h6.
              >>=-ok (exact_number (int (pos a.run_attempt)) number_message) _ h6 λ k is_k h7.
                let e = int_injective (exact_number-eq _ number_message i is_i).0 in
                let f = int_injective (exact_number-eq _ number_message j is_j).0 in
                let g = int_injective (exact_number-eq _ number_message k is_k).0 in
                let made : record a { repository_id = i; run_id = j; run_attempt = k } ≡ c =
                  ok-injective h7 in
                (λ t. record a { repository_id = e t; run_id = f t; run_attempt = g t }) ∙ made
