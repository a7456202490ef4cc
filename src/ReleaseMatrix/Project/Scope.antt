-- ===== src/ReleaseMatrix/Project/Scope.antt =====
-- Which requests `_select_scope` admits, and the hosts of each.
use aros_toolchains.Prelude.{
  String, Bool, true, false, List, [], ◌∷◌, ok, string_eq, ◌≡◌, refl, arith, ◌⊎◌, inl, inr, ◌↔◌,
}
use aros_toolchains.ReleaseMatrix.{active_hosts}
use aros_toolchains.ReleaseMatrix.Project.{select_scope}

-- The routes of the workflow: a tag push, a full manual qualification, and two diagnostics.
pub data Route : String → String → Bool → List String → Type 0 where
  release : Route "push" "full" false active_hosts
  qualification : Route "workflow_dispatch" "full" true active_hosts
  native_diagnostic : Route "workflow_dispatch" "linux-x86_64" false ("linux-x86_64" ∷ [])
  linux_diagnostic : Route "workflow_dispatch" "linux" false ("linux-aarch64" ∷ "linux-x86_64" ∷ [])

select_scope-of-Route :
    (event scope : String) (full : Bool) (hosts : List String)
    → Route event scope full hosts
    → select_scope event scope full ≡ ok hosts
unfolding select_scope string_eq
select_scope-of-Route _ _ _ _ release = refl
select_scope-of-Route _ _ _ _ qualification = refl
select_scope-of-Route _ _ _ _ native_diagnostic = refl
select_scope-of-Route _ _ _ _ linux_diagnostic = refl

abbrev Facts : String → String → Bool → List String → Type 0
Facts event scope full hosts =
    ((event ≡ "push") × (scope ≡ "full") × (full ≡ false) × (hosts ≡ active_hosts))
    ⊎ ((event ≡ "workflow_dispatch") × (scope ≡ "full") × (full ≡ true) × (hosts ≡ active_hosts))
    ⊎ ((event ≡ "workflow_dispatch")
        × (scope ≡ "linux-x86_64")
        × (full ≡ false)
        × (hosts ≡ "linux-x86_64" ∷ []))
    ⊎ ((event ≡ "workflow_dispatch")
        × (scope ≡ "linux")
        × (full ≡ false)
        × (hosts ≡ "linux-aarch64" ∷ "linux-x86_64" ∷ []))

select_scope-Facts :
    (event scope : String) (full : Bool) (hosts : List String)
    → select_scope event scope full ≡ ok hosts
    → Facts event scope full hosts
unfolding select_scope
select_scope-Facts event scope full hosts h = ground arith

Route-of-Facts :
    (event scope : String) (full : Bool) (hosts : List String)
    → Facts event scope full hosts
    → Route event scope full hosts
Route-of-Facts event scope full hosts (inl (p, q, r, s)) = rw (p, q, r, s) release
Route-of-Facts event scope full hosts (inr (inl (p, q, r, s))) = rw (p, q, r, s) qualification
Route-of-Facts event scope full hosts (inr (inr (inl (p, q, r, s)))) =
    rw (p, q, r, s) native_diagnostic
Route-of-Facts event scope full hosts (inr (inr (inr (p, q, r, s)))) =
    rw (p, q, r, s) linux_diagnostic

-- The request is admitted with some hosts exactly when it is one of the four routes, with the
-- hosts of that route: a push is always complete, and a manual run is complete exactly when full
-- qualification was asked for.
pub select_scope_iff :
    (event scope : String) (full : Bool) (hosts : List String)
    → (select_scope event scope full ≡ ok hosts) ↔ Route event scope full hosts
select_scope_iff event scope full hosts = (
  λ h. Route-of-Facts event scope full hosts (select_scope-Facts event scope full hosts h),
  select_scope-of-Route event scope full hosts,
)

-- The full scope, wherever it is admitted, is all active hosts.
pub select_scope-full :
    (event scope : String) (full : Bool) (hosts : List String)
    → select_scope event scope full ≡ ok hosts
    → scope ≡ "full"
    → hosts ≡ active_hosts
unfolding select_scope
select_scope-full event scope full hosts h e = ground arith
