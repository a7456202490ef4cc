-- ===== src/ReplayMatrix/Closed.antt =====
-- The choices that select-replay-matrix.py declares, and what they select.
use aros_toolchains.Prelude.{
  String, Bool, true, false, List, [], ◌∷◌, ok, contains, string_eq, keep, all, map, ◌≡◌, refl,
  ◌++◌, ◌==◌, ◌&&◌, ◌||◌, ap, if◌then◌else◌, arith, ◌∙◌, Eq, Bool-cases, inl, inr, ◌⊎◌, raise,
  Exception, Result, value_error, ◌<>◌, sym,
}
use aros_toolchains.ReplayMatrix.{
  Replay, replay_hosts, replay_profiles, host_choices, profile_choices, product, is_chosen,
  require_nonempty, select,
}

-- The lanes that a choice declares.
abbrev declared : String → String → List Replay
declared host profile = keep (is_chosen host profile) (product replay_hosts replay_profiles)

abbrev is_some_lane : List Replay → Bool
is_some_lane [] = false
is_some_lane (r ∷ rs) = true

every_choice :
    all (λ host. all (λ profile. is_some_lane (declared host profile)) profile_choices) host_choices
    ≡ true
unfolding string_eq
every_choice = refl

all-contains :
    {A : Type 0} ⦃e : Eq A⦄ (f : A → Bool) (xs : List A) (a : A)
    → all f xs ≡ true
    → contains xs a ≡ true
    → f a ≡ true
all-contains f [] a h k = cc
all-contains f (x ∷ xs) a h k = ground (arith, all-contains f xs a)

nonempty_ok : (rs : List Replay) → is_some_lane rs ≡ true → require_nonempty rs ≡ ok rs
nonempty_ok [] h = cc
nonempty_ok (r ∷ rs) h = refl

accepted :
    (host profile : String)
    → contains host_choices host ≡ true
    → contains profile_choices profile ≡ true
    → select host profile ≡ require_nonempty (declared host profile)
unfolding select
accepted host profile h k = rw (h, k) refl

-- The hosts that a choice of a host names, and the profiles that a choice of a profile names.
abbrev pub chosen_hosts : String → List (String × String)
chosen_hosts host = if host == "all" then replay_hosts else keep (λ h. host == h.0) replay_hosts

abbrev pub chosen_profiles : String → List String
chosen_profiles profile =
    if profile == "all" then replay_profiles else keep (λ p. profile == p) replay_profiles

module _ {A : Type 0} where
  keep-append : (p : A → Bool) (xs ys : List A) → keep p (xs ++ ys) ≡ keep p xs ++ keep p ys
  keep-append p [] ys = refl
  keep-append p (x ∷ xs) ys = elim (Bool-cases (p x)) [
    | inl e ↦ rw (e, keep-append p xs ys) refl
    | inr e ↦ rw (e, keep-append p xs ys) refl
  ]

  keep_all : (xs : List A) → keep (λ x. true) xs ≡ xs
  keep_all [] = refl
  keep_all (x ∷ xs) = ap (λ t. x ∷ t) (keep_all xs)

-- The lanes of one host.
abbrev lanes_of : String → String → List String → List Replay
lanes_of host runner profiles =
    map (λ profile. record { host = host; runner = runner; profile = profile }) profiles

module _ (of_host : String → Bool) (of_profile : String → Bool) where
  keep-lanes_of :
      (host runner : String) (profiles : List String)
      → keep (λ r. of_host r.host && of_profile r.profile) (lanes_of host runner profiles)
        ≡ (if of_host host then lanes_of host runner (keep of_profile profiles) else [])
  keep-lanes_of host runner [] = ground arith
  keep-lanes_of host runner (p ∷ ps) = elim (Bool-cases (of_host host)) [
    | inl e ↦ elim (Bool-cases (of_profile p)) [
      | inl f ↦
          rw (e, f)
            (ap (λ t. record { host = host; runner = runner; profile = p } ∷ t)
              (keep-lanes_of host runner ps ∙ rw e refl))
      | inr f ↦ rw (e, f) (keep-lanes_of host runner ps ∙ rw e refl)
    ]
    | inr e ↦ rw e (keep-lanes_of host runner ps ∙ rw e refl)
  ]

  -- A choice of lanes is a choice of hosts and a choice of profiles.
  keep-product :
      (hosts : List (String × String)) (profiles : List String)
      → keep (λ r. of_host r.host && of_profile r.profile) (product hosts profiles)
        ≡ product (keep (λ h. of_host h.0) hosts) (keep of_profile profiles)
  keep-product [] profiles = refl
  keep-product ((host, runner) ∷ hosts) profiles =
      keep-append (λ r. of_host r.host && of_profile r.profile) (lanes_of host runner profiles)
        (product hosts profiles)
      ∙ rw (keep-lanes_of host runner profiles, keep-product hosts profiles)
          (elim (Bool-cases (of_host host)) [ inl e ↦ rw e refl | inr e ↦ rw e refl ])

chosen_hosts_lem :
    (host : String) → keep (λ h. host == "all" || host == h.0) replay_hosts ≡ chosen_hosts host
chosen_hosts_lem host = elim (Bool-cases (host == "all")) [
  | inl e ↦ rw e (keep_all replay_hosts)
  | inr e ↦ rw e refl
]

chosen_profiles_lem :
    (profile : String)
    → keep (λ p. profile == "all" || profile == p) replay_profiles ≡ chosen_profiles profile
chosen_profiles_lem profile = elim (Bool-cases (profile == "all")) [
  | inl e ↦ rw e (keep_all replay_profiles)
  | inr e ↦ rw e refl
]

declared-product :
    (host profile : String)
    → declared host profile ≡ product (chosen_hosts host) (chosen_profiles profile)
declared-product host profile =
    keep-product (λ h. host == "all" || host == h) (λ p. profile == "all" || profile == p)
      replay_hosts replay_profiles
    ∙ rw (chosen_hosts_lem host, chosen_profiles_lem profile) refl

declared_selected :
    (host profile : String)
    → contains host_choices host ≡ true
    → contains profile_choices profile ≡ true
    → select host profile ≡ ok (declared host profile)
declared_selected host profile h k =
    let some_lane =
      all-contains (λ p. is_some_lane (declared host p)) profile_choices profile
        (all-contains (λ g. all (λ p. is_some_lane (declared g p)) profile_choices) host_choices
          host every_choice h)
        k in
    accepted host profile h k ∙ nonempty_ok (declared host profile) some_lane

-- For a declared host or `all` and a declared profile or `all`, the selection succeeds: it is every
-- pair of one of the hosts that the first choice names, with its runner, and of one of the profiles
-- that the second choice names, host by host in their order; `all` names all of them, and another
-- choice names the one that is spelled so.
pub select_total :
    (host profile : String)
    → contains host_choices host ≡ true
    → contains profile_choices profile ≡ true
    → select host profile ≡ ok (product (chosen_hosts host) (chosen_profiles profile))
select_total host profile h k =
    declared_selected host profile h k ∙ ap ok (declared-product host profile)

-- The exception that a choice of a host and a profile raises.
abbrev pub IsRefusal : String → String → Exception → Type 0
IsRefusal host profile e =
    (contains host_choices host ≡ false) × (e ≡ value_error ("unsupported replay host: " <> host))
    ⊎ (contains host_choices host ≡ true)
      × (contains profile_choices profile ≡ false)
      × (e ≡ value_error ("unsupported replay profile: " <> profile))

raise-injective : {d e : Exception} → ◌≡◌ {A = Result (List Replay)} (raise d) (raise e) → d ≡ e
raise-injective h = cc

ok-ne-raise : {e : Exception} {rs : List Replay} → ok rs ≡ raise e → ⊥
ok-ne-raise h = cc

host_refused :
    (host profile : String)
    → contains host_choices host ≡ false
    → select host profile ≡ raise (value_error ("unsupported replay host: " <> host))
unfolding select
host_refused host profile h = rw h refl

profile_refused :
    (host profile : String)
    → contains host_choices host ≡ true
    → contains profile_choices profile ≡ false
    → select host profile ≡ raise (value_error ("unsupported replay profile: " <> profile))
unfolding select
profile_refused host profile h k = rw (h, k) refl

-- Every exception of the selection is the refusal of a host that is not declared, or else of a
-- profile that is not declared, by its name. So the selection never fails as empty.
pub select-IsRefusal :
    (host profile : String) (e : Exception)
    → select host profile ≡ raise e
    → IsRefusal host profile e
select-IsRefusal host profile e h = elim (Bool-cases (contains host_choices host)) [
  | inr f ↦ inl (f, raise-injective (sym h ∙ host_refused host profile f))
  | inl k ↦ elim (Bool-cases (contains profile_choices profile)) [
    | inr f ↦ inr (k, f, raise-injective (sym h ∙ profile_refused host profile k f))
    | inl c ↦ absurd (ok-ne-raise (sym (declared_selected host profile k c) ∙ h))
  ]
]
