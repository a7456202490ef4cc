-- ===== src/SdkOwners/Closure.antt =====
-- The owners and the generations that are expected describe one closure.
mod Agreement
use mathlib.Core.Path.{subst}
use aros_toolchains.Prelude.{
  ℕ, String, Bool, true, false, ◌&&◌, ◌||◌, not, if◌then◌else◌, List, [], ◌∷◌, none, ok, type_error,
  require-ok, ◌>>=◌, >>=-ok, fold, fold-invariant, traverse, ok-injective, ◌==◌, contains,
  contains-append, any, IsNodup, Dict, lookup, lookup-insert, insert, keys, map, length, leb, ltb,
  all, length-map, string_eq, pair_eq, nat_eq, eq_of_test, Bool-cases, inl, inr, ◌≡◌, refl, ap, sym,
  ◌∙◌, arith, ◌*◌,
}
use aros_toolchains.Json.{Value, as_str, as_dict, or_raise, item}
use aros_toolchains.Text.Order.{string_ord}
use aros_toolchains.Sorted.{sorted_set, pair_ord}
use aros_toolchains.Sorted.Length.{contains-sorted_set, IsNodup-length-sorted_set}
use aros_toolchains.ReleaseMatrix.{max_build_entries, max_sdks, max_sdk_compiler_profiles}
use aros_toolchains.CompilerOwners.{fits, artifact_name}
use aros_toolchains.SdkOwners.{
  Key, Generation, generation, Uses, sdks_of, add_new, add_use, text_at, list_at, add_reference,
  add_sdk, Owner, no_uses, owner_of, make_owners, project_owners, digest_input, job_name_of,
}
use aros_toolchains.SdkOwners.Closure.Agreement.{Agrees, add_sdk-Agrees}

-- A generation is expected just where its SDK is one of the key's.
-- The owner has an SDK at a key.
abbrev pub owns : String → Key → Owner → Bool
owns id k o = k == o.key && contains o.sdk_ids id

-- The owners of the keys, with the SDKs of each.
abbrev AreOwners : Dict Key (List String) → List Key → List Owner → Type 0
AreOwners d [] [] = Unit
AreOwners d [] (o ∷ os) = ⊥
AreOwners d (k ∷ ks) [] = ⊥
AreOwners d (k ∷ ks) (o ∷ os) =
    (o.key ≡ k) × (o.sdk_ids ≡ sorted_set (sdks_of d k)) × AreOwners d ks os

module _ (sha256 : List ℕ → String) (families : Dict String String) (run_id run_attempt : ℕ)
    (d : Dict Key (List String)) where
  owner_of-key :
      (k : Key) (o : Owner)
      → owner_of sha256 families run_id run_attempt d k ≡ ok o
      → (o.key ≡ k) × (o.sdk_ids ≡ sorted_set (sdks_of d k))
  unfolding owner_of
  owner_of-key k o h =
      let ids = sorted_set (sdks_of d k) in
      let id = sha256 (digest_input ids k) in
      let payload = artifact_name "sdk-v2-" id run_id run_attempt in
      let proof = artifact_name "sdk-v2-proof-" id run_id run_attempt in
      require-ok (ltb 0 (length ids) && leb (length ids) max_sdks) _ _ h λ _ h1.
        require-ok (all fits (job_name_of k ∷ payload ∷ proof ∷ [])) _
          (item families k.0 >>= λ family. ok (record {
            owner_id = id;
            key = k;
            compiler_family = family;
            sdk_ids = ids;
            job_name = job_name_of k;
            payload_name = payload;
            proof_name = proof;
          }))
          h1
          λ _ h2. >>=-ok (item families k.0) _ h2 λ family _ h3.
            let made : Owner = record {
              owner_id = id;
              key = k;
              compiler_family = family;
              sdk_ids = ids;
              job_name = job_name_of k;
              payload_name = payload;
              proof_name = proof;
            } in
            let same : made ≡ o = ok-injective h3 in
            (sym (ap (λ (o : Owner). o.key) same), sym (ap (λ (o : Owner). o.sdk_ids) same))

  traverse-AreOwners :
      (ks : List Key) (os : List Owner)
      → traverse (owner_of sha256 families run_id run_attempt d) ks ≡ ok os
      → AreOwners d ks os
  traverse-AreOwners [] os h = subst (AreOwners d []) (ok-injective h) tt
  traverse-AreOwners (k ∷ ks) os h =
      >>=-ok (owner_of sha256 families run_id run_attempt d k) _ h λ o one h1.
        >>=-ok (traverse (owner_of sha256 families run_id run_attempt d) ks) _ h1 λ more rest h2.
          let f = owner_of-key k o one in
          subst (AreOwners d (k ∷ ks)) (ok-injective h2) (f.0, f.1, traverse-AreOwners ks more rest)

left_out : (a b : Bool) → (a ≡ false → b ≡ false) → (a && b) ≡ b
left_out a b h = grind arith

absent-none :
    (k : Key) (d : Dict Key (List String)) → contains (keys d) k ≡ false → lookup k d ≡ none
absent-none k [] h = refl
absent-none k ((j, ids) ∷ d) h = ground (arith, absent-none k d)

-- One more key.
meets : (a b c d : Bool) → (a ≡ true → b ≡ d) → (a && b || c && d) ≡ ((a || c) && d)
meets a b c d h = grind arith

any-owns :
    (d : Dict Key (List String)) (id : String) (k : Key) (ks : List Key) (os : List Owner)
    → AreOwners d ks os
    → any (owns id k) os ≡ (contains ks k && contains (sdks_of d k) id)
any-owns d id k [] [] a = refl
any-owns d id k [] (o ∷ os) a = elim a [ ]
any-owns d id k (j ∷ ks) [] a = elim a [ ]
any-owns d id k (j ∷ ks) (o ∷ os) (key, ids, more) =
    rw (key, ids, any-owns d id k ks os more, contains-sorted_set (sdks_of d j) id)
      (meets (k == j) (contains (sdks_of d j) id) (contains ks k) (contains (sdks_of d k) id)
        (λ e. ap (λ t. contains (sdks_of d t) id) (sym (eq_of_test k j e))))

held-contains :
    (d : Dict Key (List String)) (id : String) (k : Key)
    → (contains (sorted_set (keys d)) k && contains (sdks_of d k) id) ≡ contains (sdks_of d k) id
held-contains d id k = rw (contains-sorted_set (keys d) k) (
    left_out (contains (keys d) k) (contains (sdks_of d k) id)
      (λ e. ground (arith, absent-none k d e)))

module _ (sha256 : List ℕ → String) (families : Dict String String) (run_id run_attempt : ℕ) where
  -- What the matrix of the owners says of the closure.
  make_owners-AreOwners :
      (hosts : ℕ) (s : Uses) (owners : List Owner) (generations : List Generation)
      → make_owners sha256 families run_id run_attempt hosts s ≡ ok (owners, generations)
      → AreOwners s.owner_sdks (sorted_set (keys s.owner_sdks)) owners
        × (sorted_set s.expected ≡ generations)
        × IsNodup (map (λ (o : Owner). o.owner_id) owners)
  unfolding make_owners
  make_owners-AreOwners hosts s owners generations h =
      require-ok (leb (length s.owner_sdks) max_build_entries) _ _ h λ _ h1.
        require-ok (leb (length s.expected) (max_sdks * max_sdk_compiler_profiles * hosts)) _ _ h1
          λ _ h2.
            >>=-ok
              (traverse (owner_of sha256 families run_id run_attempt s.owner_sdks)
                (sorted_set (keys s.owner_sdks)))
              _ h2
              λ os made h3.
                require-ok (length (sorted_set (map (λ (o : Owner). o.owner_id) os)) == length os) _
                  _ h3
                  λ distinct h4.
                    let same : (os, sorted_set s.expected) ≡ (owners, generations) =
                      ok-injective h4 in
                    subst
                      (λ (os : List Owner).
                        AreOwners s.owner_sdks (sorted_set (keys s.owner_sdks)) os
                        × (sorted_set s.expected ≡ generations)
                        × IsNodup (map (λ (o : Owner). o.owner_id) os))
                      (ap (λ t. t.0) same)
                      (
                        traverse-AreOwners sha256 families run_id run_attempt s.owner_sdks
                            (sorted_set (keys s.owner_sdks)) os made,
                        ap (λ t. t.1) same,
                        IsNodup-length-sorted_set (map (λ (o : Owner). o.owner_id) os) (
                            eq_of_test _ _ distinct
                            ∙ sym (length-map os (λ (o : Owner). o.owner_id))),
                      )

  -- Whenever `_project_owners` returns: a generation, of an SDK by a group and a profile on a host,
  -- is among those that are expected if and only if some owner of that group, host and profile has
  -- the SDK among its own; and no two owners have one identity.
  pub project_owners-closure :
      (plan : Dict String Value) (owners : List Owner) (generations : List Generation)
      → project_owners sha256 plan families run_id run_attempt ≡ ok (owners, generations)
      → ((id : String) (k : Key) → contains generations (generation id k) ≡ any (owns id k) owners)
        × IsNodup (map (λ (o : Owner). o.owner_id) owners)
  unfolding project_owners
  project_owners-closure plan owners generations h = >>=-ok (list_at plan "sdks") _ h λ sdks _ h1.
      >>=-ok (list_at plan "hosts") _ h1 λ values _ h2.
        >>=-ok (traverse (λ v. or_raise (as_str v) type_error) values) _ h2 λ hosts _ h3.
          >>=-ok (fold (add_sdk hosts) (no_uses, []) sdks) _ h3 λ walked looped h4.
            require-ok (ltb 0 (length walked.1)) _ _ h4 λ _ h5.
              let agrees : Agrees walked.0 =
                fold-invariant (λ (t : Uses × List String). Agrees t.0) (add_sdk hosts)
                  (λ s x t a e. add_sdk-Agrees hosts s x t a e) (no_uses, []) sdks walked
                  (λ id k. refl) looped in
              let made = make_owners-AreOwners (length hosts) walked.0 owners generations h5 in
              (
                λ id k.
                    sym (ap (λ gs. contains gs (generation id k)) made.1)
                    ∙ (contains-sorted_set walked.0.expected (generation id k)
                        ∙ (agrees id k
                            ∙ (sym (held-contains walked.0.owner_sdks id k)
                                ∙ sym (
                                    any-owns walked.0.owner_sdks id k
                                      (sorted_set (keys walked.0.owner_sdks)) owners made.0)))),
                made.2,
              )
