-- ===== src/CompilerOwners/Loop.antt =====
-- `_project_owners`: the loop over the build entries.
use mathlib.Core.Path.{subst}
use mathlib.Core.List.{map-append, append_assoc, append-nil}
use aros_toolchains.Prelude.{
  ℕ, String, Bool, true, false, List, [], ◌∷◌, ◌++◌, some, ok, fold, ◌>>=◌, ◌<◌, ◌^◌, contains,
  string_eq, pair_eq, Dict, lookup, ◌≡◌, refl, arith, sym, ap, ◌∙◌, All, map, IsNodup,
  contains-append, all, refuse, Eq, Exception, origin_error,
}
use aros_toolchains.Json.{Value, item}
use aros_toolchains.Text.{char_count}
use aros_toolchains.ReleaseMatrix.Project.{BuildEntry}
use aros_toolchains.CompilerOwners.{
  Key, key_of, Owner, OwnerState, owner_id, owner_of, add_owner, fits, job_name_of, artifact_name,
}
use aros_toolchains.CompilerOwners.Names.{IsPlainKey, fits-job_name_of, fits-artifact_name}
use aros_toolchains.CompilerOwners.Groups.{HasGroup}

refuse_lem : (b : Bool) (e : Exception) → b ≡ false → refuse b e ≡ ok tt
refuse_lem b e h = ground arith

item_listed {ℓ} :
    {A : Type ℓ} (k : String) (d : Dict String A) (a : A) → lookup k d ≡ some a → item d k ≡ ok a
item_listed k d a h = ground arith

fresh_of :
    {A : Type 0} ⦃e : Eq A⦄ (xs : List A) (x : A) (ys : List A)
    → IsNodup (xs ++ x ∷ ys)
    → contains xs x ≡ false
fresh_of [] x ys h = refl
fresh_of (y ∷ xs) x ys h = ground (arith, fresh_of xs x ys h.1, contains-append xs (x ∷ ys) y)

-- An owner's lane and identity.
abbrev pub identity : Owner → Key × String
identity o = ((o.group_id, (o.host, (o.profile, o.copy))), o.owner_id)

module _ (sha256 : List ℕ → String) (groups : Dict String (Dict String Value))
    (run_id run_attempt : ℕ) (small_id : run_id < 10 ^ 16)
    (small_attempt : run_attempt < 10 ^ 16) where
  -- What the loop needs of an entry.
  pub record IsReady (b : BuildEntry) : Type 0 where
    pub plain : IsPlainKey (key_of b)
    pub known : HasGroup groups b.group_id
    pub long : char_count (owner_id sha256 (key_of b)) ≡ 64

  abbrev pub identity_of : BuildEntry → Key × String
  identity_of b = (key_of b, owner_id sha256 (key_of b))

  names_fit :
      (b : BuildEntry)
      → IsReady b
      → all fits (
          job_name_of (key_of b)
          ∷ artifact_name "native-v2-" (owner_id sha256 (key_of b)) run_id run_attempt
          ∷ artifact_name "native-v2-proof-" (owner_id sha256 (key_of b)) run_id run_attempt
          ∷ [])
        ≡ true
  names_fit b r =
      rw
        (
          fits-job_name_of (key_of b) r.plain,
          fits-artifact_name "native-v2-" (owner_id sha256 (key_of b)) run_id run_attempt
              (omega arith) r.long small_id small_attempt,
          fits-artifact_name "native-v2-proof-" (owner_id sha256 (key_of b)) run_id run_attempt
              (omega arith) r.long small_id small_attempt,
        )
        refl

  owner_of-IsReady :
      (b : BuildEntry) (r : IsReady b)
      → (o : Owner) × (owner_of sha256 groups run_id run_attempt b r.known.group ≡ ok o)
        × (identity o ≡ identity_of b)
  unfolding owner_of
  owner_of-IsReady b r = (
    record {
      owner_id = owner_id sha256 (key_of b);
      group_id = b.group_id;
      host = b.host;
      profile = b.profile;
      copy = b.copy;
      job_name = job_name_of (key_of b);
      payload_name = artifact_name "native-v2-" (owner_id sha256 (key_of b)) run_id run_attempt;
      proof_name = artifact_name "native-v2-proof-" (owner_id sha256 (key_of b)) run_id run_attempt;
      recipe = r.known.references.recipe;
      source_lock = r.known.references.source_lock;
      profiles = r.known.references.profiles;
    },
    rw
        (
          names_fit b r,
          r.known.references.at_recipe,
          r.known.references.at_source_lock,
          r.known.references.at_profiles,
        )
        refl,
    refl,
  )

  -- The state after the entries bs, from the state s.
  pub record Extends (s : OwnerState) (bs : List BuildEntry) (t : OwnerState) : Type 0 where
    pub keys_of : t.owner_keys ≡ s.owner_keys ++ map key_of bs
    pub identities : map identity t.owners ≡ map identity s.owners ++ map identity_of bs

  add_owner-IsReady :
      (s : OwnerState) (b : BuildEntry)
      → IsReady b
      → contains s.owner_keys (key_of b) ≡ false
      → (t : OwnerState) × (add_owner sha256 groups run_id run_attempt s b ≡ ok t)
        × Extends s (b ∷ []) t
  unfolding add_owner
  add_owner-IsReady s b r fresh =
      let o = owner_of-IsReady b r in
      (
        record { owners = s.owners ++ o.0 ∷ []; owner_keys = s.owner_keys ++ key_of b ∷ [] },
        rw
            (
              refuse_lem (contains s.owner_keys (key_of b))
                  (origin_error "native compiler owner matrix contains duplicate lanes") fresh,
              item_listed b.group_id groups r.known.group r.known.listed,
              o.1,
            )
            refl,
        record { keys_of = refl; identities = rw (map-append, o.2) refl },
      )

  -- On entries that are ready and distinct, the loop ends with their owners in order.
  pub loop_total :
      (bs : List BuildEntry) (s : OwnerState)
      → All IsReady bs
      → IsNodup (s.owner_keys ++ map key_of bs)
      → (t : OwnerState) × (fold (add_owner sha256 groups run_id run_attempt) s bs ≡ ok t)
        × Extends s bs t
  loop_total [] s h k =
      (s, refl, record { keys_of = sym (append-nil _); identities = sym (append-nil _) })
  loop_total (b ∷ bs) s h k =
      let one = add_owner-IsReady s b h.0 (fresh_of s.owner_keys (key_of b) (map key_of bs) k) in
      let more = loop_total bs one.0 h.1 (
        subst (λ ks. IsNodup (ks ++ map key_of bs)) (sym one.2.keys_of)
          (subst IsNodup (sym (append_assoc s.owner_keys (key_of b ∷ []) (map key_of bs))) k)) in
      (
        more.0,
        ap (λ m. m >>= λ t. fold (add_owner sha256 groups run_id run_attempt) t bs) one.1 ∙ more.1,
        record {
          keys_of =
              more.2.keys_of
              ∙ (ap (λ ks. ks ++ map key_of bs) one.2.keys_of
                  ∙ append_assoc s.owner_keys (key_of b ∷ []) (map key_of bs));
          identities =
              more.2.identities
              ∙ (ap (λ is. is ++ map identity_of bs) one.2.identities
                  ∙ append_assoc (map identity s.owners) (identity_of b ∷ []) (map identity_of bs));
        },
      )
