-- ===== src/ReleaseMatrix/Lanes/Crossing/Grid.antt =====
-- The full grid of declared profiles and active hosts, in producer order.
use mathlib.Core.Path.{subst₂}
use mathlib.Core.Logic.{dite}
use aros_toolchains.Prelude.{
  String, Bool, true, false, ◌&&◌, List, [], ◌∷◌, none, some, Eq, ◌==◌, contains, string_eq,
  pair_eq, nat_eq, Dict, keys, lookup, map, any, ltb, ◌≡◌, refl, arith, All, ◌∙◌, IsNodup, sym,
  All-append, All-map, contains-append, ap,
}
use aros_toolchains.Sorted.Members.{Ascends, Ascends-change, flat_map, flat_map-Ascends}
use aros_toolchains.ReleaseMatrix.{active_hosts}
use aros_toolchains.ReleaseMatrix.Lanes.{Lane, lane_key, index_of}
use aros_toolchains.ReleaseMatrix.Lanes.Unique.{is_declared}
use aros_toolchains.ReleaseMatrix.Lanes.Order.{lane_ltb}

lane_dec : Discrete Lane
lane_dec a b =
    dite ((pair_eq {A = String} {B = String × String}).dec (lane_key a) (lane_key b))
      (λ p. yes (λ i. record { group_id = (p i).0; host = (p i).1.0; target_profile = (p i).1.1 }))
      (λ n. no (λ q. n (ap lane_key q)))

instance unfoldable pub lane_eq : Eq Lane
unfolding lane_dec
lane_eq = record { dec = lane_dec }

abbrev pub lane_at : String → String → String → Lane
lane_at g p h = record { group_id = g; host = h; target_profile = p }

abbrev pub host_lanes : String → String → List Lane
host_lanes g p = map (lane_at g p) active_hosts

abbrev pub group_lanes : String × List String → List Lane
group_lanes (g, ps) = flat_map (host_lanes g) ps

-- Groups in their order, each one's profiles in their order, each crossed with the active hosts.
unfoldable pub crossing : Dict String (List String) → List Lane
crossing d = flat_map group_lanes d

-- In a list that repeats nothing, the positions ascend.
index_of-Ascends :
    (xs : List String) → IsNodup xs → Ascends (λ a b. ltb (index_of a xs) (index_of b xs)) xs
index_of-Ascends [] h = tt
index_of-Ascends (x ∷ xs) h = (
  first xs h.0,
  Ascends-change (λ a b. ltb (index_of a xs) (index_of b xs)) _ (λ a. (a == x) ≡ false)
      (λ a b p q k. ground arith) xs (others xs h.0) (index_of-Ascends xs h.1),
)
  where
    others : (ys : List String) → contains ys x ≡ false → All (λ a. (a == x) ≡ false) ys
    others [] k = tt
    others (y ∷ ys) k = (ground arith, others ys (ground arith))

    first :
        (ys : List String)
        → contains ys x ≡ false
        → All (λ y. ltb (index_of x (x ∷ xs)) (index_of y (x ∷ xs)) ≡ true) ys
    first [] k = tt
    first (y ∷ ys) k = (ground arith, first ys (ground arith))

module _ (group_ids : List String) (d : Dict String (List String)) where
  group-lt :
      (a b : Lane)
      → ltb (index_of a.group_id group_ids) (index_of b.group_id group_ids) ≡ true
      → lane_ltb group_ids d a b ≡ true
  group-lt a b h = ground arith

  module _ (g : String) (ps : List String) (listed : lookup g d ≡ some ps) where
    profile-lt :
        (p q h k : String)
        → ltb (index_of p ps) (index_of q ps) ≡ true
        → lane_ltb group_ids d (lane_at g p h) (lane_at g q k) ≡ true
    profile-lt p q h k e = ground arith

    host-lt :
        (p h k : String)
        → ltb (index_of h active_hosts) (index_of k active_hosts) ≡ true
        → lane_ltb group_ids d (lane_at g p h) (lane_at g p k) ≡ true
    host-lt p h k e = let i = index_of h active_hosts in ground arith

    host_lanes-Ascends : (p : String) → Ascends (lane_ltb group_ids d) (host_lanes g p)
    unfolding string_eq
    host_lanes-Ascends p = (
      (
        host-lt p "linux-aarch64" "linux-x86_64" refl,
        (host-lt p "linux-aarch64" "macos-aarch64" refl, tt),
      ),
      ((host-lt p "linux-x86_64" "macos-aarch64" refl, tt), (tt, tt)),
    )

    across_profiles :
        (p q : String)
        → ltb (index_of p ps) (index_of q ps) ≡ true
        → All (λ a. All (λ b. lane_ltb group_ids d a b ≡ true) (host_lanes g q)) (host_lanes g p)
    across_profiles p q e = (row _, (row _, (row _, tt)))
      where
        row :
            (h : String) → All (λ b. lane_ltb group_ids d (lane_at g p h) b ≡ true) (host_lanes g q)
        row h = (profile-lt p q h _ e, (profile-lt p q h _ e, (profile-lt p q h _ e, tt)))

    group_lanes-Ascends : IsNodup ps → Ascends (lane_ltb group_ids d) (group_lanes (g, ps))
    group_lanes-Ascends nodup =
        flat_map-Ascends (λ p q. ltb (index_of p ps) (index_of q ps)) (lane_ltb group_ids d)
          (host_lanes g) across_profiles ps (index_of-Ascends ps nodup) (rows ps)
      where
        rows : (qs : List String) → All (λ q. Ascends (lane_ltb group_ids d) (host_lanes g q)) qs
        rows [] = tt
        rows (q ∷ qs) = (host_lanes-Ascends q, rows qs)

  group_lanes-group :
      (g : String) (ps : List String) → All (λ (l : Lane). l.group_id ≡ g) (group_lanes (g, ps))
  unfolding flat_map
  group_lanes-group g [] = tt
  group_lanes-group g (p ∷ ps) =
      All-append (λ (l : Lane). l.group_id ≡ g) (host_lanes g p) (group_lanes (g, ps))
        (refl, (refl, (refl, tt))) (group_lanes-group g ps)

  across_groups :
      (e f : String × List String)
      → ltb (index_of e.0 group_ids) (index_of f.0 group_ids) ≡ true
      → All (λ a. All (λ b. lane_ltb group_ids d a b ≡ true) (group_lanes f)) (group_lanes e)
  across_groups (g, ps) (g', qs) lt =
      All-map
        (λ a p.
          All-map (λ b q. group-lt a b (moved p q)) (group_lanes (g', qs))
            (group_lanes-group g' qs))
        (group_lanes (g, ps)) (group_lanes-group g ps)
    where
      moved :
          {x y : String} → x ≡ g → y ≡ g' → ltb (index_of x group_ids) (index_of y group_ids) ≡ true
      moved p q =
          subst₂ (λ x y. ltb (index_of x group_ids) (index_of y group_ids) ≡ true) (sym p) (sym q)
            lt

-- The entries of a dict whose keys differ are what the lookups find.
entries-lookup {ℓ} :
    {W : Type ℓ} (d : Dict String W)
    → IsNodup (keys d)
    → All (λ (e : String × W). lookup e.0 d ≡ some e.1) d
entries-lookup {W = W} [] h = tt
entries-lookup {W = W} ((k, v) ∷ d) h = (ground arith, go d h.0 (entries-lookup d h.1))
  where
    go :
        (e : Dict String W)
        → contains (keys e) k ≡ false
        → All (λ (f : String × W). lookup f.0 d ≡ some f.1) e
        → All (λ (f : String × W). lookup f.0 ((k, v) ∷ d) ≡ some f.1) e
    go [] p q = tt
    go ((j, w) ∷ e) p q = (ground arith, go e (ground arith) q.1)

Ascends-keys {ℓ} :
    {W : Type ℓ} (lt : String → String → Bool) (d : Dict String W)
    → Ascends lt (keys d)
    → Ascends (λ (e f : String × W). lt e.0 f.0) d
Ascends-keys {W = W} lt [] h = tt
Ascends-keys {W = W} lt ((k, v) ∷ d) h = (go d h.0, Ascends-keys lt d h.1)
  where
    go :
        (e : Dict String W)
        → All (λ j. lt k j ≡ true) (keys e)
        → All (λ (f : String × W). lt k f.0 ≡ true) e
    go [] p = tt
    go ((j, w) ∷ e) p = (p.0, go e p.1)

module _ (group_ids : List String) (d : Dict String (List String)) (keyed : keys d ≡ group_ids)
    (distinct : IsNodup group_ids)
    (unrepeated : All (λ (e : String × List String). IsNodup e.1) d) where
  grid_rows :
      (es : Dict String (List String))
      → All (λ (e : String × List String). lookup e.0 d ≡ some e.1) es
      → All (λ (e : String × List String). IsNodup e.1) es
      → All (λ e. Ascends (lane_ltb group_ids d) (group_lanes e)) es
  grid_rows [] h k = tt
  grid_rows ((g, ps) ∷ es) h k =
      (group_lanes-Ascends group_ids d g ps h.0 k.0, grid_rows es h.1 k.1)

  pub crossing-Ascends : Ascends (lane_ltb group_ids d) (crossing d)
  unfolding crossing
  crossing-Ascends =
      flat_map-Ascends (λ e f. ltb (index_of e.0 group_ids) (index_of f.0 group_ids))
        (lane_ltb group_ids d) group_lanes (across_groups group_ids d) d
        (Ascends-keys (λ a b. ltb (index_of a group_ids) (index_of b group_ids)) d
          (rw keyed (index_of-Ascends group_ids distinct)))
        (grid_rows d (entries-lookup d (rw keyed distinct)) unrepeated)

-- Members of the grid.
contains-flat_map {ℓ κ} :
    {A : Type ℓ} {B : Type κ} ⦃e : Eq B⦄ (f : A → List B) (xs : List A) (b : B)
    → contains (flat_map f xs) b ≡ any (λ x. contains (f x) b) xs
unfolding flat_map
contains-flat_map f [] b = refl
contains-flat_map f (x ∷ xs) b =
    rw (contains-append (f x) (flat_map f xs) b, contains-flat_map f xs b) refl

contains-host_lanes :
    (g p : String) (l : Lane)
    → contains (host_lanes g p) l
      ≡ (l.group_id == g && (l.target_profile == p && contains active_hosts l.host))
contains-host_lanes g p l = ground arith

contains-group_lanes :
    (g : String) (ps : List String) (l : Lane)
    → contains (group_lanes (g, ps)) l
      ≡ (l.group_id == g && (contains ps l.target_profile && contains active_hosts l.host))
unfolding flat_map
contains-group_lanes g [] l = ground arith
contains-group_lanes g (p ∷ ps) l =
    rw (contains-append (host_lanes g p) (group_lanes (g, ps)) l)
      (ground (arith, contains-host_lanes g p l, contains-group_lanes g ps l))

lookup-not-key {ℓ} :
    {W : Type ℓ} (k : String) (d : Dict String W) → contains (keys d) k ≡ false → lookup k d ≡ none
lookup-not-key k [] h = refl
lookup-not-key k ((j, v) ∷ d) h = ground (arith, lookup-not-key k d)

any-group_lanes :
    (d : Dict String (List String)) (l : Lane)
    → IsNodup (keys d)
    → any (λ e. contains (group_lanes e) l) d ≡ (is_declared d l && contains active_hosts l.host)
any-group_lanes [] l h = refl
any-group_lanes ((g, ps) ∷ d) l h =
    rw (contains-group_lanes g ps l, any-group_lanes d l h.1)
      (ground (arith, lookup-not-key g d h.0))

-- A lane is in the grid when its profile is declared and its host is active.
pub contains-crossing :
    (d : Dict String (List String)) (l : Lane)
    → IsNodup (keys d)
    → contains (crossing d) l ≡ (is_declared d l && contains active_hosts l.host)
unfolding crossing
contains-crossing d l h = contains-flat_map group_lanes d l ∙ any-group_lanes d l h
