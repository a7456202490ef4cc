-- ===== src/ReleaseMatrix/Project/Matrices.antt =====
-- The matrices of an accepted projection.
use aros_toolchains.Prelude.{
  ℕ, String, Bool, true, false, List, [], ◌∷◌, none, ok, contains, string_eq, ◌≡◌, refl, arith,
  eq_of_test, refuse, plan_error, ◌>>◌, refuse-eq-ok, require-ok, >>=-ok, ok-injective, sym, ap,
  ◌∙◌, length, keep, All, ltb, ◌≤◌, ◌*◌,
}
use mathlib.Core.Path.{subst}
use aros_toolchains.Json.{Value, str}
use aros_toolchains.ReleaseMatrix.{active_hosts, require_digest, require_commit, max_build_entries}
use aros_toolchains.ReleaseMatrix.Lanes.{Lane}
use aros_toolchains.ReleaseMatrix.Plan.{Expected, Validated, validate_plan}
use aros_toolchains.ReleaseMatrix.Project.{
  VerifyEntry, build_entries, select_lanes, in_group, check_diagnostic_group, select_scope, Request,
  Projection, assemble, lay_out, project,
}

not-ltb : {a b : ℕ} → ltb a b ≡ false → b ≤ a
not-ltb h = ground arith

pub length-build_entries : (es : List VerifyEntry) → length (build_entries es) ≡ 2 * length es
unfolding build_entries
length-build_entries [] = refl
length-build_entries (e ∷ es) = omega (arith, length-build_entries es)

-- The steps of an accepted projection.
pub record Accepted (sha256 : List ℕ → String) (raw : List ℕ) (plan : Value) (r : Request)
    (p : Projection) : Type 0 where
  pub validated : Validated
  pub hosts : List String
  pub bound : r.plan_sha256 ≡ sha256 raw
  pub accepted :
      validate_plan plan (record {
        inputs_sha256 = r.inputs_sha256;
        producer_commit = r.producer_commit;
        tools_commit = r.tools_commit;
      })
      ≡ ok validated
  pub scoped : select_scope r.event r.scope r.full_qualification ≡ ok hosts
  pub grouped :
      check_diagnostic_group r.diagnostic_group r.event r.scope validated.group_ids ≡ ok tt
  pub laid : lay_out r hosts validated ≡ ok p

require_digest-str :
    (s : String) (d : String) {t : String} → require_digest (str s) d ≡ ok t → t ≡ s
unfolding require_digest
require_digest-str s d h = ground arith

require_commit-str :
    (s : String) (d : String) {t : String} → require_commit (str s) d ≡ ok t → t ≡ s
unfolding require_commit
require_commit-str s d h = ground arith

pub project-Accepted :
    (sha256 : List ℕ → String) (raw : List ℕ) (plan : Value) (r : Request) (p : Projection)
    → project sha256 raw plan r ≡ ok p
    → Accepted sha256 raw plan r p
unfolding project
project-Accepted sha256 raw plan r p h =
    >>=-ok (require_digest (str r.plan_sha256) "selected plan digest") _ h λ digest e0 h0.
      require-ok _ _ _ h0 λ bound h1.
        >>=-ok (require_digest (str r.inputs_sha256) "selected inputs digest") _ h1 λ inputs e2 h2.
          >>=-ok (require_commit (str r.producer_commit) "selected producer commit") _ h2
            λ producer e3 h3.
              >>=-ok (require_commit (str r.tools_commit) "selected tools commit") _ h3
                λ tools e4 h4.
                  >>=-ok
                    (validate_plan plan (record {
                      inputs_sha256 = inputs;
                      producer_commit = producer;
                      tools_commit = tools;
                    }))
                    _ h4
                    λ validated e5 h5.
                      >>=-ok (select_scope r.event r.scope r.full_qualification) _ h5 λ hosts e6 h6.
                        >>=-ok
                          (check_diagnostic_group r.diagnostic_group r.event r.scope
                            validated.group_ids)
                          _ h6
                          λ u e7 h7. record {
                            validated = validated;
                            hosts = hosts;
                            bound =
                                sym (require_digest-str r.plan_sha256 "selected plan digest" e0)
                                ∙ eq_of_test digest (sha256 raw) bound;
                            accepted =
                                ap (λ (x : Expected). validate_plan plan x)
                                  (λ i. record {
                                    inputs_sha256 =
                                        sym
                                          (require_digest-str r.inputs_sha256
                                            "selected inputs digest" e2)
                                          i;
                                    producer_commit =
                                        sym
                                          (require_commit-str r.producer_commit
                                            "selected producer commit" e3)
                                          i;
                                    tools_commit =
                                        sym
                                          (require_commit-str r.tools_commit "selected tools commit"
                                            e4)
                                          i;
                                  })
                                ∙ e5;
                            scoped = e6;
                            grouped = e7;
                            laid = h7;
                          }

-- What the bounds let through is the assembled document.
record Laid (r : Request) (hosts : List String) (v : Validated) (p : Projection) : Type 0 where
  result : assemble r hosts v ≡ p
  few_builds : length p.build_matrix ≤ max_build_entries
  few_lanes : length p.verify_matrix ≤ v.lane_count

lay_out-bounds :
    (r : Request) (hosts : List String) (v : Validated) (p : Projection)
    → lay_out r hosts v ≡ ok p
    → (assemble r hosts v ≡ p)
      × (length (assemble r hosts v).build_matrix ≤ max_build_entries)
      × (length (assemble r hosts v).verify_matrix ≤ v.lane_count)
unfolding lay_out
lay_out-bounds r hosts v p h = bounds (assemble r hosts v) h
  where
    bounds :
        (q : Projection)
        → (refuse
              (ltb max_build_entries (length q.build_matrix))
              (plan_error "projected build matrix exceeds 256 entries")
            >> (refuse
                  (ltb v.lane_count (length q.verify_matrix))
                  (plan_error "projected lane count exceeds the validated owner lane count")
                >> ok q))
          ≡ ok p
        → (q ≡ p)
          × (length q.build_matrix ≤ max_build_entries)
          × (length q.verify_matrix ≤ v.lane_count)
    bounds q k =
        let (builds, k1) = refuse-eq-ok _ _ _ k in
        let (lanes, k2) = refuse-eq-ok _ _ _ k1 in (ok-injective k2, not-ltb builds, not-ltb lanes)

lay_out-Laid :
    (r : Request) (hosts : List String) (v : Validated) (p : Projection)
    → lay_out r hosts v ≡ ok p
    → Laid r hosts v p
lay_out-Laid r hosts v p h =
    let b = lay_out-bounds r hosts v p h in
    record {
      result = b.0;
      few_builds = subst (λ (q : Projection). length q.build_matrix ≤ max_build_entries) b.0 b.1;
      few_lanes = subst (λ (q : Projection). length q.verify_matrix ≤ v.lane_count) b.0 b.2;
    }

pub project_bounds :
    (sha256 : List ℕ → String) (raw : List ℕ) (plan : Value) (r : Request) (p : Projection)
    → project sha256 raw plan r ≡ ok p
    → (p.plan_sha256 ≡ sha256 raw)
      × (p.build_matrix ≡ build_entries p.verify_matrix)
      × (p.build_count ≡ 2 * p.lane_count)
      × (p.lane_count ≡ length p.verify_matrix)
      × (p.build_count ≤ 256)
project_bounds sha256 raw plan r p h =
    let a = project-Accepted sha256 raw plan r p h in
    let laid = lay_out-Laid r a.hosts a.validated p a.laid in
    subst
      (λ (q : Projection).
        length q.build_matrix ≤ max_build_entries
        → (q.plan_sha256 ≡ sha256 raw)
          × (q.build_matrix ≡ build_entries q.verify_matrix)
          × (q.build_count ≡ 2 * q.lane_count)
          × (q.lane_count ≡ length q.verify_matrix)
          × (q.build_count ≤ 256))
      laid.result (λ few. unfold assemble in (a.bound, refl, length-build_entries _, refl, few))
      laid.few_builds

keep-All {ℓ} : {A : Type ℓ} (t : A → Bool) (xs : List A) → All (λ x. t x ≡ true) xs → keep t xs ≡ xs
keep-All t [] h = refl
keep-All t (x ∷ xs) h = ground (arith, keep-All t xs h.1)

pub select_lanes-All :
    (lanes : List Lane)
    → All (λ (l : Lane). contains active_hosts l.host ≡ true) lanes
    → select_lanes active_hosts none lanes ≡ lanes
unfolding select_lanes
select_lanes-All lanes h =
    ap (keep (in_group none)) (keep-All (λ (l : Lane). contains active_hosts l.host) lanes h)
    ∙ keep-All (in_group none) lanes (every lanes)
  where
    every : (ls : List Lane) → All (λ l. in_group none l ≡ true) ls
    every [] = tt
    every (l ∷ ls) = (refl, every ls)

-- The projection is the document assembled from the accepted plan.
pub assembled :
    (sha256 : List ℕ → String) (raw : List ℕ) (plan : Value) (r : Request) (p : Projection)
    → (a : Accepted sha256 raw plan r p) → assemble r a.hosts a.validated ≡ p
assembled sha256 raw plan r p a = (lay_out-Laid r a.hosts a.validated p a.laid).result
