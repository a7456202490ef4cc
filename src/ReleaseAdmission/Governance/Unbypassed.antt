-- ===== src/ReleaseAdmission/Governance/Unbypassed.antt =====
-- What the query for the actors who may bypass a ruleset answered.
use aros_toolchains.Prelude.{
  ℕ, suc, String, true, false, ◌&&◌, ◌∷◌, [], Option, none, some, ok, ◌>>=◌, require-ok, >>=-ok,
  ok-injective, both_true, require_held, string_eq, nat_eq, lookup, all, keys, contains, inl, inr,
  ◌⊎◌, eq_of_test, ◌≡◌, refl, ap, ◌∙◌, arith,
}
use aros_toolchains.Json.{
  Value, pos, negsuc, null, bool, int, float, str, arr, obj, no_elements, element, get, is_str,
  is_false, as_dict,
}
use aros_toolchains.Json.Inversion.{is_str-eq}
use aros_toolchains.ReleaseAdmission.Checks.{Object, required_object}
use aros_toolchains.ReleaseAdmission.Checks.Inverted.{exact_keys-ok, is_false-eq}
use aros_toolchains.ReleaseAdmission.Session.{World, Reply, answered, failed, next-ok}
use aros_toolchains.ReleaseAdmission.Session.Returned.{lift_returned}
use aros_toolchains.ReleaseAdmission.Runtime.Main.{required_object_lem}
use aros_toolchains.ReleaseAdmission.Governance.Bypass.{
  no_bypass, is_int, is_zero_int, is_empty_list, response_fields, check_bypass, read_bypass,
  send_bypass, require_no_bypass,
}

-- A member that is missing, or the empty list.
abbrev pub IsNoList : Option Value → Type 0
IsNoList o = (o ≡ none) ⊎ (o ≡ some (arr no_elements))

pub no_bypass-IsNoList : (o : Option Value) → no_bypass o ≡ true → IsNoList o
no_bypass-IsNoList none h = inl refl
no_bypass-IsNoList (some (arr no_elements)) h = inr refl
no_bypass-IsNoList (some (arr (element v vs))) h = absurd (cc)
no_bypass-IsNoList (some null) h = absurd (cc)
no_bypass-IsNoList (some (bool b)) h = absurd (cc)
no_bypass-IsNoList (some (int z)) h = absurd (cc)
no_bypass-IsNoList (some (float t)) h = absurd (cc)
no_bypass-IsNoList (some (str s)) h = absurd (cc)
no_bypass-IsNoList (some (obj fs)) h = absurd (cc)

is_empty_list-eq : (v : Value) → is_empty_list v ≡ true → v ≡ arr no_elements
is_empty_list-eq (arr no_elements) h = refl
is_empty_list-eq (arr (element v vs)) h = cc
is_empty_list-eq null h = cc
is_empty_list-eq (bool b) h = cc
is_empty_list-eq (int z) h = cc
is_empty_list-eq (float t) h = cc
is_empty_list-eq (str s) h = cc
is_empty_list-eq (obj fs) h = cc

pub is_int-eq : (v : Value) (n : ℕ) → is_int v n ≡ true → v ≡ int (pos n)
is_int-eq (int (pos m)) n h = ap (λ k. int (pos k)) (eq_of_test m n h)
is_int-eq (int (negsuc m)) n h = cc
is_int-eq null n h = cc
is_int-eq (bool b) n h = cc
is_int-eq (float t) n h = cc
is_int-eq (str s) n h = cc
is_int-eq (arr vs) n h = cc
is_int-eq (obj fs) n h = cc

is_zero_int-eq : (v : Value) → is_zero_int v ≡ true → v ≡ int (pos 0)
is_zero_int-eq (int (pos m)) h = ap (λ k. int (pos k)) (eq_of_test m 0 h)
is_zero_int-eq (int (negsuc m)) h = cc
is_zero_int-eq null h = cc
is_zero_int-eq (bool b) h = cc
is_zero_int-eq (float t) h = cc
is_zero_int-eq (str s) h = cc
is_zero_int-eq (arr vs) h = cc
is_zero_int-eq (obj fs) h = cc

-- The connection lists no actor, counts none, and has no further page.
pub record IsEmptyConnection (connection : Object) : Type 0 where
  pub counted : get connection "totalCount" ≡ int (pos 0)
  pub listed : get connection "nodes" ≡ arr no_elements
  pub page_info : Object
  pub is_page_info : as_dict (get connection "pageInfo") ≡ some page_info
  pub last_page : get page_info "hasNextPage" ≡ bool false

-- The answer has no errors, and is of the ruleset's node; the node has no actor who may bypass it.
pub record HasNoActors (answer : Value) (node_id : String) (database_id : ℕ) : Type 0 where
  pub response : Object
  pub is_response : as_dict answer ≡ some response
  pub no_errors : IsNoList (lookup "errors" response)
  pub document : Object
  pub is_document : as_dict (get response "data") ≡ some document
  pub node : Object
  pub is_node : as_dict (get document "node") ≡ some node
  pub type_name : get node "__typename" ≡ str "RepositoryRuleset"
  pub same_node : get node "id" ≡ str node_id
  pub same_ruleset : get node "databaseId" ≡ int (pos database_id)
  pub connection : Object
  pub is_connection : as_dict (get node "bypassActors") ≡ some connection
  pub empty : IsEmptyConnection connection

check_bypass-HasNoActors :
    (answer : Value) (node_id : String) (database_id : ℕ)
    → check_bypass answer node_id database_id ≡ ok tt
    → HasNoActors answer node_id database_id
unfolding check_bypass
check_bypass-HasNoActors answer node_id database_id h =
    >>=-ok (required_object answer "GitHub GraphQL response") _ h λ response is_response h1.
      require-ok (all (contains response_fields) (keys response)) _ _ h1 λ _ h2.
        require-ok (no_bypass (lookup "errors" response)) _ _ h2 λ no_errors h3.
          exact_keys-ok (get response "data") ("node" ∷ []) "GitHub GraphQL data" _ h3
            λ document is_document _ h4.
              exact_keys-ok (get document "node")
                ("__typename" ∷ "id" ∷ "databaseId" ∷ "bypassActors" ∷ [])
                "GitHub GraphQL ruleset node" _ h4
                λ node is_node _ h5.
                  require-ok
                    (is_str (get node "__typename") "RepositoryRuleset"
                      && is_str (get node "id") node_id
                      && is_int (get node "databaseId") database_id)
                    _ _ h5
                    λ named h6.
                      exact_keys-ok (get node "bypassActors")
                        ("totalCount" ∷ "nodes" ∷ "pageInfo" ∷ [])
                        "GitHub GraphQL ruleset bypass connection" _ h6
                        λ connection is_connection _ h7.
                          exact_keys-ok (get connection "pageInfo") ("hasNextPage" ∷ [])
                            "GitHub GraphQL bypass page info" _ h7
                            λ page_info is_page_info _ h8.
                              let empty =
                                require_held
                                  (is_zero_int (get connection "totalCount")
                                    && is_empty_list (get connection "nodes")
                                    && is_false (get page_info "hasNextPage"))
                                  _ h8 in
                              let n =
                                both_true _ (is_int (get node "databaseId") database_id) named in
                              let m =
                                both_true (is_str (get node "__typename") "RepositoryRuleset")
                                  (is_str (get node "id") node_id) n.0 in
                              let e = both_true _ (is_false (get page_info "hasNextPage")) empty in
                              let f =
                                both_true (is_zero_int (get connection "totalCount"))
                                  (is_empty_list (get connection "nodes")) e.0 in
                              record {
                                response = response;
                                is_response =
                                    required_object_lem answer "GitHub GraphQL response" response
                                      is_response;
                                no_errors = no_bypass-IsNoList (lookup "errors" response) no_errors;
                                document = document;
                                is_document = is_document;
                                node = node;
                                is_node = is_node;
                                type_name =
                                    is_str-eq (get node "__typename") "RepositoryRuleset" m.0;
                                same_node = is_str-eq (get node "id") node_id m.1;
                                same_ruleset = is_int-eq (get node "databaseId") database_id n.1;
                                connection = connection;
                                is_connection = is_connection;
                                empty = record {
                                  counted = is_zero_int-eq (get connection "totalCount") f.0;
                                  listed = is_empty_list-eq (get connection "nodes") f.1;
                                  page_info = page_info;
                                  is_page_info = is_page_info;
                                  last_page = is_false-eq (get page_info "hasNextPage") e.1;
                                };
                              }

-- The query of the node was answered so.
pub record IsUnbypassed (w : World) (node_id : String) (database_id : ℕ) : Type 0 where
  pub at : ℕ
  pub response : Value
  pub answer : w.reply_bypass at node_id ≡ answered response
  pub empty : HasNoActors response node_id database_id

read_bypass-answered : (r : Reply) (v : Value) → read_bypass r ≡ ok v → r ≡ answered v
read_bypass-answered (answered u) v h = ground arith
read_bypass-answered (failed status) v h = cc

pub require_no_bypass-IsUnbypassed :
    (w : World) (n m : ℕ) (node_id : String) (database_id : ℕ)
    → require_no_bypass node_id database_id w n ≡ ok (tt, m)
    → IsUnbypassed w node_id database_id
unfolding require_no_bypass send_bypass
require_no_bypass-IsUnbypassed w n m node_id database_id h =
    next-ok (◌>>=◌ (read_bypass (w.reply_bypass n node_id)) (λ v. ok (v, suc n))) _ h λ v k sent h1.
      >>=-ok (read_bypass (w.reply_bypass n node_id)) (λ u. ok (u, suc n)) sent
        λ u read h2.
          let same : ◌≡◌ {A = Value × ℕ} (u, suc n) (v, k) = ok-injective h2 in
          record {
            at = n;
            response = v;
            answer =
                read_bypass-answered (w.reply_bypass n node_id) u read
                ∙ ap (λ t. answered t.0) same;
            empty =
                check_bypass-HasNoActors v node_id database_id
                  (lift_returned (check_bypass v node_id database_id) w k m h1);
          }
