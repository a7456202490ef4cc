-- ===== src/ReleaseAdmission/Governance/Bypass.antt =====
-- release-admission-v2.py: `_graphql_tag_ruleset_bypass`, the query for the actors who may bypass a ruleset.
use aros_toolchains.Prelude.{
  ℕ, suc, ◌+◌, String, Bool, true, false, ◌&&◌, ◌||◌, not, if◌then◌else◌, List, [], ◌∷◌, Option,
  none, some, Result, ok, raise, admission_error, for_each, traverse, ◌==◌, ◌<>◌, string_eq, nat_eq,
  contains, lookup, map, length, ltb, leb, any, all, keep, keys,
}
use aros_toolchains.Prelude as P
use aros_toolchains.Json.{pos, Value, int, arr, no_elements, get, is_str, is_false}
use aros_toolchains.Sorted.{nat_ord}
use aros_toolchains.Text.Order.{string_ord}
use aros_toolchains.ReleaseAdmission.Checks.{required_object, exact_keys}
use aros_toolchains.ReleaseAdmission.Session.{Session, Reply, answered, failed, ◌>>=◌, lift}

abbrev pub no_bypass : Option Value → Bool
no_bypass none = true
no_bypass (some (arr no_elements)) = true
no_bypass (some _) = false

abbrev pub is_empty_list : Value → Bool
is_empty_list (arr no_elements) = true
is_empty_list _ = false

abbrev pub is_zero_int : Value → Bool
is_zero_int (int (pos n)) = n == 0
is_zero_int _ = false

abbrev pub is_int : Value → ℕ → Bool
is_int (int (pos m)) n = m == n
is_int _ n = false

abbrev pub response_fields : List String
response_fields = "data" ∷ "errors" ∷ "extensions" ∷ []

-- What the query answered of the ruleset's node.
unfoldable pub check_bypass : Value → String → ℕ → Result (Unit {0})
unfolding required_object exact_keys
check_bypass answer node_id database_id =
    P.◌>>=◌ (required_object answer "GitHub GraphQL response") (λ response.
      P.◌>>◌
        (P.require (all (contains response_fields) (keys response))
          (admission_error "GitHub GraphQL response has unexpected fields"))
        (P.◌>>◌
          (P.require (no_bypass (lookup "errors" response))
            (admission_error "GitHub GraphQL query returned errors"))
          (P.◌>>=◌ (exact_keys (get response "data") ("node" ∷ []) "GitHub GraphQL data")
            (λ document.
              P.◌>>=◌
                (exact_keys (get document "node")
                  ("__typename" ∷ "id" ∷ "databaseId" ∷ "bypassActors" ∷ [])
                  "GitHub GraphQL ruleset node")
                (λ node.
                  P.◌>>◌
                    (P.require
                      (is_str (get node "__typename") "RepositoryRuleset"
                        && is_str (get node "id") node_id
                        && is_int (get node "databaseId") database_id)
                      (admission_error
                        "GitHub GraphQL ruleset identity differs from the REST ruleset"))
                    (P.◌>>=◌
                      (exact_keys (get node "bypassActors")
                        ("totalCount" ∷ "nodes" ∷ "pageInfo" ∷ [])
                        "GitHub GraphQL ruleset bypass connection")
                      (λ connection.
                        P.◌>>=◌
                          (exact_keys (get connection "pageInfo") ("hasNextPage" ∷ [])
                            "GitHub GraphQL bypass page info")
                          (λ page_info.
                            P.require
                              (is_zero_int (get connection "totalCount")
                                && is_empty_list (get connection "nodes")
                                && is_false (get page_info "hasNextPage"))
                              (admission_error
                                "tag ruleset GraphQL bypass actors are nonempty, paginated, or malformed")))))))))

abbrev pub read_bypass : Reply → Result Value
read_bypass (answered value) = ok value
read_bypass (failed status) =
    raise (admission_error "GitHub GraphQL query failed for tag ruleset bypass metadata")

unfoldable pub send_bypass : String → Session Value
send_bypass node_id w n = P.◌>>=◌ (read_bypass (w.reply_bypass n node_id)) (λ v. ok (v, suc n))

-- `_graphql_tag_ruleset_bypass` of a node that was checked
unfoldable pub require_no_bypass : String → ℕ → Session (Unit {0})
unfolding send_bypass check_bypass
require_no_bypass node_id database_id = do
  answer ← send_bypass node_id
  lift (check_bypass answer node_id database_id)
