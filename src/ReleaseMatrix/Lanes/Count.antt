-- ===== src/ReleaseMatrix/Lanes/Count.antt =====
-- How many lanes the lane loop of `_validate_plan` collects.
use aros_toolchains.Prelude.{
  suc, ◌+◌, String, List, [], ◌∷◌, ok, fold, >>=-ok, length, length-append, ◌≡◌, sym, ap, ◌∙◌,
  arith, ok-injective,
}
use aros_toolchains.Json.{Value}
use aros_toolchains.ReleaseMatrix.Lanes.{LaneState, read_lane, add_lane, validate_lane, start}
use aros_toolchains.ReleaseMatrix.Lanes.Unique.{add_lane-Accepts}

validate_lane-length :
    (group_ids : List String) (s : LaneState) (v : Value) (t : LaneState)
    → validate_lane group_ids s v ≡ ok t
    → length t.lanes ≡ suc (length s.lanes)
unfolding validate_lane
validate_lane-length group_ids s v t h =
    >>=-ok (read_lane group_ids v) (add_lane group_ids s) h λ l _ two.
      let a = add_lane-Accepts group_ids s l t two in
      ap (λ (r : LaneState). length r.lanes) a.result
      ∙ omega (arith, length-append {0} s.lanes (l ∷ []))

fold-length :
    (group_ids : List String) (values : List Value) (s t : LaneState)
    → fold (validate_lane group_ids) s values ≡ ok t
    → length t.lanes ≡ length s.lanes + length values
fold-length group_ids [] s t h =
    ap (λ (r : LaneState). length r.lanes) (sym (ok-injective h)) ∙ omega arith
fold-length group_ids (v ∷ vs) s t h =
    >>=-ok (validate_lane group_ids s v) (λ u. fold (validate_lane group_ids) u vs) h
      λ u one rest.
        omega (arith, fold-length group_ids vs u t rest, validate_lane-length group_ids s v u one)

-- An accepted list has as many lanes as the plan has lane values.
pub lanes-length :
    (group_ids : List String) (values : List Value) (t : LaneState)
    → fold (validate_lane group_ids) (start group_ids) values ≡ ok t
    → length t.lanes ≡ length values
lanes-length group_ids values t h =
    omega (arith, fold-length group_ids values (start group_ids) t h)
