-- ===== src/Tests/DiffRuns.antt =====
-- The unit tests of crates/colyseus/src/diff.rs, over natural numbers.
use colyseus_rs.Base.{none, nat_eq, ℕ, ◌+◌, ◌*◌, ◌≤◌, List, [], ◌∷◌, some, ◌≡◌, refl, text, length}
use colyseus_rs.Base.Decimal.{to_string}
use colyseus_rs.Json.{Value, number, array, object, nil, cons, done, field}
use colyseus_rs.Json.Equality.{value_eqb}
use colyseus_rs.Json.Map.{key_lt}
use colyseus_rs.Json.Patch.{apply_patch}
use colyseus_rs.Diff.{diff, diff_array_lcs, index_path, op, remove_extras, add_extras}
use colyseus_rs.Diff.Table.{fill_table, fill_row, zero_row}
use colyseus_rs.Diff.RoundTrip.{apply_patch-diff}
use colyseus_rs.Diff.Minimal.{done as sub_done, skip, keep, diff_array_lcs_minimal}

abbrev before : Value ℕ
before = object (
    field (text "a") (array (cons (number 1) (cons (number 2) nil)))
      (field (text "b") (number 7) done))

abbrev after : Value ℕ
after = object (field (text "a") (array (cons (number 2) nil)) (field (text "c") (number 8) done))

apply_patch-diff_example : apply_patch (diff before after) before ≡ some after
unfolding key_lt
apply_patch-diff_example =
    apply_patch-diff before after (((refl, tt), (tt, tt)), ((tt, (tt, tt)), (tt, tt)))
      (((refl, tt), (tt, tt)), ((tt, tt), (tt, tt)))

abbrev window : List (Value ℕ)
window = number 1 ∷ number 2 ∷ []

abbrev shifted : List (Value ℕ)
shifted = number 2 ∷ number 3 ∷ []

-- A shift in a list takes two operations.
shift_ops :
    diff_array_lcs window shifted (text "/m") []
    ≡ op (text "remove") (text "/m/0") none ∷ op (text "add") (text "/m/1") (some (number 3)) ∷ []
unfolding diff_array_lcs fill_table fill_row zero_row value_eqb index_path to_string remove_extras
    add_extras
shift_ops = refl

diff_array_lcs_minimal_example : length (diff_array_lcs window shifted (text "/m") []) + 2 * 1 ≤ 4
diff_array_lcs_minimal_example =
    diff_array_lcs_minimal window shifted (text "/m") [] (number 2 ∷ []) (skip (keep sub_done))
      (keep (skip sub_done))
