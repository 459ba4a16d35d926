-- ===== src/Tests/StateRuns.antt =====
-- Runs of the state slot and of edits.
use colyseus_rs.Base.{All, inl, arith, nat_eq, ℕ, [], ◌∷◌, none, some, ◌≡◌, refl, text, text_eqb}
use colyseus_rs.Base.Result.{ok}
use colyseus_rs.Base.Decimal.{parse_usize}
use colyseus_rs.Json.{Value, number, array, object, nil, cons, done, field}
use colyseus_rs.Json.Map
use colyseus_rs.Json.Patch.{get_item, set_item}
use colyseus_rs.State.Edit.{set, edit_at_path}
use colyseus_rs.State.Edit.Laws.{value_at, edit_at_path-set, edit_at_path_total}
use colyseus_rs.State.Slot.{Serde, new, full, slot_diff}
use colyseus_rs.State.Slot.Laws.{
  change, tick, receive, slot_run, slot_run_converges, late_joiner_patch_fails,
}

-- A state of one counter.
abbrev pub counter : Serde ℕ ℕ
counter = record { to_value = number; from_value = λ v. none }

-- The document is the state.
abbrev document : Serde ℕ (Value ℕ)
document = record { to_value = λ v. v; from_value = some }

slot_run_converges_example :
    (slot_run counter
      (new counter 3)
      (some (full counter (new counter 3)))
      (change 5 ∷ tick ∷ change 9 ∷ tick ∷ [])).1
    ≡ some (
        full counter
          (slot_run counter
            (new counter 3)
            (some (full counter (new counter 3)))
            (change 5 ∷ tick ∷ change 9 ∷ tick ∷ [])).0)
slot_run_converges_example =
    slot_run_converges counter (λ s. tt) 3 (change 5 ∷ tick ∷ change 9 ∷ [])

late_joiner_patch_fails_example :
    receive
      (slot_diff document (record {
        typed = object done;
        snapshot = object (field (text "score") (number 1) done);
      })).1
      (object done)
    ≡ none
unfolding Map.contains_key full text_eqb
late_joiner_patch_fails_example =
    late_joiner_patch_fails document
      (record { typed = object done; snapshot = object (field (text "score") (number 1) done) })
      (field (text "score") (number 1) done) done (text "score") refl refl refl refl

abbrev root : Value ℕ
root = object (
    field (text "hp") (number 4)
      (field (text "xs") (array (cons (number 1) (cons (number 2) nil))) done))

abbrev edited : Value ℕ
edited = object (
    field (text "hp") (number 4)
      (field (text "xs") (array (cons (number 1) (cons (number 9) nil))) done))

edit_at_path-set_example :
    (value_at edited (text "xs" ∷ text "1" ∷ []) ≡ some (number 9))
    × All (λ q. value_at edited q ≡ value_at root q) ((text "hp" ∷ []) ∷ [])
unfolding edit_at_path parse_usize Map.get Map.set get_item set_item text_eqb
edit_at_path-set_example =
    edit_at_path-set root edited (text "xs" ∷ text "1" ∷ []) ((text "hp" ∷ []) ∷ []) (number 9) refl
      (inl (λ e. ground (arith, e), λ i h g. ground (arith, h)), tt)

edit_at_path_total_example :
    (root' : Value ℕ) × (edit_at_path root (text "xs" ∷ text "1" ∷ []) (set (number 9)) ≡ ok root')
unfolding value_at parse_usize Map.get get_item text_eqb
edit_at_path_total_example =
    edit_at_path_total root (number 2) (text "xs" ∷ text "1" ∷ []) (number 9) refl
