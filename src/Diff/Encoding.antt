-- ===== src/Diff/Encoding.antt =====
-- `diff` pushes the encodings of the steps: its paths and operation objects are read back.
use colyseus_rs.Base.{
  ℕ, zero, suc, Text, List, [], ◌∷◌, ◌++◌, none, some, ◌≡◌, refl, append_assoc, append-nil, text,
  Eq, Option-cases, inl, inr, if◌then◌else◌, Bool-cases, Bool, text_eqb, length, min, ◌-◌, ◌*◌,
  drop, ◌&&◌, ◌||◌, leb, ltb, nat_eqb, ◌==◌,
}
use colyseus_rs.Base.Decimal.{to_string, to_string-AllDigits}
use colyseus_rs.Json.{Value, array, object, Items, nil, cons, Fields, done, field, to_list}
use colyseus_rs.Json.Equality.{value_eqb, items_eqb, fields_eqb, json_eq}
use colyseus_rs.Json.Map.{get, contains_key, insert, key_lt}
use colyseus_rs.Json.Pointer.{render}
use colyseus_rs.Json.Pointer.RoundTrip.{parse_pointer-render, escape-AllDigits}
use colyseus_rs.Json.Patch.{Step, Action, add, delete, replace, decode, decode_all}
use colyseus_rs.Diff.{
  key_path, index_path, op, diff_removed, remove_extras, add_extras, lcs_walk, diff_array_lcs,
  positional_extras, diff_array, lcs_max_cells, diff_value, diff_entries, diff_zip, diff, aligned,
}
use colyseus_rs.Diff.Table.{tail, cell, fill_table}
use colyseus_rs.Diff.Steps.{
  under, removed_steps, remove_steps, add_steps, extra_steps, walk_steps, lcs_steps, array_steps,
  steps, entry_steps, zip_steps,
}

key_path-render : (path key : Text) → path ++ render (key ∷ []) ≡ key_path path key
unfolding render key_path
key_path-render path key = rw (append-nil)

index_path-render : (path : Text) (i : ℕ) → path ++ render (to_string i ∷ []) ≡ index_path path i
unfolding render index_path
index_path-render path i = rw (append-nil, escape-AllDigits (to_string i) (to_string-AllDigits i))

key_path_digits : (path : Text) (i : ℕ) → key_path path (to_string i) ≡ index_path path i
unfolding key_path index_path
key_path_digits path i = rw (escape-AllDigits (to_string i) (to_string-AllDigits i))

module _ {N : Type 0} where
  abbrev encode : Text → Action N → Value N
  encode pointer (add v) = op (text "add") pointer (some v)
  encode pointer delete = op (text "remove") pointer none
  encode pointer (replace v) = op (text "replace") pointer (some v)

  abbrev encode_all : Text → List (Step N) → List (Value N)
  encode_all path [] = []
  encode_all path (s ∷ ss) = encode (path ++ render s.path) s.action ∷ encode_all path ss

  encode_all-append :
      (path : Text) (a b : List (Step N))
      → encode_all path (a ++ b) ≡ encode_all path a ++ encode_all path b
  encode_all-append path [] b = refl
  encode_all-append path (s ∷ a) b = rw (encode_all-append path a b)

  encode_all-under :
      (path key : Text) (ss : List (Step N))
      → encode_all path (under key ss) ≡ encode_all (key_path path key) ss
  unfolding under render key_path
  encode_all-under path key [] = refl
  encode_all-under path key (s ∷ ss) = rw (encode_all-under path key ss, append_assoc) refl

  decode-encode :
      (keys : List Text) (act : Action N)
      → decode (encode (render keys) act) ≡ some (record { path = keys; action = act })
  unfolding decode op get insert key_lt text_eqb
  decode-encode keys (add v) = rw (parse_pointer-render keys)
  decode-encode keys delete = rw (parse_pointer-render keys)
  decode-encode keys (replace v) = rw (parse_pointer-render keys)

  pub decode_all-encode_all : (ss : List (Step N)) → decode_all (encode_all [] ss) ≡ some ss
  unfolding decode_all
  decode_all-encode_all [] = refl
  decode_all-encode_all (s ∷ ss) = rw (decode-encode s.path s.action, decode_all-encode_all ss)

  diff_removed-steps :
      (old new : Fields N) (path : Text) (ops : List (Value N))
      → diff_removed old new path ops ≡ ops ++ encode_all path (removed_steps old new)
  unfolding diff_removed removed_steps
  diff_removed-steps done new path ops = rw append-nil
  diff_removed-steps (field key v old) new path ops = elim (Bool-cases (contains_key key new)) [
    | inl kept ↦ rw kept (diff_removed-steps old new path ops)
    | inr gone ↦ rw gone (rw (diff_removed-steps old new path _, append_assoc, key_path-render))
  ]

  remove_extras-steps :
      (n i : ℕ) (path : Text) (ops : List (Value N))
      → remove_extras n i path ops ≡ ops ++ encode_all path (remove_steps n i)
  unfolding remove_extras remove_steps
  remove_extras-steps zero i path ops = rw append-nil
  remove_extras-steps (suc n) i path ops =
      rw (remove_extras-steps n i path _, append_assoc, index_path-render)

  add_extras-steps :
      (j : ℕ) (items : List (Value N)) (path : Text) (ops : List (Value N))
      → add_extras j items path ops ≡ ops ++ encode_all path (add_steps j items)
  unfolding add_extras add_steps
  add_extras-steps j [] path ops = rw append-nil
  add_extras-steps j (item ∷ items) path ops =
      rw (add_extras-steps (suc j) items path _, append_assoc, index_path-render)

module _ {N : Type 0} ⦃e : Eq N⦄ where
  replaced :
      (old new : Value N) (path : Text) (ops : List (Value N))
      → (if value_eqb old new then ops else ops ++ op (text "replace") path (some new) ∷ [])
        ≡ ops
          ++ encode_all path
              (if value_eqb old new then [] else record { path = []; action = replace new } ∷ [])
  unfolding render
  replaced old new path ops = elim (Bool-cases (value_eqb old new)) [
    | inl same ↦ rw (same, append-nil)
    | inr differ ↦ rw (differ, append-nil)
  ]

  lcs_walk-steps :
      (rows : List (List ℕ)) (old new : List (Value N)) (j cur : ℕ) (path : Text)
      (ops : List (Value N))
      → lcs_walk rows old new j cur path ops
        ≡ ops ++ encode_all path (walk_steps rows old new j cur)
  unfolding lcs_walk walk_steps
  lcs_walk-steps rows [] new j cur path ops = add_extras-steps cur new path ops
  lcs_walk-steps rows (x ∷ old) [] j cur path ops =
      remove_extras-steps (length (x ∷ old)) cur path ops
  lcs_walk-steps rows (x ∷ old) (y ∷ new) j cur path ops = elim (Bool-cases (x == y)) [
    | inl same ↦ rw same (lcs_walk-steps (tail rows) old new (suc j) (suc cur) path ops)
    | inr differ ↦ elim (Bool-cases (leb (cell rows 0 (suc j)) (cell rows 1 j))) [
      | inl shorter ↦
          rw (differ, shorter)
            (rw (
              lcs_walk-steps (tail rows) old (y ∷ new) j cur path _,
              append_assoc,
              index_path-render,
            ))
      | inr longer ↦
          rw (differ, longer)
            (rw (
              lcs_walk-steps rows (x ∷ old) new (suc j) (suc cur) path _,
              append_assoc,
              index_path-render,
            ))
    ]
  ]

  positional_extras-steps :
      (old new : List (Value N)) (path : Text) (zipped : List (Step N)) (ops : List (Value N))
      → positional_extras old new path (ops ++ encode_all path zipped)
        ≡ ops ++ encode_all path (zipped ++ extra_steps old new)
  unfolding positional_extras extra_steps
  positional_extras-steps old new path zipped ops =
      let overlap = min (length old) (length new) in
      rw (
        add_extras-steps overlap (drop overlap new) path _,
        remove_extras-steps (length old - overlap) overlap path _,
        append_assoc,
        append_assoc,
        encode_all-append path zipped _,
        encode_all-append path (remove_steps (length old - overlap) overlap) _,
      )

  -- The three ways to compare arrays, given the result of the loop over the pairs.
  diff_array-steps :
      (old new : List (Value N)) (path : Text) (zipped : List (Step N)) (ops : List (Value N))
      → diff_array old new path (ops ++ encode_all path zipped) ops
        ≡ ops ++ encode_all path (array_steps old new zipped)
  unfolding diff_array array_steps
  diff_array-steps old new path zipped ops = elim (Bool-cases in_place) [
    | inl pairs ↦ rw pairs
    | inr shifted ↦ elim (Bool-cases (ltb lcs_max_cells (length old * length new))) [
      | inl huge ↦ rw (shifted, huge) (positional_extras-steps old new path zipped ops)
      | inr small ↦
          rw (shifted, small)
            (unfold diff_array_lcs lcs_steps in
              lcs_walk-steps (fill_table old new) old new 0 0 path ops)
    ]
  ]
    where
      in_place : Bool
      in_place =
          nat_eqb (length old) (length new)
          && (leb (length old) (aligned old new * 2) || leb (length old) 8)

  mutual
    unfolding diff_value steps

    value_steps :
        (old new : Value N) (path : Text) (ops : List (Value N))
        → diff_value old new path ops ≡ ops ++ encode_all path (steps old new)
    value_steps (object old) (object new) path ops = elim (Bool-cases (fields_eqb old new)) [
      | inl same ↦ rw (same, append-nil)
      | inr differ ↦
          rw (differ, entries_steps old new path _, diff_removed-steps old new path ops)
            (rw (append_assoc, encode_all-append path (removed_steps old new) _))
    ]
    value_steps (array old) (array new) path ops = elim (Bool-cases (items_eqb old new)) [
      | inl same ↦ rw (same, append-nil)
      | inr differ ↦
          rw (differ, pairs_steps old new 0 path ops)
            (diff_array-steps (to_list old) (to_list new) path (zip_steps old new 0) ops)
    ]
    value_steps old new path ops = replaced old new path ops

    entries_steps :
        (old new : Fields N) (path : Text) (ops : List (Value N))
        → diff_entries old new path ops ≡ ops ++ encode_all path (entry_steps old new)
    entries_steps old done path ops = rw append-nil
    entries_steps old (field key value new) path ops = elim (Option-cases (get key old)) [
      | inl fresh ↦ rw fresh (rw (entries_steps old new path _, append_assoc, key_path-render))
      | inr (previous, known) ↦ rw known (
          rw (
            entries_steps old new path _,
            value_steps previous value (key_path path key) ops,
            encode_all-append path (under key (steps previous value)) _,
            encode_all-under path key,
            append_assoc,
          ))
    ]

    pairs_steps :
        (old new : Items N) (i : ℕ) (path : Text) (ops : List (Value N))
        → diff_zip old new i path ops ≡ ops ++ encode_all path (zip_steps old new i)
    pairs_steps old nil i path ops = rw append-nil
    pairs_steps nil (cons n new) i path ops = rw append-nil
    pairs_steps (cons o old) (cons n new) i path ops = rw (
      pairs_steps old new (suc i) path _,
      value_steps o n (index_path path i) ops,
      encode_all-append path (under (to_string i) (steps o n)) _,
      encode_all-under path (to_string i),
      append_assoc,
      key_path_digits path i,
    )

  -- The operations of `diff` are the encodings of the steps, and are read back as these.
  pub decode_all-diff : (old new : Value N) → decode_all (diff old new) ≡ some (steps old new)
  unfolding diff
  decode_all-diff old new = rw (value_steps old new [] []) (decode_all-encode_all (steps old new))
