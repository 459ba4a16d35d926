-- ===== src/Diff/RoundTrip.antt =====
-- The patch that `diff` makes turns the old document into the new one.
use colyseus_rs.Base.{
  ℕ, suc, Text, List, [], ◌∷◌, ◌++◌, some, ◌≡◌, refl, ap, sym, ◌∙◌, Option-cases, inl, inr, arith,
  ◌==◌, text_eq, text_sound, length-append, Bool, Bool-cases, true, if◌then◌else◌, ◌&&◌, Eq, length,
  take, drop, leb, nat_eqb, ltb, ◌||◌, ◌*◌,
}
use colyseus_rs.Json.{
  Value, array, object, Items, nil, cons, Fields, done, field, to_list, from_list,
}
use colyseus_rs.Json.Equality.{
  value_eqb, items_eqb, fields_eqb, value_sound, items_sound, fields_sound, json_eq,
}
use colyseus_rs.Json.Map.{get, contains_key, insert, Sorted, Above}
use colyseus_rs.Json.Map.Laws.{
  get-insert, insert-Sorted, insert-eq-set, contains_key-Above, contains_key_head,
  contains_key_tail,
}
use colyseus_rs.Json.Patch.{Step, add, replace, apply_at, apply_steps, apply_patch}
use colyseus_rs.Json.Patch.Laws.{
  items_of, items_of-append, apply_steps-chain, get_item-items_of, set_item-items_of,
}
use colyseus_rs.Diff.{aligned, lcs_max_cells, diff}
use colyseus_rs.Diff.Steps.{
  at, under, removed_steps, extra_steps, lcs_steps, array_steps, steps, entry_steps, zip_steps,
}
use colyseus_rs.Diff.Encoding.{decode_all-diff}
use colyseus_rs.Base.Decimal.{to_string}
use colyseus_rs.Diff.Below.{under_key, under_index}
use colyseus_rs.Diff.Arrays.{extra_steps_lem, lcs_steps_lem}
use colyseus_rs.Diff.Objects.{
  drop_missing, insert_all, insert_all-drop_missing, drop_missing-Sorted, get-drop_missing_kept,
  removed_steps_lem,
}
use colyseus_rs.Diff.Inner.{steps-Inner}
use colyseus_rs.Json.Valid.{IsValid, ItemsValid, FieldsValid, get-IsValid}

module _ {N : Type 0} where
  from_list-to_list : (vs : Items N) → from_list (to_list vs) ≡ vs
  from_list-to_list nil = refl
  from_list-to_list (cons v vs) = ap (cons v) (from_list-to_list vs)

  zip_result : Items N → Items N → Items N
  zip_result old nil = old
  zip_result nil (cons n new) = nil
  zip_result (cons o old) (cons n new) = cons n (zip_result old new)

  zip_result_parts :
      (old new : Items N)
      → zip_result old new
        ≡ items_of
            (take (length (to_list old)) (to_list new))
            (from_list (drop (length (to_list new)) (to_list old)))
  unfolding zip_result
  zip_result_parts nil nil = refl
  zip_result_parts (cons o old) nil = ap (cons o) (sym (from_list-to_list old))
  zip_result_parts nil (cons n new) = refl
  zip_result_parts (cons o old) (cons n new) = ap (cons n) (zip_result_parts old new)

  zip_result_all :
      (old new : Items N) → length (to_list old) ≡ length (to_list new) → zip_result old new ≡ new
  unfolding zip_result
  zip_result_all nil nil h = refl
  zip_result_all (cons o old) nil h = absurd (omega arith)
  zip_result_all nil (cons n new) h = absurd (omega arith)
  zip_result_all (cons o old) (cons n new) h = ap (cons n) (zip_result_all old new (omega arith))

module _ {N : Type 0} ⦃e : Eq N⦄ where
  replaced_lem :
      (old new : Value N)
      → apply_steps
          (if value_eqb old new then [] else record { path = []; action = replace new } ∷ [])
          old
        ≡ some new
  unfolding apply_steps apply_at
  replaced_lem old new = elim (Bool-cases (value_eqb old new)) [
    | inl same ↦ rw same (ap some (value_sound old new same))
    | inr differ ↦ rw differ
  ]

  same_object :
      (old new : Fields N)
      → fields_eqb old new ≡ true
      → apply_steps [] (object old) ≡ some (object new)
  unfolding apply_steps
  same_object old new h = ap (λ (m : Fields N). some (object m)) (fields_sound old new h)

  same_array :
      (old new : Items N) → items_eqb old new ≡ true → apply_steps [] (array old) ≡ some (array new)
  unfolding apply_steps
  same_array old new h = ap (λ (m : Items N). some (array m)) (items_sound old new h)

  nothing : (d : Value N) → apply_steps [] d ≡ some d
  unfolding apply_steps
  nothing d = refl

  entry_fresh :
      (key : Text) (value : Value N) (m : Fields N)
      → apply_steps (at key (add value) ∷ []) (object m) ≡ some (object (insert key value m))
  unfolding apply_steps apply_at
  entry_fresh key value m = refl

  entry_known :
      (key : Text) (previous value : Value N) (m : Fields N)
      → Sorted m
      → get key m ≡ some previous
      → apply_steps (steps previous value) previous ≡ some value
      → apply_steps (under key (steps previous value)) (object m)
        ≡ some (object (insert key value m))
  entry_known key previous value m s h ih =
      rw (insert-eq-set key value previous m s h)
        (under_key key (steps previous value) m previous value (steps-Inner previous value) h ih)

  others_kept :
      (key : Text) (value : Value N) (new m old : Fields N)
      → Above key new
      → ((k : Text) → contains_key k (field key value new) ≡ true → get k m ≡ get k old)
      → (k : Text) → contains_key k new ≡ true
      → get k (insert key value m) ≡ get k old
  others_kept key value new m old above h k c = elim (Bool-cases (k == key)) [
    | inl same ↦ cc (contains_key-Above key new above, text_sound k key same)
    | inr differ ↦ rw (get-insert k key value m, differ) (h k (contains_key_tail k key value new c))
  ]

  pair_step :
      (pre : List (Value N)) (o n : Value N) (old : Items N) (i : ℕ)
      → i ≡ length pre
      → apply_steps (steps o n) o ≡ some n
      → apply_steps (under (to_string i) (steps o n)) (array (items_of pre (cons o old)))
        ≡ some (array (items_of pre (cons n old)))
  pair_step pre o n old i h ih = rw h (
      under_index (length pre) (steps o n) (items_of pre (cons o old)) o n (steps-Inner o n)
        (get_item-items_of pre o old) ih
      ∙ ap (λ (vs : Items N). some (array vs)) (set_item-items_of pre o n old))

  behind_first :
      (ss : List (Step N)) (pre : List (Value N)) (n : Value N) (old new : Items N)
      → apply_steps ss (array (items_of (pre ++ n ∷ []) old))
        ≡ some (array (items_of (pre ++ n ∷ []) new))
      → apply_steps ss (array (items_of pre (cons n old)))
        ≡ some (array (items_of pre (cons n new)))
  behind_first ss pre n old new h = rw (items_of-append pre n old, items_of-append pre n new) at h

  array_steps_lem :
      (old new : Items N) (zipped : List (Step N))
      → apply_steps zipped (array old) ≡ some (array (zip_result old new))
      → apply_steps (array_steps (to_list old) (to_list new) zipped) (array old) ≡ some (array new)
  unfolding array_steps
  array_steps_lem old new zipped h = elim (Bool-cases in_place) [
    | inl pairs ↦
        rw pairs
          (h ∙ ap (λ (vs : Items N). some (array vs)) (zip_result_all old new (ground arith)))
    | inr shifted ↦
        elim (Bool-cases (ltb lcs_max_cells (length (to_list old) * length (to_list new)))) [
          | inl huge ↦
              rw (shifted, huge)
                (apply_steps-chain zipped (extra_steps (to_list old) (to_list new)) (array old)
                  (rw (zip_result_parts old new) at h)
                  (extra_steps_lem (to_list old) (to_list new) ∙ back new))
          | inr small ↦
              rw (shifted, small)
                (ap
                    (λ (vs : Items N).
                      apply_steps (lcs_steps (to_list old) (to_list new)) (array vs))
                    (sym (from_list-to_list old))
                  ∙ lcs_steps_lem (to_list old) (to_list new)
                  ∙ back new)
        ]
  ]
    where
      in_place : Bool
      in_place =
          nat_eqb (length (to_list old)) (length (to_list new))
          && (leb (length (to_list old)) (aligned (to_list old) (to_list new) * 2)
              || leb (length (to_list old)) 8)

      back : (vs : Items N) → some (array (from_list (to_list vs))) ≡ some (array vs)
      back vs = ap (λ (ws : Items N). some (array ws)) (from_list-to_list vs)

  mutual
    unfolding steps insert_all zip_result

    value_rt :
        (old new : Value N) → IsValid old → IsValid new → apply_steps (steps old new) old ≡ some new
    value_rt (object old) (object new) vo vn = elim (Bool-cases (fields_eqb old new)) [
      | inl same ↦ rw same (same_object old new same)
      | inr differ ↦ rw differ (
          apply_steps-chain (removed_steps old new) (entry_steps old new) (object old)
            (removed_steps_lem old new old vo.0 vo.0 (λ k c. c))
            (entries_rt old new (drop_missing old new old) vo.1 vn.1 vn.0
                (drop_missing-Sorted old new old vo.0) (get-drop_missing_kept old new vo.0)
              ∙ ap (λ (m : Fields N). some (object m)) (insert_all-drop_missing old new vo.0 vn.0)))
    ]
    value_rt (array old) (array new) vo vn = elim (Bool-cases (items_eqb old new)) [
      | inl same ↦ rw same (same_array old new same)
      | inr differ ↦
          rw differ (array_steps_lem old new (zip_steps old new 0) (zip_rt [] old new 0 refl vo vn))
    ]
    value_rt old new vo vn = replaced_lem old new

    entries_rt :
        (old new m : Fields N)
        → FieldsValid old
        → FieldsValid new
        → Sorted new
        → Sorted m
        → ((k : Text) → contains_key k new ≡ true → get k m ≡ get k old)
        → apply_steps (entry_steps old new) (object m) ≡ some (object (insert_all new m))
    entries_rt old done m vo vn sn sm h = nothing (object m)
    entries_rt old (field key value new) m vo vn sn sm h =
        let rest =
          entries_rt old new (insert key value m) vo vn.1 sn.1 (insert-Sorted key value m sm)
            (others_kept key value new m old sn.0 h) in
        let here = h key (contains_key_head key value new) in
        elim (Option-cases (get key old)) [
          | inl fresh ↦ rw fresh (apply_steps-chain _ _ (object m) (entry_fresh key value m) rest)
          | inr (previous, known) ↦ rw known (
              apply_steps-chain _ _ (object m)
                (entry_known key previous value m sm (here ∙ known)
                  (value_rt previous value (get-IsValid key previous old vo known) vn.0))
                rest)
        ]

    zip_rt :
        (pre : List (Value N)) (old new : Items N) (i : ℕ)
        → i ≡ length pre
        → ItemsValid old
        → ItemsValid new
        → apply_steps (zip_steps old new i) (array (items_of pre old))
          ≡ some (array (items_of pre (zip_result old new)))
    zip_rt pre old nil i h vo vn = nothing (array (items_of pre old))
    zip_rt pre nil (cons n new) i h vo vn = nothing (array (items_of pre nil))
    zip_rt pre (cons o old) (cons n new) i h vo vn =
        apply_steps-chain _ (zip_steps old new (suc i)) (array (items_of pre (cons o old)))
          (pair_step pre o n old i h (value_rt o n vo.0 vn.0))
          (behind_first (zip_steps old new (suc i)) pre n old (zip_result old new) (
            zip_rt (pre ++ n ∷ []) old new (suc i) (omega (arith, length-append pre (n ∷ []))) vo.1
              vn.1))

  -- Whatever the two documents hold, a receiver that has the old one and applies the patch `diff old new`
  -- succeeds and has exactly the new one, provided that both have their maps in order.
  pub apply_patch-diff :
      (old new : Value N) → IsValid old → IsValid new → apply_patch (diff old new) old ≡ some new
  unfolding apply_patch
  apply_patch-diff old new vo vn = rw (decode_all-diff old new) (value_rt old new vo vn)
