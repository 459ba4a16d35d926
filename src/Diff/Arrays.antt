-- ===== src/Diff/Arrays.antt =====
-- The steps on arrays produce the new array, whatever the table holds.
use colyseus_rs.Base.{
  ℕ, suc, ◌-◌, min, List, [], ◌∷◌, ◌++◌, some, ◌≡◌, refl, ap, sym, ◌∙◌, inl, inr, arith, Eq, ◌==◌,
  length, length-append, length-take, length-drop, drop-min-length, take-append-drop, take, drop,
  Bool-cases, leb,
}
use colyseus_rs.Json.{Value, array, Items, nil, cons, from_list}
use colyseus_rs.Json.Equality.{json_eq, value_sound}
use colyseus_rs.Json.Patch.{Step, apply_steps}
use colyseus_rs.Json.Patch.Laws.{items_of, items_of-append, delete_at, add_at, apply_steps-chain}
use colyseus_rs.Diff.Table.{tail, cell, fill_table}
use colyseus_rs.Diff.Steps.{remove_steps, add_steps, extra_steps, walk_steps, lcs_steps}

module _ {N : Type 0} where
  abbrev doc : List (Value N) → List (Value N) → Value N
  doc pre vs = array (items_of pre (from_list vs))

  length_snoc : (pre : List (Value N)) (v : Value N) → suc (length pre) ≡ length (pre ++ v ∷ [])
  length_snoc pre v = omega (arith, length-append pre (v ∷ []))

  remove_steps_lem :
      (pre xs : List (Value N))
      → apply_steps (remove_steps (length xs) (length pre)) (doc pre xs)
        ≡ some (array (items_of pre nil))
  unfolding apply_steps remove_steps
  remove_steps_lem pre [] = refl
  remove_steps_lem pre (x ∷ xs) = rw (delete_at pre x (from_list xs)) (remove_steps_lem pre xs)

  add_steps_lem :
      (pre xs : List (Value N)) (j : ℕ)
      → j ≡ length pre
      → apply_steps (add_steps j xs) (array (items_of pre nil)) ≡ some (doc pre xs)
  unfolding apply_steps add_steps
  add_steps_lem pre [] j e = refl
  add_steps_lem pre (x ∷ xs) j e =
      rw
        (
          e,
          add_at pre x nil,
          ← items_of-append pre x nil,
          add_steps_lem (pre ++ x ∷ []) xs (suc (length pre)) (length_snoc pre x),
        )
        (ap (λ (vs : Items N). some (array vs)) (items_of-append pre x (from_list xs)))

  extras :
      (k i : ℕ) (pre xs ys : List (Value N))
      → k ≡ length xs
      → i ≡ length pre
      → apply_steps (remove_steps k i ++ add_steps i ys) (doc pre xs) ≡ some (doc pre ys)
  extras k i pre xs ys h g =
      apply_steps-chain (remove_steps k i) (add_steps i ys) (doc pre xs)
        (rw (h, g) (remove_steps_lem pre xs)) (add_steps_lem pre ys i g)

  pub items_of-from_list :
      (pre ys : List (Value N)) → items_of pre (from_list ys) ≡ from_list (pre ++ ys)
  items_of-from_list [] ys = refl
  items_of-from_list (u ∷ pre) ys = ap (cons u) (items_of-from_list pre ys)

  -- The extras of a positional comparison, behind what the pairs made of the common part.
  pub extra_steps_lem :
      (old new : List (Value N))
      → apply_steps (extra_steps old new) (doc (take (length old) new) (drop (length new) old))
        ≡ some (array (from_list new))
  unfolding extra_steps
  extra_steps_lem old new =
      let pre = take (length old) new in
      rw (drop-min-length (length old) new) (
        extras (length old - min (length old) (length new)) (min (length old) (length new)) pre
          (drop (length new) old) (drop (length old) new)
          (omega (arith, length-drop (length new) old)) (sym (length-take (length old) new))
        ∙ ap (λ (vs : Items N). some (array vs))
            (items_of-from_list pre (drop (length old) new)
              ∙ ap from_list (take-append-drop (length old) new)))

  behind :
      (ss : List (Step N)) (pre old new : List (Value N)) (y : Value N)
      → apply_steps ss (doc (pre ++ y ∷ []) old) ≡ some (doc (pre ++ y ∷ []) new)
      → apply_steps ss (doc pre (y ∷ old)) ≡ some (doc pre (y ∷ new))
  behind ss pre old new y h =
      rw (items_of-append pre y (from_list old), items_of-append pre y (from_list new)) at h

module _ {N : Type 0} ⦃e : Eq N⦄ where
  walk_steps_lem :
      (rows : List (List ℕ)) (pre old new : List (Value N)) (j cur : ℕ)
      → cur ≡ length pre
      → apply_steps (walk_steps rows old new j cur) (doc pre old) ≡ some (doc pre new)
  unfolding walk_steps apply_steps
  walk_steps_lem rows pre [] new j cur h = add_steps_lem pre new cur h
  walk_steps_lem rows pre (x ∷ old) [] j cur h = rw h (remove_steps_lem pre (x ∷ old))
  walk_steps_lem rows pre (x ∷ old) (y ∷ new) j cur h = elim (Bool-cases (x == y)) [
    | inl same ↦ rw same (
        rw (value_sound x y same) (
          behind (walk_steps (tail rows) old new (suc j) (suc cur)) pre old new y (
            walk_steps_lem (tail rows) (pre ++ y ∷ []) old new (suc j) (suc cur)
              (rw h (length_snoc pre y)))))
    | inr differ ↦ elim (Bool-cases (leb (cell rows 0 (suc j)) (cell rows 1 j))) [
      | inl shorter ↦
          rw (differ, shorter, h, delete_at pre x (from_list old))
            (walk_steps_lem (tail rows) pre old (y ∷ new) j (length pre) refl)
      | inr longer ↦
          rw (differ, longer, h, add_at pre y (from_list (x ∷ old)))
            (behind (walk_steps rows (x ∷ old) new (suc j) (suc (length pre))) pre (x ∷ old) new y (
              walk_steps_lem rows (pre ++ y ∷ []) (x ∷ old) new (suc j) (suc (length pre))
                (length_snoc pre y)))
    ]
  ]

  pub lcs_steps_lem :
      (old new : List (Value N))
      → apply_steps (lcs_steps old new) (array (from_list old)) ≡ some (array (from_list new))
  unfolding lcs_steps
  lcs_steps_lem old new = walk_steps_lem (fill_table old new) [] old new 0 0 refl
