-- ===== src/Diff/Inner.antt =====
-- No step of a comparison of containers acts on the container as a whole.
use colyseus_rs.Base.{
  ℕ, zero, suc, List, [], ◌∷◌, Option-cases, inl, inr, ◌==◌, Bool, Bool-cases, if◌then◌else◌, ◌&&◌,
  Eq, All, length, leb, nat_eqb, ltb, ◌||◌, ◌*◌,
}
use colyseus_rs.Json.{Value, array, object, Items, nil, cons, Fields, done, field}
use colyseus_rs.Json.Equality.{value_eqb, items_eqb, fields_eqb, json_eq}
use colyseus_rs.Json.Map.{get, contains_key}
use colyseus_rs.Json.Patch.{Step, replace}
use colyseus_rs.Json.Patch.Laws.{Inner}
use colyseus_rs.Diff.{aligned, lcs_max_cells}
use colyseus_rs.Diff.Table.{tail, cell}
use colyseus_rs.Diff.Steps.{
  removed_steps, remove_steps, add_steps, extra_steps, walk_steps, lcs_steps, array_steps, steps,
  entry_steps, zip_steps,
}
use colyseus_rs.Diff.Below.{All-append, under-Inner}

pub remove_steps-Inner : (N : Type 0) (n i : ℕ) → All (Inner {N = N}) (remove_steps n i)
unfolding remove_steps
remove_steps-Inner N zero i = tt
remove_steps-Inner N (suc n) i = (tt, remove_steps-Inner N n i)

module _ {N : Type 0} where
  pub removed_steps-Inner : (old new : Fields N) → All Inner (removed_steps old new)
  unfolding removed_steps
  removed_steps-Inner done new = tt
  removed_steps-Inner (field key v old) new = elim (Bool-cases (contains_key key new)) [
    | inl kept ↦ rw kept (removed_steps-Inner old new)
    | inr gone ↦ rw gone (tt, removed_steps-Inner old new)
  ]

  pub add_steps-Inner : (j : ℕ) (items : List (Value N)) → All Inner (add_steps j items)
  unfolding add_steps
  add_steps-Inner j [] = tt
  add_steps-Inner j (item ∷ items) = (tt, add_steps-Inner (suc j) items)

module _ {N : Type 0} ⦃e : Eq N⦄ where
  pub entry_steps-Inner : (old new : Fields N) → All Inner (entry_steps old new)
  unfolding entry_steps
  entry_steps-Inner old done = tt
  entry_steps-Inner old (field key value new) = elim (Option-cases (get key old)) [
    | inl fresh ↦ rw fresh (tt, entry_steps-Inner old new)
    | inr (previous, known) ↦
        rw known (All-append Inner _ _ (under-Inner key _) (entry_steps-Inner old new))
  ]

  pub zip_steps-Inner : (old new : Items N) (i : ℕ) → All Inner (zip_steps old new i)
  unfolding zip_steps
  zip_steps-Inner old nil i = tt
  zip_steps-Inner nil (cons n new) i = tt
  zip_steps-Inner (cons o old) (cons n new) i =
      All-append Inner _ _ (under-Inner _ _) (zip_steps-Inner old new (suc i))

  pub walk_steps-Inner :
      (rows : List (List ℕ)) (old new : List (Value N)) (j cur : ℕ)
      → All Inner (walk_steps rows old new j cur)
  unfolding walk_steps
  walk_steps-Inner rows [] new j cur = add_steps-Inner cur new
  walk_steps-Inner rows (x ∷ old) [] j cur = remove_steps-Inner _ (length (x ∷ old)) cur
  walk_steps-Inner rows (x ∷ old) (y ∷ new) j cur = elim (Bool-cases (x == y)) [
    | inl same ↦ rw same (walk_steps-Inner (tail rows) old new (suc j) (suc cur))
    | inr differ ↦ elim (Bool-cases (leb (cell rows 0 (suc j)) (cell rows 1 j))) [
      | inl shorter ↦ rw (differ, shorter) (tt, walk_steps-Inner (tail rows) old (y ∷ new) j cur)
      | inr longer ↦ rw (differ, longer) (tt, walk_steps-Inner rows (x ∷ old) new (suc j) (suc cur))
    ]
  ]

  array_steps-Inner :
      (old new : List (Value N)) (zipped : List (Step N))
      → All Inner zipped
      → All Inner (array_steps old new zipped)
  unfolding array_steps extra_steps lcs_steps
  array_steps-Inner old new zipped h = elim (Bool-cases in_place) [
    | inl pairs ↦ rw pairs h
    | inr shifted ↦ elim (Bool-cases (ltb lcs_max_cells (length old * length new))) [
      | inl huge ↦
          rw (shifted, huge)
            (All-append Inner _ _ h
              (All-append Inner _ _ (remove_steps-Inner _ _ _) (add_steps-Inner _ _)))
      | inr small ↦ rw (shifted, small) (walk_steps-Inner _ _ _ _ _)
    ]
  ]
    where
      in_place : Bool
      in_place =
          nat_eqb (length old) (length new)
          && (leb (length old) (aligned old new * 2) || leb (length old) 8)

  replaced-Inner :
      (old new : Value N)
      → All Inner
          (if value_eqb old new then [] else record { path = []; action = replace new } ∷ [])
  replaced-Inner old new = elim (Bool-cases (value_eqb old new)) [
    | inl same ↦ rw same tt
    | inr differ ↦ rw differ (tt, tt)
  ]

  pub steps-Inner : (old new : Value N) → All Inner (steps old new)
  unfolding steps
  steps-Inner (object old) (object new) = elim (Bool-cases (fields_eqb old new)) [
    | inl same ↦ rw same tt
    | inr differ ↦
        rw differ (All-append Inner _ _ (removed_steps-Inner old new) (entry_steps-Inner old new))
  ]
  steps-Inner (array old) (array new) = elim (Bool-cases (items_eqb old new)) [
    | inl same ↦ rw same tt
    | inr differ ↦ rw differ (array_steps-Inner _ _ _ (zip_steps-Inner old new 0))
  ]
  steps-Inner old new = replaced-Inner old new
