-- ===== src/Diff/Steps.antt =====
-- The operations of `diff` as steps with decoded paths, relative to the value that is compared.
use colyseus_rs.Base.{
  ℕ, zero, suc, ◌-◌, ◌*◌, min, Text, List, [], ◌∷◌, ◌++◌, none, some, leb, ltb, nat_eqb, ◌&&◌, ◌||◌,
  if◌then◌else◌, Eq, ◌==◌, length, drop,
}
use colyseus_rs.Base.Decimal.{to_string}
use colyseus_rs.Json.{Value, array, object, Items, nil, cons, Fields, done, field, to_list}
use colyseus_rs.Json.Equality.{json_eq, value_eqb, items_eqb, fields_eqb}
use colyseus_rs.Json.Map.{get, contains_key}
use colyseus_rs.Json.Patch.{Step, Action, add, delete, replace}
use colyseus_rs.Diff.Table.{tail, cell, fill_table}
use colyseus_rs.Diff.{aligned, lcs_max_cells}

module _ {N : Type 0} where
  abbrev pub at : Text → Action N → Step N
  at key act = record { path = key ∷ []; action = act }

  abbrev pub nest : Text → Step N → Step N
  nest key s = record s { path = key ∷ s.path }

  unfoldable pub under : Text → List (Step N) → List (Step N)
  under key [] = []
  under key (s ∷ ss) = nest key s ∷ under key ss

  unfoldable pub removed_steps : Fields N → Fields N → List (Step N)
  removed_steps done new = []
  removed_steps (field key v old) new =
      (if contains_key key new then [] else at key delete ∷ []) ++ removed_steps old new

  unfoldable pub remove_steps : ℕ → ℕ → List (Step N)
  remove_steps zero i = []
  remove_steps (suc n) i = at (to_string i) delete ∷ remove_steps n i

  unfoldable pub add_steps : ℕ → List (Value N) → List (Step N)
  add_steps j [] = []
  add_steps j (item ∷ items) = at (to_string j) (add item) ∷ add_steps (suc j) items

  unfoldable pub extra_steps : List (Value N) → List (Value N) → List (Step N)
  extra_steps old new =
      let overlap = min (length old) (length new) in
      remove_steps (length old - overlap) overlap ++ add_steps overlap (drop overlap new)

module _ {N : Type 0} ⦃e : Eq N⦄ where
  unfoldable pub walk_steps :
      List (List ℕ) → List (Value N) → List (Value N) → ℕ → ℕ → List (Step N)
  walk_steps rows [] new j cur = add_steps cur new
  walk_steps rows (x ∷ old) [] j cur = remove_steps (length (x ∷ old)) cur
  walk_steps rows (x ∷ old) (y ∷ new) j cur =
      let keep = walk_steps (tail rows) old new (suc j) (suc cur) in
      let removed = at (to_string cur) delete ∷ walk_steps (tail rows) old (y ∷ new) j cur in
      let added = at (to_string cur) (add y) ∷ walk_steps rows (x ∷ old) new (suc j) (suc cur) in
      if x == y then keep else if leb (cell rows 0 (suc j)) (cell rows 1 j) then removed else added

  unfoldable pub lcs_steps : List (Value N) → List (Value N) → List (Step N)
  lcs_steps old new = walk_steps (fill_table old new) old new 0 0

  unfoldable pub array_steps : List (Value N) → List (Value N) → List (Step N) → List (Step N)
  unfolding aligned
  array_steps old new zipped =
      if nat_eqb (length old) (length new)
        && (leb (length old) (aligned old new * 2) || leb (length old) 8)
      then zipped
      else if ltb lcs_max_cells (length old * length new)
      then zipped ++ extra_steps old new
      else lcs_steps old new

  unfoldable mutual
    pub steps : Value N → Value N → List (Step N)
    steps (object old) (object new) =
        let changed = removed_steps old new ++ entry_steps old new in
        if fields_eqb old new then [] else changed
    steps (array old) (array new) =
        let zipped = zip_steps old new 0 in
        let changed = array_steps (to_list old) (to_list new) zipped in
        if items_eqb old new then [] else changed
    steps old new =
        if value_eqb old new then [] else record { path = []; action = replace new } ∷ []

    pub entry_steps : Fields N → Fields N → List (Step N)
    entry_steps old done = []
    entry_steps old (field key value new) =
        (elim (get key old) [
          | none ↦ at key (add value) ∷ []
          | some previous ↦ under key (steps previous value)
        ])
        ++ entry_steps old new

    pub zip_steps : Items N → Items N → ℕ → List (Step N)
    zip_steps old nil i = []
    zip_steps nil (cons n new) i = []
    zip_steps (cons o old) (cons n new) i =
        under (to_string i) (steps o n) ++ zip_steps old new (suc i)
