-- ===== src/Diff.antt =====
-- crates/colyseus/src/diff.rs: the operations that turn one JSON document into another. A `Vec` that
-- a function pushes to is an argument and the result.
pub mod Table
pub mod Steps
pub mod Encoding
pub mod Below
pub mod Inner
pub mod Arrays
pub mod Objects
pub mod RoundTrip
pub mod Minimal
use colyseus_rs.Base.{
  ℕ, zero, suc, ◌-◌, ◌*◌, min, Text, List, [], ◌∷◌, ◌++◌, Option, none, some, Bool, true, false,
  ◌||◌, leb, ltb, nat_eqb, ◌&&◌, if◌then◌else◌, Eq, ◌==◌, text, length, drop,
}
use colyseus_rs.Base.Decimal.{to_string}
use colyseus_rs.Json.{
  Value, null, bool, number, string, array, object, Items, nil, cons, Fields, done, field, to_list,
}
use colyseus_rs.Json.Equality.{json_eq, value_eqb, items_eqb, fields_eqb}
use colyseus_rs.Json.Map.{get, contains_key, insert}
use colyseus_rs.Json.Pointer.{escape}
use Table.{tail, cell, fill_table}

abbrev pub lcs_max_cells : ℕ
lcs_max_cells = 8192

-- `format!("{path}/{}", escape(key))` and `format!("{path}/{i}")`.
unfoldable pub key_path : Text → Text → Text
key_path path key = path ++ b'/' ∷ escape key

unfoldable pub index_path : Text → ℕ → Text
index_path path i = path ++ b'/' ∷ to_string i

module _ {N : Type 0} where
  insert_value : Option (Value N) → Fields N → Fields N
  insert_value none o = o
  insert_value (some v) o = insert (text "value") v o

  -- `op`
  unfoldable pub op : Text → Text → Option (Value N) → Value N
  unfolding insert_value
  op kind path value = object (
      insert_value value
        (insert (text "path") (string path) (insert (text "op") (string kind) done)))

  -- The first loop of `diff_object`: keys that are gone.
  unfoldable pub diff_removed : Fields N → Fields N → Text → List (Value N) → List (Value N)
  diff_removed done new path ops = ops
  diff_removed (field key v old) new path ops = diff_removed old new path (
      if contains_key key new then ops else ops ++ op (text "remove") (key_path path key) none ∷ [])

  -- `for _ in overlap..old.len()` of `diff_array_positional`: `n` removals at one index.
  unfoldable pub remove_extras : ℕ → ℕ → Text → List (Value N) → List (Value N)
  remove_extras zero overlap path ops = ops
  remove_extras (suc n) overlap path ops =
      remove_extras n overlap path (ops ++ op (text "remove") (index_path path overlap) none ∷ [])

  -- `for (j, item) in new.iter().enumerate().skip(overlap)`; also the last loop of `diff_array_lcs`.
  unfoldable pub add_extras : ℕ → List (Value N) → Text → List (Value N) → List (Value N)
  add_extras j [] path ops = ops
  add_extras j (item ∷ items) path ops =
      add_extras (suc j) items path (ops ++ op (text "add") (index_path path j) (some item) ∷ [])

module _ {N : Type 0} ⦃e : Eq N⦄ where
  -- `old.iter().zip(new.iter()).filter(|(o, n)| o == n).count()`
  unfoldable pub aligned : List (Value N) → List (Value N) → ℕ
  aligned (o ∷ old) (n ∷ new) = let rest = aligned old new in if o == n then suc rest else rest
  aligned _ _ = 0

  -- The three loops of `diff_array_lcs` behind the table: `i` is given by what is left of the rows and
  -- of `old`, `j` by its number and what is left of `new`.
  unfoldable pub lcs_walk :
      List (List ℕ)
      → List (Value N)
      → List (Value N)
      → ℕ
      → ℕ
      → Text
      → List (Value N)
      → List (Value N)
  lcs_walk rows [] new j cur path ops = add_extras cur new path ops
  lcs_walk rows (x ∷ old) [] j cur path ops = remove_extras (length (x ∷ old)) cur path ops
  lcs_walk rows (x ∷ old) (y ∷ new) j cur path ops =
      let keep = lcs_walk (tail rows) old new (suc j) (suc cur) path ops in
      let removed =
        lcs_walk (tail rows) old (y ∷ new) j cur path
          (ops ++ op (text "remove") (index_path path cur) none ∷ []) in
      let added =
        lcs_walk rows (x ∷ old) new (suc j) (suc cur) path
          (ops ++ op (text "add") (index_path path cur) (some y) ∷ []) in
      if x == y then keep else if leb (cell rows 0 (suc j)) (cell rows 1 j) then removed else added

  unfoldable pub diff_array_lcs :
      List (Value N) → List (Value N) → Text → List (Value N) → List (Value N)
  unfolding lcs_walk
  diff_array_lcs old new path ops = lcs_walk (fill_table old new) old new 0 0 path ops

  -- `diff_array_positional` behind its first loop, whose result is `zipped`.
  unfoldable pub positional_extras :
      List (Value N) → List (Value N) → Text → List (Value N) → List (Value N)
  positional_extras old new path zipped =
      let overlap = min (length old) (length new) in
      add_extras overlap (drop overlap new) path
        (remove_extras (length old - overlap) overlap path zipped)

  -- `diff_array`; the loop over the pairs, which two of its branches run, is given by its result.
  unfoldable pub diff_array :
      List (Value N) → List (Value N) → Text → List (Value N) → List (Value N) → List (Value N)
  unfolding aligned
  diff_array old new path zipped ops =
      if nat_eqb (length old) (length new)
        && (leb (length old) (aligned old new * 2) || leb (length old) 8)
      then zipped
      else if ltb lcs_max_cells (length old * length new)
      then positional_extras old new path zipped
      else diff_array_lcs old new path ops

  unfoldable mutual
    pub diff_value : Value N → Value N → Text → List (Value N) → List (Value N)
    diff_value (object old) (object new) path ops =
        let changed = diff_entries old new path (diff_removed old new path ops) in
        if fields_eqb old new then ops else changed
    diff_value (array old) (array new) path ops =
        let zipped = diff_zip old new 0 path ops in
        let changed = diff_array (to_list old) (to_list new) path zipped ops in
        if items_eqb old new then ops else changed
    diff_value old new path ops =
        if value_eqb old new then ops else ops ++ op (text "replace") path (some new) ∷ []

    -- The second loop of `diff_object`.
    pub diff_entries : Fields N → Fields N → Text → List (Value N) → List (Value N)
    diff_entries old done path ops = ops
    diff_entries old (field key value new) path ops =
        diff_entries old new path (elim (get key old) [
          | none ↦ ops ++ op (text "add") (key_path path key) (some value) ∷ []
          | some previous ↦ diff_value previous value (key_path path key) ops
        ])

    -- The loop over the pairs of elements of `diff_array` and `diff_array_positional`.
    pub diff_zip : Items N → Items N → ℕ → Text → List (Value N) → List (Value N)
    diff_zip old nil i path ops = ops
    diff_zip nil (cons n new) i path ops = ops
    diff_zip (cons o old) (cons n new) i path ops =
        diff_zip old new (suc i) path (diff_value o n (index_path path i) ops)

  pub diff : Value N → Value N → List (Value N)
  diff old new = diff_value old new [] []
