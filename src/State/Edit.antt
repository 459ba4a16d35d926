-- ===== src/State/Edit.antt =====
-- `edit_at_path` of crates/colyseus/src/state.rs.
pub mod Laws
use colyseus_rs.Base.{ℕ, Text, List, [], ◌∷◌, Option, none, some, if◌then◌else◌, ltb, length}
use colyseus_rs.Base.Decimal.{parse_usize}
use colyseus_rs.Base.Result.{Result, ok, err, ◌>>=◌, ok_or}
use colyseus_rs.Json.{Value, array, object, Items, to_list, Fields}
use colyseus_rs.Json.Map
use colyseus_rs.Json.Patch.{get_item, set_item, remove_item}

pub data StateEdit (N : Type 0) : Type 0 where
  set : Value N → StateEdit N
  remove : StateEdit N

-- The messages of the source.
pub data EditError : Type 0 where
  cannot_remove_root not_a_container : EditError
  no_such_path bad_array_index cannot_descend no_such_key : Text → EditError
  index_out_of_range : ℕ → EditError

module _ {N : Type 0} where
  -- `arr.len()`
  abbrev len : Items N → ℕ
  len vs = length (to_list vs)

  edit_entry : Fields N → Text → StateEdit N → Result EditError (Value N)
  edit_entry fs key (set v) = ok (object (Map.insert key v fs))
  edit_entry fs key remove =
      if Map.contains_key key fs then ok (object (Map.remove key fs)) else err (no_such_key key)

  edit_index : Items N → ℕ → StateEdit N → Result EditError (Value N)
  edit_index vs i (set v) =
      if ltb i (len vs) then ok (array (set_item i v vs)) else err (index_out_of_range i)
  edit_index vs i remove = do vs' ← ok_or (remove_item i vs) (index_out_of_range i); ok (array vs')

  -- The `match` behind the loop: the container is at hand.
  edit_last : Value N → Text → StateEdit N → Result EditError (Value N)
  unfolding edit_entry edit_index
  edit_last (object fs) key edit = edit_entry fs key edit
  edit_last (array vs) key edit = do
    i ← ok_or (parse_usize key) (bad_array_index key)
    edit_index vs i edit
  edit_last _ key edit = err not_a_container

  -- The loop that descends is the recursion; a write through `&mut` rebuilds the containers above.
  unfoldable pub edit_at_path : Value N → List Text → StateEdit N → Result EditError (Value N)
  unfolding edit_last
  edit_at_path root [] (set v) = ok v
  edit_at_path root [] remove = err cannot_remove_root
  edit_at_path root (key ∷ []) edit = edit_last root key edit
  edit_at_path (object fs) (seg ∷ next ∷ path) edit = do
    child ← ok_or (Map.get seg fs) (no_such_path seg)
    child' ← edit_at_path child (next ∷ path) edit
    ok (object (Map.set seg child' fs))
  edit_at_path (array vs) (seg ∷ next ∷ path) edit = do
    i ← ok_or (parse_usize seg) (bad_array_index seg)
    child ← ok_or (get_item i vs) (index_out_of_range i)
    child' ← edit_at_path child (next ∷ path) edit
    ok (array (set_item i child' vs))
  edit_at_path _ (seg ∷ next ∷ path) edit = err (cannot_descend seg)
