-- ===== src/State/Slot.antt =====
-- `ErasedState` and `StateSlot` of crates/colyseus/src/state.rs. The typed state is a parameter with the
-- two conversions of serde.
pub mod Laws
use colyseus_rs.Base.{Text, List, [], ◌∷◌, Option, none, some, if◌then◌else◌, Eq, ◌==◌}
use colyseus_rs.Base.Result.{Result, ok, err, ◌>>=◌}
use colyseus_rs.Json.{Value, array, from_list}
use colyseus_rs.Json.Equality.{json_eq}
use colyseus_rs.Diff.{diff}
use colyseus_rs.State.Edit.{StateEdit, EditError, edit_at_path}

-- serde's `Serialize` and `DeserializeOwned` of a state type `S`; serializing does not fail, as for
-- the derived implementations of structs with string keys.
pub record Serde (N S : Type 0) : Type 0 where
  pub to_value : S → Value N
  pub from_value : Value N → Option S

pub record StateSlot (N S : Type 0) : Type 0 where
  pub typed : S
  pub snapshot : Value N

pub data ApplyError : Type 0 where
  edit_error : EditError → ApplyError
  deserialize_error : ApplyError

module _ {N S : Type 0} (serde : Serde N S) where
  open serde use {to_value, from_value}

  -- `StateSlot::new`
  unfoldable pub new : S → StateSlot N S
  new state = record { typed = state; snapshot = to_value state }

  unfoldable pub full : StateSlot N S → Value N
  full slot = to_value slot.typed

  pub deserialized : Option S → Result ApplyError S
  deserialized none = err deserialize_error
  deserialized (some s) = ok s

  pub lifted : Result EditError (Value N) → Result ApplyError (Value N)
  lifted (ok v) = ok v
  lifted (err e) = err (edit_error e)

  -- The state is written back only where the edit and the conversion succeed.
  unfoldable pub apply_edit : S → List Text → StateEdit N → Result ApplyError S
  unfolding deserialized lifted
  apply_edit state path edit = do
    value ← lifted (edit_at_path (to_value state) path edit)
    deserialized (from_value value)

  unfoldable pub is_empty : List (Value N) → Option (Value N)
  is_empty [] = none
  is_empty (op ∷ ops) = some (array (from_list (op ∷ ops)))

  -- `StateSlot::diff`: the patch for the clients, and the slot with its new snapshot.
  unfoldable pub slot_diff : ⦃e : Eq N⦄ → StateSlot N S → StateSlot N S × Option (Value N)
  unfolding is_empty
  slot_diff slot =
      let current = to_value slot.typed in
      if current == slot.snapshot
      then (slot, none)
      else (record slot { snapshot = current }, is_empty (diff slot.snapshot current))
