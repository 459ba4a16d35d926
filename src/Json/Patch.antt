-- ===== src/Json/Patch.antt =====
-- The meaning of a JSON Patch document, after RFC 6902: an independent description of what the
-- receiver of the operations of crates/colyseus/src/diff.rs does with them.
pub mod Laws
use colyseus_rs.Base.{
  ℕ, zero, suc, Text, List, [], ◌∷◌, Option, none, some, ◌>>=◌, ◌==◌, text_eq, text, Bool, true,
  false, if◌then◌else◌, map,
}
use colyseus_rs.Base.Decimal.{parse_index}
use colyseus_rs.Json.{
  Value, null, bool, number, string, array, object, Items, nil, cons, Fields, done, field,
}
use colyseus_rs.Json.Map.{get, contains_key, insert, remove, set}
use colyseus_rs.Json.Pointer.{parse_pointer}

pub data Action (N : Type 0) : Type 0 where
  add : Value N → Action N
  delete : Action N
  replace : Value N → Action N

pub record Step (N : Type 0) : Type 0 where
  pub path : List Text
  pub action : Action N

module _ {N : Type 0} where
  unfoldable pub get_item : ℕ → Items N → Option (Value N)
  get_item i nil = none
  get_item zero (cons v vs) = some v
  get_item (suc i) (cons v vs) = get_item i vs

  unfoldable pub set_item : ℕ → Value N → Items N → Items N
  set_item i w nil = nil
  set_item zero w (cons v vs) = cons w vs
  set_item (suc i) w (cons v vs) = cons v (set_item i w vs)

  -- An index of an insertion is at most the length.
  unfoldable pub insert_item : ℕ → Value N → Items N → Option (Items N)
  insert_item zero w vs = some (cons w vs)
  insert_item (suc i) w nil = none
  insert_item (suc i) w (cons v vs) = do rest ← insert_item i w vs; some (cons v rest)

  unfoldable pub remove_item : ℕ → Items N → Option (Items N)
  remove_item i nil = none
  remove_item zero (cons v vs) = some vs
  remove_item (suc i) (cons v vs) = do rest ← remove_item i vs; some (cons v rest)

  unfoldable pub push_item : Value N → Items N → Items N
  push_item w nil = cons w nil
  push_item w (cons v vs) = cons v (push_item w vs)

  -- The whole document: it can be given anew, and not be removed.
  abbrev pub at_root : Action N → Option (Value N)
  at_root (add v) = some v
  at_root (replace v) = some v
  at_root delete = none

  abbrev pub at_key : Text → Action N → Fields N → Option (Fields N)
  at_key k (add v) fs = some (insert k v fs)
  at_key k (replace v) fs = if contains_key k fs then some (set k v fs) else none
  at_key k delete fs = if contains_key k fs then some (remove k fs) else none

  abbrev pub at_index : ℕ → Action N → Items N → Option (Items N)
  at_index i (add v) vs = insert_item i v vs
  at_index i (replace v) vs = do _ ← get_item i vs; some (set_item i v vs)
  at_index i delete vs = remove_item i vs

  -- `-` names the place behind the last element.
  abbrev pub at_element : Text → Action N → Items N → Option (Items N)
  at_element k (add v) vs =
      if k == text "-" then some (push_item v vs) else (do i ← parse_index k; insert_item i v vs)
  at_element k (replace v) vs = do i ← parse_index k; at_index i (replace v) vs
  at_element k delete vs = do i ← parse_index k; remove_item i vs

  unfoldable pub apply_at : List Text → Action N → Value N → Option (Value N)
  apply_at [] act d = at_root act
  apply_at (k ∷ []) act (object fs) = do fs' ← at_key k act fs; some (object fs')
  apply_at (k ∷ []) act (array vs) = do vs' ← at_element k act vs; some (array vs')
  apply_at (k ∷ j ∷ ks) act (object fs) = do
    child ← get k fs
    child' ← apply_at (j ∷ ks) act child
    some (object (set k child' fs))
  apply_at (k ∷ j ∷ ks) act (array vs) = do
    i ← parse_index k
    child ← get_item i vs
    child' ← apply_at (j ∷ ks) act child
    some (array (set_item i child' vs))
  apply_at (k ∷ ks) act d = none

  unfoldable pub apply_steps : List (Step N) → Value N → Option (Value N)
  apply_steps [] d = some d
  apply_steps (s ∷ ss) d = do d' ← apply_at s.path s.action d; apply_steps ss d'

  as_string : Option (Value N) → Option Text
  as_string (some (string s)) = some s
  as_string _ = none

  decode_action : Text → Option (Value N) → Option (Action N)
  decode_action kind value =
      if kind == text "remove"
      then some delete
      else if kind == text "add"
      then (do v ← value; some (add v))
      else if kind == text "replace"
      then (do v ← value; some (replace v))
      else none

  -- An operation is an object with the members `op`, `path` and, but for `remove`, `value`.
  unfoldable pub decode : Value N → Option (Step N)
  unfolding as_string decode_action
  decode (object fs) = do
    kind ← as_string (get (text "op") fs)
    pointer ← as_string (get (text "path") fs)
    keys ← parse_pointer pointer
    act ← decode_action kind (get (text "value") fs)
    some (record { path = keys; action = act })
  decode _ = none

  unfoldable pub decode_all : List (Value N) → Option (List (Step N))
  decode_all [] = some []
  decode_all (v ∷ vs) = do s ← decode v; ss ← decode_all vs; some (s ∷ ss)

  -- What a receiver makes of its document by a patch, `none` where an operation fails.
  unfoldable pub apply_patch : List (Value N) → Value N → Option (Value N)
  apply_patch ops doc = do steps ← decode_all ops; apply_steps steps doc
