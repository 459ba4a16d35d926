-- ===== src/Json.antt =====
-- serde_json's `Value` (crates/colyseus/src/diff.rs and state.rs work on it) by its documented
-- constructors. A number is a parameter with its own equality. `Map` is a std `BTreeMap`: its
-- entries in strictly increasing order of the keys.
pub mod Equality
pub mod Map
pub mod Valid
pub mod Pointer
pub mod Patch
use colyseus_rs.Base.{Bool, List, [], ◌∷◌, Text}

mutual
  pub data Value (N : Type 0) : Type 0 where
    null : Value N
    bool : Bool → Value N
    number : N → Value N
    string : Text → Value N
    array : Items N → Value N
    object : Fields N → Value N

  -- The elements of an array.
  pub data Items (N : Type 0) : Type 0 where
    nil : Items N
    cons : Value N → Items N → Items N

  -- The entries of an object.
  pub data Fields (N : Type 0) : Type 0 where
    done : Fields N
    field : Text → Value N → Fields N → Fields N

module _ {N : Type 0} where
  abbrev pub to_list : Items N → List (Value N)
  to_list nil = []
  to_list (cons v vs) = v ∷ to_list vs

  abbrev pub from_list : List (Value N) → Items N
  from_list [] = nil
  from_list (v ∷ vs) = cons v (from_list vs)
