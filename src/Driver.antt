-- ===== src/Driver.antt =====
-- crates/colyseus/src/driver.rs: room listings, queries over them, and the in-memory driver.
pub mod Compare
pub mod Store
pub mod Query
use colyseus_rs.Base.{ℕ, Bool, Option, none, some, Text, List, [], ◌∷◌, text}
use colyseus_rs.Json.{Value, bool, number, string, object, Fields, done, field}
use colyseus_rs.Json.Map.{insert}

-- What the driver uses of `serde_json::Number`, of `f64` and of number parsing.
pub record Numbers (N : Type 0) : Type 0 where
  pub of_nat : ℕ → N
  pub show : N → Text
  -- `x.as_f64() == y.as_f64()`
  pub same_f64 : N → N → Bool
  -- Whether `x.as_f64().partial_cmp(&y.as_f64())` is `Less`; the value of a `Number` is finite.
  pub less_f64 : N → N → Bool
  pub parse_i64 : Text → Option N
  -- `none` where the text is no float; the inner `none` where the float is not finite, which `json!`
  -- turns into `null`.
  pub parse_f64 : Text → Option (Option N)

pub record RoomListing (N : Type 0) : Type 0 where
  pub room_id : Text
  pub name : Text
  pub process_id : Text
  pub clients : ℕ
  pub max_clients : Option ℕ
  pub locked : Bool
  pub is_private : Bool
  pub metadata : Option (Value N)
  pub created_at : ℕ
  pub extra : Fields N

-- The sign of a sort direction: the code reads `dir < 0` only.
pub data Direction : Type 0 where
  ascending descending : Direction

abbrev pub SortOptions : Type 0
SortOptions = List (Text × Direction)

pub data Op (N : Type 0) : Type 0 where
  eq ne gt gte lt lte : Op N
  in_list : List (Value N) → Op N
  exists not_exists : Op N

pub record Condition (N : Type 0) : Type 0 where
  pub op : Op N
  pub value : Option (Value N)

abbrev pub condition_eq : {N : Type 0} → Value N → Condition N
condition_eq v = record { op = eq; value = some v }

pub record RoomQuery (N : Type 0) : Type 0 where
  pub name : Option Text
  pub conditions : List (Text × Condition N)
  pub sort : SortOptions
  pub limit : Option ℕ
  pub offset : ℕ
  pub count : Bool

pub record RoomQueryResult (N : Type 0) : Type 0 where
  pub items : List (RoomListing N)
  pub total : ℕ
  pub limit : Option ℕ
  pub offset : ℕ
  pub next_offset : Option ℕ

module _ {N : Type 0} (num : Numbers N) where
  insert_some : Text → Option (Value N) → Fields N → Fields N
  insert_some k none fs = fs
  insert_some k (some v) fs = insert k v fs

  number_of : Option ℕ → Option (Value N)
  number_of none = none
  number_of (some n) = some (number (num.of_nat n))

  insert_all : Fields N → Fields N → Fields N
  insert_all done fs = fs
  insert_all (field k v rest) fs = insert_all rest (insert k v fs)

  -- What the derived `Serialize` writes: the members in order, absent options skipped, and the extra
  -- fields last, which overwrite members of the same name.
  unfoldable pub to_flat_value : RoomListing N → Value N
  unfolding insert_some number_of insert_all
  to_flat_value l =
      let core = insert (text "private") (bool l.is_private) (
        insert (text "locked") (bool l.locked) (
          insert_some (text "maxClients") (number_of l.max_clients) (
            insert (text "clients") (number (num.of_nat l.clients)) (
              insert (text "processId") (string l.process_id) (
                insert (text "name") (string l.name)
                  (insert (text "roomId") (string l.room_id) done)))))) in
      object (
        insert_all l.extra (
          insert (text "createdAt") (number (num.of_nat l.created_at))
            (insert_some (text "metadata") l.metadata core)))
