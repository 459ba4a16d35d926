-- ===== src/Json/Map.antt =====
-- `serde_json::Map`, a `BTreeMap<String, Value>`: entries in increasing order of their keys.
pub mod Order
pub mod Laws
use colyseus_rs.Base.{
  Bool, true, false, Option, none, some, Text, ltb, nat_eqb, ◌==◌, text_eq, if◌then◌else◌, [], ◌∷◌,
  ◌≡◌,
}
use colyseus_rs.Json.{Value, Fields, done, field}

-- The lexicographic order of `Ord for str`.
unfoldable pub key_lt : Text → Text → Bool
key_lt [] [] = false
key_lt [] (b ∷ t) = true
key_lt (a ∷ s) [] = false
key_lt (a ∷ s) (b ∷ t) =
    let rest = key_lt s t in if ltb a b then true else if nat_eqb a b then rest else false

module _ {N : Type 0} where
  unfoldable pub get : Text → Fields N → Option (Value N)
  get k done = none
  get k (field j v fs) = if k == j then some v else get k fs

  unfoldable pub contains_key : Text → Fields N → Bool
  contains_key k done = false
  contains_key k (field j v fs) = if k == j then true else contains_key k fs

  unfoldable pub insert : Text → Value N → Fields N → Fields N
  insert k v done = field k v done
  insert k v (field j w fs) =
      let rest = insert k v fs in
      if k == j
      then field k v fs
      else if key_lt k j
      then field k v (field j w fs)
      else field j w rest

  unfoldable pub remove : Text → Fields N → Fields N
  remove k done = done
  remove k (field j w fs) = let rest = remove k fs in if k == j then fs else field j w rest

  -- A write through `get_mut`: nothing happens where the key is missing.
  unfoldable pub set : Text → Value N → Fields N → Fields N
  set k v done = done
  set k v (field j w fs) = let rest = set k v fs in if k == j then field j v fs else field j w rest

  -- The keys of the entries stand in strictly increasing order.
  abbrev pub Above : Text → Fields N → Type 0
  Above k done = Unit
  Above k (field j v fs) = (key_lt k j ≡ true) × Above k fs

  abbrev pub Sorted : Fields N → Type 0
  Sorted done = Unit
  Sorted (field k v fs) = Above k fs × Sorted fs
