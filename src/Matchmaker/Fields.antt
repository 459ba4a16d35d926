-- ===== src/Matchmaker/Fields.antt =====
-- Which fields a request may filter and sort on: `allowed_field`, `check_fields`, `parse_match_filter` and
-- `query_rooms` of crates/colyseus/src/matchmaker.rs.
use colyseus_rs.Base.{
  ◌&&◌, ◌||◌, not, Bool, true, false, Option, none, some, Text, List, [], ◌∷◌, text, ◌==◌, text_eq,
  if◌then◌else◌, any, map, Eq, is_prefix,
}
use colyseus_rs.Base.Result.{Result, ok, err, ◌>>=◌}
use colyseus_rs.Base.Maps.{lookup}
use colyseus_rs.Json.{Value}
use colyseus_rs.Driver.{Numbers, Condition, RoomQuery, RoomQueryResult}
use colyseus_rs.Driver.Query.{QueryError, parse_filter}
use colyseus_rs.Driver.Store
use colyseus_rs.Matchmaker.{RegisteredHandler, MatchMaker}

-- `ServerError` with what its message says, in place of the message.
pub data FieldError : Type 0 where
  no_handler : Text → FieldError
  bad_filter : QueryError → FieldError
  unknown_filter_field unknown_sort_field : Text → FieldError

abbrev pub core_filter_fields : List Text
core_filter_fields =
    text "name"
    ∷ text "clients"
    ∷ text "maxClients"
    ∷ text "locked"
    ∷ text "private"
    ∷ text "createdAt"
    ∷ text "processId"
    ∷ []

unfoldable pub is_core_field : Text → Bool
is_core_field f = any (λ c. c == f) core_filter_fields || is_prefix (text "metadata.") f

-- The test where the query names no room type.
unfoldable pub allowed_anywhere : Text → Bool
allowed_anywhere f = not (f == text "roomId") && is_core_field f

module _ {N : Type 0} where
  filters_by : Option (RegisteredHandler N) → Text → Bool
  filters_by none f = false
  filters_by (some h) f = any (λ g. g == f) h.filter_by

  unfoldable pub allowed_field : MatchMaker N → Text → Text → Bool
  unfolding filters_by
  allowed_field mm room_name f =
      if f == text "roomId"
      then false
      else (if is_core_field f then true else filters_by (lookup room_name mm.handlers) f)

-- `check_fields` over any test of a field.
unfoldable pub check_fields :
    (Text → Bool) → (Text → FieldError) → List Text → Result FieldError Unit
check_fields test unknown [] = ok tt
check_fields test unknown (f ∷ fs) =
    let rest = check_fields test unknown fs in if test f then rest else err (unknown f)

filter_error : {A : Type 0} → Result QueryError A → Result FieldError A
filter_error (ok a) = ok a
filter_error (err e) = err (bad_filter e)

abbrev pub names_of : {A : Type 0} → List (Text × A) → List Text
names_of = map (λ c. c.0)

module _ {N : Type 0} where
  unfoldable pub handler : MatchMaker N → Text → Result FieldError (RegisteredHandler N)
  handler mm name = elim (lookup name mm.handlers) [ none ↦ err (no_handler name) | some h ↦ ok h ]

  unfoldable pub parse_match_filter :
      MatchMaker N → Text → Value N → Result FieldError (List (Text × Condition N))
  unfolding filter_error
  parse_match_filter mm room_name filter = do
    h ← handler mm room_name
    conditions ← filter_error (parse_filter filter)
    u ← check_fields (allowed_field mm room_name) unknown_filter_field (names_of conditions)
    ok conditions

  abbrev pub named : Option Text → RoomQuery N → RoomQuery N
  named none q = q
  named (some name) q = record q { name = some name }

  abbrev pub field_test : MatchMaker N → Option Text → Text → Bool
  field_test mm none = allowed_anywhere
  field_test mm (some name) = allowed_field mm name

  unfoldable pub query_rooms :
      ⦃e : Eq N⦄
      → Numbers N
      → MatchMaker N
      → Option Text
      → RoomQuery N
      → Result FieldError (RoomQueryResult N)
  query_rooms num mm room_name query =
      let q = named room_name query in
      do
        u ← check_fields (field_test mm q.name) unknown_filter_field (names_of q.conditions)
        v ← check_fields (field_test mm q.name) unknown_sort_field (names_of q.sort)
        ok (Store.query_rooms num mm.driver q)
