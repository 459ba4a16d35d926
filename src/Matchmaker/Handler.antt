-- ===== src/Matchmaker/Handler.antt =====
-- `RegisteredHandler` of crates/colyseus/src/matchmaker.rs: what a room type asks of a room, and what its
-- rooms show of their options.
use colyseus_rs.Base.{
  Bool, true, false, Option, none, some, Text, List, [], ◌∷◌, ◌++◌, text, if◌then◌else◌, text_eq,
  all,
}
use colyseus_rs.Base.Maps.{is_some, put, erase}
use colyseus_rs.Json.{Value, null, bool, string, object, Fields, done, field}
use colyseus_rs.Json.Map
use colyseus_rs.Driver.{Condition, condition_eq, not_exists}
use colyseus_rs.Driver.Compare.{member}
use colyseus_rs.Matchmaker.{RegisteredHandler, MatchMaker}

module _ {N : Type 0} where
  -- `RegisteredHandler::new`
  unfoldable pub new : Text → RegisteredHandler N
  new name = record {
    name = name;
    filter_by = [];
    sort_by = [];
    default_options = none;
    is_internal = false;
    is_persistent = true;
    unique_by = [];
    strict_filter = false;
    match_filter_fn = none;
    match_sort_fn = none;
  }

  field_condition : Bool → Text → Option (Value N) → List (Text × Condition N)
  field_condition strict name (some v) = (name, condition_eq v) ∷ []
  field_condition true name none = (name, record { op = not_exists; value = none }) ∷ []
  field_condition false name none = []

  -- The loop of `match_conditions`.
  unfoldable pub filter_conditions : Bool → Value N → List Text → List (Text × Condition N)
  unfolding field_condition
  filter_conditions strict options [] = []
  filter_conditions strict options (f ∷ fs) =
      field_condition strict f (member f options) ++ filter_conditions strict options fs

  unfoldable pub match_conditions : RegisteredHandler N → Value N → List (Text × Condition N)
  match_conditions h options =
      (text "name", condition_eq (string h.name))
      ∷ (text "locked", condition_eq (bool false))
      ∷ (text "private", condition_eq (bool false))
      ∷ filter_conditions h.strict_filter options h.filter_by

  unfoldable pub unique_conditions : RegisteredHandler N → Value N → List (Text × Condition N)
  unique_conditions h options =
      (text "name", condition_eq (string h.name)) ∷ filter_conditions false options h.unique_by

  -- Whether the options have every field of the key.
  unfoldable pub has_unique_key : RegisteredHandler N → Value N → Bool
  has_unique_key h options = elim h.unique_by [
    | [] ↦ false
    | _ ↦ all (λ f. is_some (member f options)) h.unique_by
  ]

  insert_member : Text → Option (Value N) → Fields N → Fields N
  insert_member name none fs = fs
  insert_member name (some v) fs = Map.insert name v fs

  extra_fields : Value N → List Text → Fields N → Fields N
  unfolding insert_member
  extra_fields options [] fs = fs
  extra_fields options (f ∷ names) fs =
      extra_fields options names (insert_member f (member f options) fs)

  unfoldable pub filter_extra : RegisteredHandler N → Value N → Fields N
  unfolding extra_fields
  filter_extra h options = extra_fields options (h.filter_by ++ h.unique_by) done

  -- `opts.entry(k).or_insert(v)` for each default.
  unfoldable pub add_defaults : Fields N → Fields N → Fields N
  add_defaults done fs = fs
  add_defaults (field k v defaults) fs =
      add_defaults defaults (if Map.contains_key k fs then fs else Map.insert k v fs)

  abbrev pub as_object : Value N → Fields N
  as_object (object fs) = fs
  as_object _ = done

  merge_with : Option (Value N) → Value N → Value N
  merge_with (some defaults) (object fs) = object (add_defaults (as_object defaults) fs)
  merge_with (some defaults) null = defaults
  merge_with _ options = options

  unfoldable pub merged_options : RegisteredHandler N → Value N → Value N
  unfolding merge_with
  merged_options h options = merge_with h.default_options options

  unfoldable pub register : MatchMaker N → RegisteredHandler N → MatchMaker N
  register mm h = record mm { handlers = put h.name h mm.handlers }

  unfoldable pub remove_room_type : MatchMaker N → Text → MatchMaker N
  remove_room_type mm name = record mm { handlers = erase name mm.handlers }
