-- ===== src/Driver/Query.antt =====
-- Conditions of a query in text and in JSON: `parse_value`, `parse_condition` and `parse_filter` of
-- crates/colyseus/src/driver.rs.
pub mod Operators
pub mod Params
pub mod Builder
use colyseus_rs.Base.{
  ℕ, Bool, true, false, not, Option, none, some, Text, List, [], ◌∷◌, ◌++◌, text, ◌==◌, text_eq,
  if◌then◌else◌, map, nat_eqb,
}
use colyseus_rs.Base.Result.{Result, ok, err, ◌>>=◌}
use colyseus_rs.Json.{
  Value, null, bool, number, string, array, object, Fields, done, field, to_list,
}
use colyseus_rs.Driver.{
  Numbers, Op, eq, ne, gt, gte, lt, lte, in_list, exists, not_exists, Condition, condition_eq,
}
use colyseus_rs.Driver.Compare.{split}

pub data QueryError : Type 0 where
  invalid_filter_field invalid_exists_value empty_operator_object in_expects_array
        exists_expects_boolean unknown_operator invalid_sort_key invalid_limit invalid_offset
        invalid_count :
      Text → QueryError
  filter_not_object empty_filter_field : QueryError

-- `str::rsplit_once`: around the last `c`.
unfoldable pub rsplit_once : ℕ → Text → Option (Text × Text)
rsplit_once c [] = none
rsplit_once c (x ∷ s) = elim (rsplit_once c s) [
  | some r ↦ some (x ∷ r.0, r.1)
  | none ↦ if nat_eqb x c then some ([], s) else none
]

-- `str::parse::<bool>`
unfoldable pub parse_bool : Text → Option Bool
parse_bool s =
    if s == text "true" then some true else (if s == text "false" then some false else none)

-- The names of the operators, in the code's order.
pub data Suffix : Type 0 where
  s_eq s_ne s_gt s_gte s_lt s_lte s_in s_exists s_not_exists : Suffix

unfoldable pub suffix_of : Text → Option Suffix
suffix_of s =
    if s == text "eq"
    then some s_eq
    else (if s == text "ne"
        then some s_ne
        else (if s == text "gt"
            then some s_gt
            else (if s == text "gte"
                then some s_gte
                else (if s == text "lt"
                    then some s_lt
                    else (if s == text "lte"
                        then some s_lte
                        else (if s == text "in"
                            then some s_in
                            else (if s == text "exists"
                                then some s_exists
                                else (if s == text "notExists"
                                    then some s_not_exists
                                    else none))))))))

abbrev pub is_empty_text : Text → Bool
is_empty_text [] = true
is_empty_text _ = false

-- The field and the operator of a key: a last part that is no operator belongs to the field.
unfoldable pub field_and_suffix : Text → Text × Option Suffix
field_and_suffix key = elim (rsplit_once b'.' key) [
  | none ↦ (key, none)
  | some r ↦ elim (suffix_of r.1) [ none ↦ (key, none) | some s ↦ (r.0, some s) ]
]

module _ {N : Type 0} where
  abbrev pub condition : Op N → Option (Value N) → Condition N
  condition o v = record { op = o; value = v }

  -- `if expect { Op::Exists } else { Op::NotExists }`
  abbrev pub existence : Bool → Condition N
  existence true = condition exists none
  existence false = condition not_exists none

  exists_value : Text → Option Bool → Result QueryError (Condition N)
  exists_value raw none = err (invalid_exists_value raw)
  exists_value raw (some expect) = ok (existence expect)

module _ {N : Type 0} (num : Numbers N) where
  word_value : Text → Value N
  word_value raw =
      if raw == text "true"
      then bool true
      else (if raw == text "false"
          then bool false
          else (if raw == text "null" then null else string raw))

  float_value : Text → Option (Option N) → Value N
  unfolding word_value
  float_value raw none = word_value raw
  float_value raw (some none) = null
  float_value raw (some (some x)) = number x

  unfoldable pub parse_value : Text → Value N
  unfolding float_value
  parse_value raw = elim (num.parse_i64 raw) [
    | some n ↦ number n
    | none ↦ float_value raw (num.parse_f64 raw)
  ]

  unfoldable pub suffix_condition : Option Suffix → Text → Result QueryError (Condition N)
  unfolding exists_value
  suffix_condition none raw = ok (condition eq (some (parse_value raw)))
  suffix_condition (some s_eq) raw = ok (condition eq (some (parse_value raw)))
  suffix_condition (some s_ne) raw = ok (condition ne (some (parse_value raw)))
  suffix_condition (some s_gt) raw = ok (condition gt (some (parse_value raw)))
  suffix_condition (some s_gte) raw = ok (condition gte (some (parse_value raw)))
  suffix_condition (some s_lt) raw = ok (condition lt (some (parse_value raw)))
  suffix_condition (some s_lte) raw = ok (condition lte (some (parse_value raw)))
  suffix_condition (some s_in) raw =
      ok (condition (in_list (map parse_value (split b',' raw))) none)
  suffix_condition (some s_exists) raw = exists_value raw (parse_bool raw)
  suffix_condition (some s_not_exists) raw = exists_value raw (parse_bool raw)

  unfoldable pub parse_condition : Text → Text → Result QueryError (Text × Condition N)
  parse_condition key raw =
      let fs = field_and_suffix key in
      if is_empty_text fs.0
      then err (invalid_filter_field key)
      else (do c ← suffix_condition fs.1 raw; ok (fs.0, c))

module _ {N : Type 0} where
  in_value : Text → Value N → Result QueryError (Condition N)
  in_value name (array vs) = ok (condition (in_list (to_list vs)) none)
  in_value name _ = err (in_expects_array name)

  exists_json : Text → Bool → Value N → Result QueryError (Condition N)
  exists_json name flip (bool expect) = ok (existence (if flip then not expect else expect))
  exists_json name flip _ = err (exists_expects_boolean name)

  unfoldable pub operator_condition :
      Text → Text → Value N → Option Suffix → Result QueryError (Condition N)
  unfolding in_value exists_json
  operator_condition name op v none = err (unknown_operator op)
  operator_condition name op v (some s_eq) = ok (condition eq (some v))
  operator_condition name op v (some s_ne) = ok (condition ne (some v))
  operator_condition name op v (some s_gt) = ok (condition gt (some v))
  operator_condition name op v (some s_gte) = ok (condition gte (some v))
  operator_condition name op v (some s_lt) = ok (condition lt (some v))
  operator_condition name op v (some s_lte) = ok (condition lte (some v))
  operator_condition name op v (some s_in) = in_value name v
  operator_condition name op v (some s_exists) = exists_json name false v
  operator_condition name op v (some s_not_exists) = exists_json name true v

  unfoldable pub operator_conditions :
      Text → Fields N → Result QueryError (List (Text × Condition N))
  operator_conditions name done = ok []
  operator_conditions name (field op v ops) = do
    c ← operator_condition name op v (suffix_of op)
    cs ← operator_conditions name ops
    ok ((name, c) ∷ cs)

  unfoldable pub field_conditions : Text → Value N → Result QueryError (List (Text × Condition N))
  field_conditions name (object done) = err (empty_operator_object name)
  field_conditions name (object (field op v ops)) = operator_conditions name (field op v ops)
  field_conditions name v = ok ((name, condition_eq v) ∷ [])

  filter_conditions : Fields N → Result QueryError (List (Text × Condition N))
  filter_conditions done = ok []
  filter_conditions (field name raw fs) =
      let rest = filter_conditions fs in
      if is_empty_text name
      then err empty_filter_field
      else (do cs ← field_conditions name raw; more ← rest; ok (cs ++ more))

  unfoldable pub parse_filter : Value N → Result QueryError (List (Text × Condition N))
  unfolding filter_conditions
  parse_filter (object fs) = filter_conditions fs
  parse_filter _ = err filter_not_object
