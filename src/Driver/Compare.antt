-- ===== src/Driver/Compare.antt =====
-- The matching helpers of crates/colyseus/src/driver.rs.
use Prim.Native.Nat.{Ordering}
use colyseus_rs.Base.{
  ℕ, Bool, true, false, not, Option, none, some, Text, List, [], ◌∷◌, ◌==◌, text_eq, if◌then◌else◌,
  any, Eq, nat_eqb, ◌>>=◌,
}
use colyseus_rs.Json.{Value, null, bool, number, string, object}
use colyseus_rs.Json.Equality.{json_eq}
use colyseus_rs.Json.Map.{get, key_lt}
use colyseus_rs.Driver.{
  Numbers, Direction, ascending, descending, SortOptions, Op, eq, ne, gt, gte, lt, lte, in_list,
  exists, not_exists, Condition,
}

-- `path.split(c)`: a text without `c` is one part.
unfoldable pub push_char : ℕ → List Text → List Text
push_char c [] = (c ∷ []) ∷ []
push_char c (s ∷ ss) = (c ∷ s) ∷ ss

unfoldable pub split : ℕ → Text → List Text
unfolding push_char
split sep [] = [] ∷ []
split sep (c ∷ s) = let rest = split sep s in if nat_eqb c sep then [] ∷ rest else push_char c rest

-- `Ord::cmp` of two texts, and of two Booleans.
abbrev pub text_cmp : Text → Text → Ordering
text_cmp a b = if key_lt a b then Ordering.lt else if a == b then Ordering.eq else Ordering.gt

abbrev pub bool_cmp : Bool → Bool → Ordering
bool_cmp false true = Ordering.lt
bool_cmp true false = Ordering.gt
bool_cmp _ _ = Ordering.eq

abbrev pub reverse_ordering : Ordering → Ordering
reverse_ordering Ordering.lt = Ordering.gt
reverse_ordering Ordering.eq = Ordering.eq
reverse_ordering Ordering.gt = Ordering.lt

abbrev pub is_greater : Ordering → Bool
is_greater Ordering.gt = true
is_greater _ = false

abbrev pub is_less : Ordering → Bool
is_less Ordering.lt = true
is_less _ = false

module _ {N : Type 0} where
  -- `Value::get` with a text: only an object has members.
  abbrev pub member : Text → Value N → Option (Value N)
  member k (object fs) = get k fs
  member k _ = none

  unfoldable pub resolve_parts : List Text → Value N → Option (Value N)
  resolve_parts [] v = some v
  resolve_parts (part ∷ parts) v = do child ← member part v; resolve_parts parts child

  unfoldable pub resolve_path : Value N → Text → Option (Value N)
  unfolding resolve_parts split
  resolve_path root path = resolve_parts (split b'.' path) root

module _ {N : Type 0} ⦃e : Eq N⦄ (num : Numbers N) where
  coerced_eq : Value N → Value N → Bool
  coerced_eq (number x) (number y) = num.same_f64 x y
  coerced_eq (string x) (number y) = x == num.show y
  coerced_eq (number x) (string y) = num.show x == y
  coerced_eq _ _ = false

  unfoldable pub value_eq : Value N → Value N → Bool
  unfolding coerced_eq
  value_eq a b = if a == b then true else coerced_eq a b

  -- The order of two finite floats; a `serde_json::Number` is finite.
  float_cmp : N → N → Ordering
  float_cmp x y =
      if num.less_f64 x y
      then Ordering.lt
      else if num.less_f64 y x
      then Ordering.gt
      else Ordering.eq

  unfoldable pub value_cmp : Value N → Value N → Option Ordering
  unfolding float_cmp
  value_cmp (number x) (number y) = some (float_cmp x y)
  value_cmp (string x) (string y) = some (text_cmp x y)
  value_cmp (bool x) (bool y) = some (bool_cmp x y)
  value_cmp _ _ = none

  -- `condition.value.as_ref().unwrap_or(&Value::Null)`
  abbrev pub expected : Option (Value N) → Value N
  expected none = null
  expected (some v) = v

  abbrev pub satisfies : Option (Value N) → (Value N → Bool) → Bool
  satisfies none test = false
  satisfies (some a) test = test a

  ordered : (Ordering → Bool) → Option Ordering → Bool
  ordered test none = false
  ordered test (some o) = test o

  -- The arm of the four order operators.
  compares : (Ordering → Bool) → Option (Value N) → Option (Value N) → Bool
  unfolding ordered
  compares test actual none = false
  compares test none (some v) = false
  compares test (some a) (some v) = ordered test (value_cmp a v)

  holds : Op N → Option (Value N) → Option (Value N) → Bool
  unfolding compares
  holds eq actual value = satisfies actual (λ a. value_eq a (expected value))
  holds ne actual value = not (satisfies actual (λ a. value_eq a (expected value)))
  holds gt actual value = compares is_greater actual value
  holds gte actual value = compares (λ o. not (is_less o)) actual value
  holds lt actual value = compares is_less actual value
  holds lte actual value = compares (λ o. not (is_greater o)) actual value
  holds (in_list values) actual value = satisfies actual (λ a. any (λ v. value_eq a v) values)
  holds exists actual value = satisfies actual (λ a. true)
  holds not_exists actual value = not (satisfies actual (λ a. true))

  unfoldable pub matches_condition : Option (Value N) → Condition N → Bool
  unfolding holds
  matches_condition actual condition = holds condition.op actual condition.value

  or_equal : Option Ordering → Ordering
  or_equal none = Ordering.eq
  or_equal (some o) = o

  directed : Direction → Ordering → Ordering
  directed ascending o = o
  directed descending o = reverse_ordering o

  -- `ord` where it decides, else the fields that follow.
  then_by : Ordering → Ordering → Ordering
  then_by Ordering.eq o = o
  then_by o _ = o

  -- The comparison of `sort_listings`.
  unfoldable pub listing_cmp : SortOptions → Value N → Value N → Ordering
  unfolding or_equal directed then_by
  listing_cmp [] fa fb = Ordering.eq
  listing_cmp ((path, dir) ∷ sort) fa fb =
      then_by
        (directed dir (
          or_equal (value_cmp (expected (resolve_path fa path)) (expected (resolve_path fb path)))))
        (listing_cmp sort fa fb)
