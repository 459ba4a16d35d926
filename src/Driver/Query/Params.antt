-- ===== src/Driver/Query/Params.antt =====
-- Queries from HTTP parameters: `from_params` and `parse_sort` of crates/colyseus/src/driver.rs.
use colyseus_rs.Base.{
  ℕ, Bool, false, ◌&&◌, ◌||◌, Option, none, some, Text, List, [], ◌∷◌, ◌++◌, text, ◌==◌, text_eq,
  if◌then◌else◌, nat_eqb, leb,
}
use colyseus_rs.Base.Decimal.{parse_usize}
use colyseus_rs.Base.Result.{Result, ok, err, ok_or, ◌>>=◌}
use colyseus_rs.Driver.{Numbers, Direction, ascending, descending, SortOptions, RoomQuery}
use colyseus_rs.Driver.Compare.{split}
use colyseus_rs.Driver.Query.{
  QueryError, invalid_sort_key, invalid_limit, invalid_offset, invalid_count, rsplit_once,
  parse_bool, is_empty_text, parse_condition,
}

-- `char::is_whitespace`: the code points of Unicode's White_Space.
abbrev is_whitespace : ℕ → Bool
is_whitespace c =
    (leb 9 c && leb c 13)
    || nat_eqb c 32
    || nat_eqb c 133
    || nat_eqb c 160
    || nat_eqb c 5760
    || (leb 8192 c && leb c 8202)
    || nat_eqb c 8232
    || nat_eqb c 8233
    || nat_eqb c 8239
    || nat_eqb c 8287
    || nat_eqb c 12288

trim_start : Text → Text
trim_start [] = []
trim_start (c ∷ s) = let rest = trim_start s in if is_whitespace c then rest else c ∷ s

cons_unless_blank : ℕ → Text → Text
cons_unless_blank c (x ∷ s) = c ∷ x ∷ s
cons_unless_blank c [] = if is_whitespace c then [] else c ∷ []

trim_end : Text → Text
unfolding cons_unless_blank
trim_end [] = []
trim_end (c ∷ s) = cons_unless_blank c (trim_end s)

-- `str::trim`
unfoldable pub trim : Text → Text
unfolding trim_start trim_end
trim s = trim_end (trim_start s)

abbrev direction_of : Text → Option Direction
direction_of d =
    if d == text "asc"
    then some ascending
    else (if d == text "desc"
        then some descending
        else (if d == text "1"
            then some ascending
            else (if d == text "-1" then some descending else none)))

-- A part without a direction that is known is a field as a whole.
unfoldable pub sort_key : Text → Text × Direction
sort_key part = elim (rsplit_once b':' part) [
  | none ↦ (part, ascending)
  | some r ↦ elim (direction_of r.1) [ none ↦ (part, ascending) | some d ↦ (r.0, d) ]
]

unfoldable pub sort_keys : List Text → Result QueryError SortOptions
unfolding sort_key
sort_keys [] = ok []
sort_keys (raw ∷ parts) =
    let rest = sort_keys parts in
    let part = trim raw in
    let key = sort_key part in
    if is_empty_text part
    then rest
    else (if is_empty_text key.0
        then err (invalid_sort_key part)
        else (do keys ← rest; ok (key ∷ keys)))

unfoldable pub parse_sort : Text → Result QueryError SortOptions
parse_sort raw = sort_keys (split b',' raw)

-- `RoomQuery::default()`
abbrev pub default_query : {N : Type 0} → RoomQuery N
default_query = record {
  name = none;
  conditions = [];
  sort = [];
  limit = none;
  offset = 0;
  count = false;
}

module _ {N : Type 0} (num : Numbers N) where
  -- One turn of the loop over the parameters.
  unfoldable pub add_param : RoomQuery N → Text → Text → Result QueryError (RoomQuery N)
  add_param q key raw =
      if key == text "name"
      then ok (record q { name = some raw })
      else (if key == text "sort"
          then (do sort ← parse_sort raw; ok (record q { sort = sort }))
          else (if key == text "limit"
              then (do
                n ← ok_or (parse_usize raw) (invalid_limit raw)
                ok (record q { limit = some n }))
              else (if key == text "offset"
                  then (do
                    n ← ok_or (parse_usize raw) (invalid_offset raw)
                    ok (record q { offset = n }))
                  else (if key == text "count"
                      then (do
                        b ← ok_or (parse_bool raw) (invalid_count raw)
                        ok (record q { count = b }))
                      else (do
                        c ← parse_condition num key raw
                        ok (record q { conditions = q.conditions ++ (c ∷ []) }))))))

  add_params : List (Text × Text) → RoomQuery N → Result QueryError (RoomQuery N)
  unfolding add_param
  add_params [] q = ok q
  add_params (p ∷ params) q = do r ← add_param q p.0 p.1; add_params params r

  -- The parameters stand in the order in which the code's map yields them.
  unfoldable pub from_params : List (Text × Text) → Result QueryError (RoomQuery N)
  unfolding add_params
  from_params params = add_params params default_query
