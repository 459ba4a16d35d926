-- ===== src/Driver/Query/Builder.antt =====
-- The calls of `RoomQueryBuilder` of crates/colyseus/src/driver.rs, each a step on the query it holds.
use colyseus_rs.Base.{ℕ, Bool, true, false, some, Text, [], ◌∷◌, ◌++◌}
use colyseus_rs.Json.{Value}
use colyseus_rs.Driver.{ascending, descending, Condition, condition_eq, RoomQuery}

module _ {N : Type 0} where
  abbrev pub name : Text → RoomQuery N → RoomQuery N
  name n q = record q { name = some n }

  abbrev pub filter : Text → Value N → RoomQuery N → RoomQuery N
  filter field value q = record q {
    conditions = q.conditions ++ ((field, condition_eq value) ∷ []);
  }

  abbrev pub condition : Text → Condition N → RoomQuery N → RoomQuery N
  condition field c q = record q { conditions = q.conditions ++ ((field, c) ∷ []) }

  abbrev pub sort : Text → Bool → RoomQuery N → RoomQuery N
  sort field true q = record q { sort = q.sort ++ ((field, descending) ∷ []) }
  sort field false q = record q { sort = q.sort ++ ((field, ascending) ∷ []) }

  abbrev pub limit : ℕ → RoomQuery N → RoomQuery N
  limit n q = record q { limit = some n }

  abbrev pub offset : ℕ → RoomQuery N → RoomQuery N
  offset n q = record q { offset = n }

  abbrev pub count_only : RoomQuery N → RoomQuery N
  count_only q = record q { count = true }
