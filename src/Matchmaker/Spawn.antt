-- ===== src/Matchmaker/Spawn.antt =====
-- The start of a room: `spawn_room` and `spawn_restored_room` of crates/colyseus/src/actor.rs up to the
-- start of the actor. The listing that they return is `build_listing` of the context.
use colyseus_rs.Base.{ℕ, Text, ◌++◌, text, if◌then◌else◌, ltb}
use colyseus_rs.Base.Decimal.{to_string}
use colyseus_rs.Json.{Value}
use colyseus_rs.Room.{RoomContext, RoomSnapshot, ServerError}
use colyseus_rs.Room.Snapshot.{apply_snapshot}
use colyseus_rs.Matchmaker.Environment.{Environment, Task, pure, fail, ◌>>=◌}

abbrev pub newer_snapshot : ℕ → ℕ → ServerError
newer_snapshot found current = record {
  code = 526;
  message =
      text "snapshot schema version "
      ++ to_string found
      ++ text " is newer than room version "
      ++ to_string current;
}

module _ {E N S : Type 0} (env : Environment E N S) (room_name : Text) where
  unfoldable pub spawn_room : RoomContext N S → Value N → Task E N (RoomContext N S)
  spawn_room ctx options = do
    made ← env.on_create room_name (record ctx { create_options = options }) options
    pure (record made { schema_version = env.schema_version room_name })

  -- An older snapshot is migrated, a newer one refused.
  unfoldable pub migrated : RoomSnapshot N → Task E N (RoomSnapshot N)
  migrated s =
      let current = env.schema_version room_name in
      if ltb s.schema_version current
      then (do
        t ← env.on_migrate room_name s.schema_version s
        pure (record t { schema_version = current }))
      else (if ltb current s.schema_version
          then fail (newer_snapshot s.schema_version current)
          else pure s)

  abbrev pub overlaid : RoomSnapshot N → RoomContext N S → Task E N (RoomContext N S)
  overlaid s ctx w =
      pure
        (record (apply_snapshot (env.clocks w) (env.tokens w) s ctx) {
          schema_version = env.schema_version room_name;
        })
        w

  unfoldable pub spawn_restored_room : RoomContext N S → RoomSnapshot N → Task E N (RoomContext N S)
  spawn_restored_room ctx s = do
    made ← env.on_create room_name ctx s.options
    t ← migrated s
    restored ← env.on_restore room_name made t
    overlaid t restored
