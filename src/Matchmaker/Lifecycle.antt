-- ===== src/Matchmaker/Lifecycle.antt =====
-- `create_room`, `query`, `restore_room`, `restore_all` and `shutdown` of
-- crates/colyseus/src/matchmaker.rs.
use colyseus_rs.Base.{
  ℕ, true, Option, none, some, Text, List, [], ◌∷◌, ◌++◌, text, if◌then◌else◌, map, Eq,
}
use colyseus_rs.Base.Result.{Result, ok, err}
use colyseus_rs.Base.Maps.{lookup, put, is_some}
use colyseus_rs.Json.{Value, string}
use colyseus_rs.Driver.{Numbers, RoomListing}
use colyseus_rs.Driver.Store
use colyseus_rs.Room.{RoomSnapshot, ServerError}
use colyseus_rs.Room.Context.{build_listing}
use colyseus_rs.Room.Create.{new_context}
use colyseus_rs.Room.Snapshot.Envelope.{Codec, decode_snapshot, message_of}
use colyseus_rs.Matchmaker.{RegisteredHandler, MatchMaker, CreateRoomOutcome}
use colyseus_rs.Matchmaker.Environment.{World, Environment, Task, pure, fail, ◌>>=◌, update}
use colyseus_rs.Matchmaker.Spawn.{spawn_restored_room}
use colyseus_rs.Matchmaker.Join.{room_not_found}
use colyseus_rs.Matchmaker.Rooms.{create_room_inner, handler_error, publish}

-- A `SnapshotStore`: what a configured store does.
pub record SnapshotStore (E N : Type 0) : Type 0 where
  pub load : Text → World E N → Option (List ℕ)
  pub list_room_ids : World E N → List Text
  pub delete : Text → World E N → World E N
  pub quarantine : Text → Text → World E N → World E N
  -- Blocks until the queued writes are done.
  pub flush : World E N → World E N

abbrev application_error : Text → ServerError
application_error message = record { code = 526; message = message }

abbrev pub no_store : ServerError
no_store = application_error (text "no snapshot store configured")

abbrev pub corrupt_snapshot : Text → Text → ServerError
corrupt_snapshot id reason =
    application_error (text "corrupt snapshot for " ++ id ++ text ": " ++ reason)

abbrev pub already_running : Text → ServerError
already_running id = application_error (text "room " ++ id ++ text " is already running")

module _ {E N S : Type 0} ⦃e : Eq N⦄ (num : Numbers N) (show_value : Value N → Text)
    (env : Environment E N S) where
  unfoldable pub create_room : Text → Value N → Task E N (CreateRoomOutcome N)
  create_room room_name options = create_room_inner num show_value env room_name options

module _ {N : Type 0} ⦃e : Eq N⦄ (num : Numbers N) where
  -- `conditions.insert("name", …)` where a name is given.
  unfoldable pub with_name : Option Text → List (Text × Value N) → List (Text × Value N)
  with_name none conditions = conditions
  with_name (some name) conditions = put (text "name") (string name) conditions

  unfoldable pub query : MatchMaker N → Option Text → List (Text × Value N) → List (RoomListing N)
  query mm room_name conditions = Store.query num mm.driver (with_name room_name conditions) none

module _ {E N S : Type 0} (num : Numbers N) (env : Environment E N S) (codec : Codec N) where
  -- `restore_room` once the snapshot is decoded and its handler known.
  restored :
      SnapshotStore E N
      → Text
      → RoomSnapshot N
      → RegisteredHandler N
      → Task E N (Option (RoomListing N))
  restored store id s h w =
      let ctx =
        new_context (env.clocks w) s.room_id s.room_name w.mm.process_id w.mm.driver s.filter_extra
          w.mm.persistence in
      if h.is_persistent
      then (do
        made ← spawn_restored_room env s.room_name ctx s
        u ← update (publish num (build_listing made))
        pure (some (build_listing made)))
          w
      else (ok none, store.delete id w)

  restorable : SnapshotStore E N → Text → RoomSnapshot N → Task E N (Option (RoomListing N))
  unfolding restored
  restorable store id s w =
      if is_some (lookup s.room_id w.mm.rooms)
      then fail (already_running s.room_id) w
      else (elim (lookup s.room_name w.mm.handlers) [
        | none ↦ fail (handler_error s.room_name) w
        | some h ↦ restored store id s h w
      ])

  unfoldable pub restore_room :
      Option (SnapshotStore E N) → Text → Task E N (Option (RoomListing N))
  unfolding restorable
  restore_room none id w = fail no_store w
  restore_room (some store) id w = elim (store.load id w) [
    | none ↦ fail (room_not_found id) w
    | some bytes ↦ elim (decode_snapshot codec bytes) [
      | err x ↦ (err (corrupt_snapshot id (message_of x)), store.quarantine id (message_of x) w)
      | ok s ↦ restorable store id s w
    ]
  ]

  abbrev pub kept_id : Text → Result ServerError (Option (RoomListing N)) → List Text
  kept_id id (ok (some l)) = id ∷ []
  kept_id id _ = []

  unfoldable pub restore_each : SnapshotStore E N → List Text → World E N → List Text × World E N
  restore_each store [] w = ([], w)
  restore_each store (id ∷ ids) w =
      let r = restore_room (some store) id w in
      let rest = restore_each store ids r.1 in (kept_id id r.0 ++ rest.0, rest.1)

  unfoldable pub restore_all : Option (SnapshotStore E N) → World E N → List Text × World E N
  restore_all none w = ([], w)
  restore_all (some store) w = restore_each store (store.list_room_ids w) w

module _ {E N S : Type 0} (num : Numbers N) (env : Environment E N S) where
  abbrev flush_with : Option (SnapshotStore E N) → World E N → World E N
  flush_with none w = w
  flush_with (some store) w = store.flush w

  abbrev cleared : World E N → World E N
  cleared w = record w { mm = record w.mm { driver = Store.clear num w.mm.driver } }

  unfoldable pub shutdown : Option (SnapshotStore E N) → World E N → World E N
  shutdown store w =
      if w.mm.shutting_down
      then w
      else flush_with store (
          cleared (
            env.shut_rooms (map (λ r. r.0) w.mm.rooms)
              (record w { mm = record w.mm { shutting_down = true } })))
