-- ===== src/Room/Snapshot.antt =====
-- Saving a room and restoring it: crates/colyseus/src/room.rs (`snapshot`, `apply_snapshot`) and the
-- clocks of utils.rs.
pub mod Deadlines
pub mod Envelope
pub mod Untouched
pub mod Files
use colyseus_rs.Base.{
  ℕ, ◌+◌, ◌-◌, ◌||◌, not, true, false, Option, none, some, Text, List, [], ◌∷◌, ◌++◌, ◌==◌, text_eq,
  if◌then◌else◌, leb,
}
use colyseus_rs.Base.Maps.{lookup, put, is_some}
use colyseus_rs.Json.{Value, null}
use colyseus_rs.State.Slot.{Serde, StateSlot, full}
use colyseus_rs.Room.{
  Clocks, Client, Cell, ReservedSeat, ReconnectionEntry, RoomContext, RoomSnapshot,
  PersistedReconnection, PersistedSeat, PersistenceConfig, save, delete, reconnecting,
}
use colyseus_rs.Room.Handle.{cell, is_joined, new_cell, modify}
use colyseus_rs.Room.Context.{is_pending, or_a_year}

unfoldable pub instant_to_wallclock_ms : Clocks → ℕ → ℕ
instant_to_wallclock_ms now t =
    if leb t now.instant then now.wallclock else now.wallclock + (t - now.instant)

unfoldable pub wallclock_ms_to_instant : Clocks → ℕ → ℕ
wallclock_ms_to_instant now ms = now.instant + (ms - now.wallclock)

abbrev pub map_option : (ℕ → ℕ) → Option ℕ → Option ℕ
map_option f none = none
map_option f (some n) = some (f n)

module _ {N : Type 0} where
  unfoldable pub persisted_seats : Clocks → List (Text × ReservedSeat N) → List (PersistedSeat N)
  persisted_seats now [] = []
  persisted_seats now ((id, s) ∷ m) =
      let rest = persisted_seats now m in
      if is_pending s
      then record {
        session_id = id;
        options = s.options;
        auth = s.auth;
        expires_at_ms = instant_to_wallclock_ms now s.expires_at;
      }
        ∷ rest
      else rest

  internal_or_null : Option (Value N) → Value N
  internal_or_null none = null
  internal_or_null (some v) = v

  -- The cell of `Client::orphan` as the restore fills it.
  orphan : Clocks → PersistedReconnection N → Cell N
  orphan now r = record (new_cell now.instant) {
    state = reconnecting;
    auth = r.auth;
    user_data = r.user_data;
    reconnection_token = r.token;
  }

  unfoldable pub restore_seats :
      Clocks → List (PersistedSeat N) → List (Text × ReservedSeat N) → List (Text × ReservedSeat N)
  restore_seats now [] m = m
  restore_seats now (s ∷ ss) m = restore_seats now ss (
      put s.session_id
        (record {
          options = s.options;
          auth = s.auth;
          consumed = false;
          waiting_reconnection = false;
          expires_at = wallclock_ms_to_instant now s.expires_at_ms;
        })
        m)

module _ {N S : Type 0} where
  held_reconnections :
      Clocks → RoomContext N S → List (Text × ReconnectionEntry) → List (PersistedReconnection N)
  held_reconnections now ctx [] = []
  held_reconnections now ctx ((token, e) ∷ m) =
      record {
        session_id = e.session_id;
        token = token;
        expires_at_ms = map_option (instant_to_wallclock_ms now) e.expires_at;
        auth = (cell ctx e.client).auth;
        user_data = (cell ctx e.client).user_data;
      }
      ∷ held_reconnections now ctx m

  -- A connected client comes back with its token, without a deadline.
  connected_reconnections : RoomContext N S → List Client → List (PersistedReconnection N)
  connected_reconnections ctx [] = []
  connected_reconnections ctx (c ∷ cs) =
      let x = cell ctx c in
      let token = x.reconnection_token in
      let rest = connected_reconnections ctx cs in
      if not (is_joined ctx c) || token == [] || is_some (lookup token ctx.reconnections)
      then rest
      else record {
        session_id = c.session_id;
        token = token;
        expires_at_ms = none;
        auth = x.auth;
        user_data = x.user_data;
      }
        ∷ rest

  unfoldable pub persisted_reconnections : Clocks → RoomContext N S → List (PersistedReconnection N)
  unfolding held_reconnections connected_reconnections
  persisted_reconnections now ctx =
      held_reconnections now ctx ctx.reconnections ++ connected_reconnections ctx ctx.clients

  state_or_null : Serde N S → Option (StateSlot N S) → Value N
  state_or_null serde none = null
  state_or_null serde (some slot) = full serde slot

  unfoldable pub snapshot : Serde N S → Clocks → RoomContext N S → RoomSnapshot N
  unfolding state_or_null internal_or_null
  snapshot serde now ctx = record {
    schema_version = ctx.schema_version;
    room_id = ctx.room_id;
    room_name = ctx.room_name;
    process_id = ctx.process_id;
    created_at = ctx.created_at;
    saved_at = now.wallclock;
    clock_elapsed_ms = ctx.clock_elapsed;
    options = ctx.create_options;
    state = state_or_null serde ctx.state_slot;
    internal = internal_or_null ctx.internal;
    metadata = ctx.metadata;
    locked = ctx.locked;
    is_private = ctx.is_private;
    max_clients = ctx.max_clients;
    filter_extra = ctx.filter_extra;
    reconnections = persisted_reconnections now ctx;
    seats = persisted_seats now ctx.reserved_seats;
  }

  save_with : Serde N S → Clocks → Option PersistenceConfig → RoomContext N S → RoomContext N S
  save_with serde now none ctx = ctx
  save_with serde now (some p) ctx = record ctx {
    writes = ctx.writes ++ (save ctx.room_id (snapshot serde now ctx) ∷ []);
  }

  unfoldable pub persist_now : Serde N S → Clocks → RoomContext N S → RoomContext N S
  unfolding save_with
  persist_now serde now ctx = save_with serde now ctx.persistence ctx

  delete_with : Option PersistenceConfig → RoomContext N S → RoomContext N S
  delete_with none ctx = ctx
  delete_with (some p) ctx = record ctx { writes = ctx.writes ++ (delete ctx.room_id ∷ []) }

  unfoldable pub delete_snapshot : RoomContext N S → RoomContext N S
  unfolding delete_with
  delete_snapshot ctx = delete_with ctx.persistence ctx

  -- One restored reconnection, whose client has the connection id `id`.
  restore_reconnection : Clocks → Text → PersistedReconnection N → RoomContext N S → RoomContext N S
  unfolding orphan
  restore_reconnection now id r ctx =
      let c : Client = record { connection_id = id; session_id = r.session_id } in
      let expires_at = map_option (wallclock_ms_to_instant now) r.expires_at_ms in
      record (modify c (λ x. orphan now r) ctx) {
        reconnections =
            put r.token (record { session_id = r.session_id; client = c; expires_at = expires_at })
              ctx.reconnections;
        reserved_seats =
            put r.session_id
              (record {
                options = null;
                auth = r.auth;
                consumed = false;
                waiting_reconnection = true;
                expires_at = or_a_year expires_at now.instant;
              })
              ctx.reserved_seats;
        clients = ctx.clients ++ (c ∷ []);
      }

  -- The connection ids are those that the restored clients get.
  unfoldable pub restore_reconnections :
      Clocks → (ℕ → Text) → ℕ → List (PersistedReconnection N) → RoomContext N S → RoomContext N S
  unfolding restore_reconnection
  restore_reconnections now ids i [] ctx = ctx
  restore_reconnections now ids i (r ∷ rs) ctx =
      restore_reconnections now ids (i + 1) rs (restore_reconnection now (ids i) r ctx)

  unfoldable pub apply_snapshot :
      Clocks → (ℕ → Text) → RoomSnapshot N → RoomContext N S → RoomContext N S
  apply_snapshot now ids s ctx =
      let base = record ctx {
        created_at = s.created_at;
        clock_start = now.instant;
        clock_elapsed = s.clock_elapsed_ms;
        metadata = s.metadata;
        locked = s.locked;
        is_private = s.is_private;
        max_clients = s.max_clients;
        filter_extra = s.filter_extra;
        create_options = s.options;
        reconnections = [];
        reserved_seats = [];
        clients = [];
      } in
      let seated = restore_reconnections now ids 0 s.reconnections base in
      record seated { reserved_seats = restore_seats now s.seats seated.reserved_seats }
