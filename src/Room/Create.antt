-- ===== src/Room/Create.antt =====
-- New rooms: `RoomContext::new` of crates/colyseus/src/room.rs.
use colyseus_rs.Base.{ℕ, true, false, Option, none, some, Text, [], ◌++◌, text}
use colyseus_rs.Base.Decimal.{to_string}
use colyseus_rs.Json.{null, Fields}
use colyseus_rs.Driver.Store.{LocalDriver}
use colyseus_rs.Room.{Clocks, RoomContext, PersistenceConfig, ServerError}
use colyseus_rs.Room.Handle.{new_cell}

abbrev pub newer_snapshot : ℕ → ℕ → ServerError
newer_snapshot found current = record {
  code = 526;
  message =
      text "snapshot schema version "
      ++ to_string found
      ++ text " is newer than room version "
      ++ to_string current;
}

module _ {N S : Type 0} where
  unfoldable pub new_context :
      Clocks
      → Text
      → Text
      → Text
      → LocalDriver N
      → Fields N
      → Option PersistenceConfig
      → RoomContext N S
  new_context now room_id room_name process_id driver filter_extra persistence = record {
    room_id = room_id;
    room_name = room_name;
    process_id = process_id;
    created_at = now.wallclock;
    clients = [];
    cells = λ i. new_cell now.instant;
    state_slot = none;
    internal = none;
    clock_start = now.instant;
    clock_elapsed = 0;
    auto_dispose = true;
    max_messages_per_second = none;
    seat_reservation_timeout = 15000;
    patch_rate = some 50;
    sim_interval = none;
    max_clients = none;
    locked = false;
    is_private = false;
    metadata = none;
    reserved_seats = [];
    reconnections = [];
    message_handlers = λ t. [];
    any_handlers = [];
    bytes_handlers = λ t. [];
    view_filter = none;
    view_snapshots = [];
    after_patch = [];
    timers = [];
    next_timer_id = 0;
    driver = driver;
    lobby = [];
    request_dispose = none;
    disposing = false;
    had_clients = false;
    filter_extra = filter_extra;
    schema_version = 1;
    create_options = null;
    persistence = persistence;
    writes = [];
  }
