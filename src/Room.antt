-- ===== src/Room.antt =====
-- The state of a room: crates/colyseus/src/room.rs, client.rs, protocol.rs (the frames) and snapshot.rs
-- (what a room saves of itself). The values shared behind an `Arc` are the cells of a store that is
-- indexed by connection id.
pub mod Handle
pub mod Context
pub mod Broadcast
pub mod Snapshot
pub mod Create
pub mod Actor
pub mod Capacity
use colyseus_rs.Base.{ℕ, Bool, true, false, Option, none, some, Text, List, []}
use colyseus_rs.Json.{Value, Fields, null}
use colyseus_rs.State.Slot.{StateSlot}
use colyseus_rs.Driver.{RoomListing}
use colyseus_rs.Driver.Store.{LocalDriver}

-- The two clocks that an event reads: `Instant` and the wall clock, in milliseconds.
pub record Clocks : Type 0 where
  pub instant : ℕ
  pub wallclock : ℕ

pub record ServerError : Type 0 where
  pub code : ℕ
  pub message : Text

pub data ClientState : Type 0 where
  joining joined reconnecting reconnected leaving closed : ClientState

pub data ℤ : Type 0 where
  pos negsuc : ℕ → ℤ

pub data MessageType : Type 0 where
  num : ℤ → MessageType
  str : Text → MessageType

-- The server frames of the protocol, before their encoding.
pub data Frame (N : Type 0) : Type 0 where
  join_room : Text → Text → Frame N
  error_frame : ℕ → Text → Frame N
  room_data : MessageType → Value N → Frame N
  room_state : Value N → Frame N
  room_state_patch : Value N → Frame N
  room_data_bytes : MessageType → List ℕ → Frame N
  ping : Frame N

pub data Outbound (N : Type 0) : Type 0 where
  bytes : Frame N → Outbound N
  close : ℕ → Text → Outbound N

pub data ClientMessage (N : Type 0) : Type 0 where
  leave_message ping_message : ClientMessage N
  data_message : MessageType → Value N → ClientMessage N
  data_bytes : MessageType → List ℕ → ClientMessage N

-- A handle: the fields of `ClientInner` that never change. The connection id is unique to a connection.
pub record Client : Type 0 where
  pub connection_id : Text
  pub session_id : Text

-- The fields of `ClientInner` that change, with what its transport was sent, the newest last.
pub record Cell (N : Type 0) : Type 0 where
  pub state : ClientState
  pub auth : Option (Value N)
  pub user_data : Option (Value N)
  pub reconnection_token : Text
  pub pending : List (Frame N)
  pub after_patch : Bool
  pub rate : ℕ × ℕ
  pub sent : List (Outbound N)

pub data AfterPatchTarget : Type 0 where
  to_client : Text → AfterPatchTarget
  to_all : Option Text → AfterPatchTarget

pub record AfterPatchItem (N : Type 0) : Type 0 where
  pub target : AfterPatchTarget
  pub frame : Frame N

pub record ReservedSeat (N : Type 0) : Type 0 where
  pub options : Value N
  pub auth : Option (Value N)
  pub consumed : Bool
  pub waiting_reconnection : Bool
  pub expires_at : ℕ

pub record ReconnectionEntry : Type 0 where
  pub session_id : Text
  pub client : Client
  pub expires_at : Option ℕ

-- A callback is named by a number, which the room's program interprets.
pub record TimerEntry : Type 0 where
  pub id : ℕ
  pub due : ℕ
  pub callback : ℕ

pub data MatchmakerEvent (N : Type 0) : Type 0 where
  room_created room_updated : RoomListing N → MatchmakerEvent N
  room_removed : Text → MatchmakerEvent N

pub record PersistenceConfig : Type 0 where
  pub auto_save_interval : ℕ
  pub save_on_dispose : Bool
  pub delete_on_dispose : Bool

pub record PersistedReconnection (N : Type 0) : Type 0 where
  pub session_id : Text
  pub token : Text
  pub expires_at_ms : Option ℕ
  pub auth : Option (Value N)
  pub user_data : Option (Value N)

pub record PersistedSeat (N : Type 0) : Type 0 where
  pub session_id : Text
  pub options : Value N
  pub auth : Option (Value N)
  pub expires_at_ms : ℕ

pub record RoomSnapshot (N : Type 0) : Type 0 where
  pub schema_version : ℕ
  pub room_id : Text
  pub room_name : Text
  pub process_id : Text
  pub created_at : ℕ
  pub saved_at : ℕ
  pub clock_elapsed_ms : ℕ
  pub options : Value N
  pub state : Value N
  pub internal : Value N
  pub metadata : Option (Value N)
  pub locked : Bool
  pub is_private : Bool
  pub max_clients : Option ℕ
  pub filter_extra : Fields N
  pub reconnections : List (PersistedReconnection N)
  pub seats : List (PersistedSeat N)

-- The calls of the background writer.
pub data WriterCall (N : Type 0) : Type 0 where
  save : Text → RoomSnapshot N → WriterCall N
  delete : Text → WriterCall N

pub record RoomContext (N S : Type 0) : Type 0 where
  pub room_id : Text
  pub room_name : Text
  pub process_id : Text
  pub created_at : ℕ
  pub clients : List Client
  pub cells : Text → Cell N
  pub state_slot : Option (StateSlot N S)
  pub internal : Option (Value N)
  pub clock_start : ℕ
  pub clock_elapsed : ℕ
  pub auto_dispose : Bool
  pub max_messages_per_second : Option ℕ
  pub seat_reservation_timeout : ℕ
  pub patch_rate : Option ℕ
  pub sim_interval : Option ℕ
  pub max_clients : Option ℕ
  pub locked : Bool
  pub is_private : Bool
  pub metadata : Option (Value N)
  pub reserved_seats : List (Text × ReservedSeat N)
  pub reconnections : List (Text × ReconnectionEntry)
  pub message_handlers : MessageType → List ℕ
  pub any_handlers : List ℕ
  pub bytes_handlers : MessageType → List ℕ
  pub view_filter : Option (S → Client → Cell N → Value N)
  pub view_snapshots : List (Text × Value N)
  pub after_patch : List (AfterPatchItem N)
  pub timers : List TimerEntry
  pub next_timer_id : ℕ
  pub driver : LocalDriver N
  pub lobby : List (MatchmakerEvent N)
  pub request_dispose : Option ℕ
  pub disposing : Bool
  pub had_clients : Bool
  pub filter_extra : Fields N
  pub schema_version : ℕ
  pub create_options : Value N
  pub persistence : Option PersistenceConfig
  pub writes : List (WriterCall N)
