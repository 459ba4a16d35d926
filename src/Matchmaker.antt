-- ===== src/Matchmaker.antt =====
-- crates/colyseus/src/matchmaker.rs: room types, the registry of rooms, and the state that the requests
-- share.
pub mod Handler
pub mod Idempotency
pub mod Stats
pub mod Fields
pub mod Environment
pub mod Spawn
pub mod Rooms
pub mod Join
pub mod Lifecycle
pub mod Matching
pub mod Caching
pub mod Counting
pub mod Locks
pub mod Allowed
pub mod Options
pub mod Living
pub mod Joining
use Prim.Native.Nat.{Ordering}
use colyseus_rs.Base.{ℕ, Bool, Option, Text, List}
use colyseus_rs.Json.{Value}
use colyseus_rs.Driver.{RoomListing, SortOptions}
use colyseus_rs.Driver.Store.{LocalDriver}
use colyseus_rs.Room.{MatchmakerEvent, PersistenceConfig}

-- The factory of a room type is not here: what a new room does is the environment's.
pub record RegisteredHandler (N : Type 0) : Type 0 where
  pub name : Text
  pub filter_by : List Text
  pub sort_by : SortOptions
  pub default_options : Option (Value N)
  pub is_internal : Bool
  pub is_persistent : Bool
  pub unique_by : List Text
  pub strict_filter : Bool
  pub match_filter_fn : Option (RoomListing N → Value N → Bool)
  pub match_sort_fn : Option (RoomListing N → RoomListing N → Ordering)

pub record RoomStats : Type 0 where
  pub total : ℕ
  pub open_rooms : ℕ
  pub waiting : ℕ
  pub full : ℕ
  pub locked : ℕ
  pub private : ℕ

pub record SeatReservation (N : Type 0) : Type 0 where
  pub room : RoomListing N
  pub session_id : Text
  pub reconnection_token : Option Text
  pub public_address : Option Text
  pub process_id : Text

pub record CreateRoomOutcome (N : Type 0) : Type 0 where
  pub listing : RoomListing N
  pub created : Bool

-- The actor behind a handle is the environment's.
pub record RoomHandle : Type 0 where
  pub room_id : Text

-- A lock of `create_locks` counts the tasks that hold a reference to it.
pub record MatchMaker (N : Type 0) : Type 0 where
  pub handlers : List (Text × RegisteredHandler N)
  pub rooms : List (Text × RoomHandle)
  pub driver : LocalDriver N
  pub process_id : Text
  pub public_address : Option Text
  pub shutting_down : Bool
  pub lobby : List (MatchmakerEvent N)
  pub create_locks : List (Text × ℕ)
  pub idempotency : List (Text × (ℕ × SeatReservation N))
  pub persistence : Option PersistenceConfig
