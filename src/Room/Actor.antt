-- ===== src/Room/Actor.antt =====
-- `RoomActor` of crates/colyseus/src/actor.rs: one event of a room at a time. The room's own handlers are
-- a parameter; the taps of the admin panel and the logs are left out.
pub mod Connect
pub mod Leave
pub mod Deadlines
pub mod Run
pub mod Laws
use colyseus_rs.Base.{
  ℕ, Bool, Option, none, some, Text, List, [], ◌∷◌, text, ◌&&◌, ◌||◌, if◌then◌else◌, ◌==◌, text_eq,
}
use colyseus_rs.Base.Result.{Result, ok, err}
use colyseus_rs.Json.{Value}
use colyseus_rs.Room.{RoomContext, Client, ServerError, MessageType}

-- `AuthContext` of matchmaker.rs.
pub record AuthContext : Type 0 where
  pub token : Option Text
  pub headers : List (Text × Text)
  pub ip : Option Text

-- A handler's result: the room and its context after it.
abbrev pub Handled : Type 0 → Type 0 → Type 0 → Type 0
Handled R N S = R × RoomContext N S

-- The trait `Room` with the callbacks that a room registers, each under a number.
pub record RoomProgram (R N S : Type 0) : Type 0 where
  pub on_auth :
      R
      → RoomContext N S
      → Value N
      → AuthContext
      → Handled R N S × Result ServerError (Option (Value N))
  pub on_join :
      R
      → RoomContext N S
      → Client
      → Value N
      → Option (Value N)
      → Handled R N S × Result ServerError Unit
  pub on_drop : R → RoomContext N S → Client → ℕ → Handled R N S
  pub on_reconnect : R → RoomContext N S → Client → Handled R N S
  pub on_leave : R → RoomContext N S → Client → ℕ → Handled R N S
  pub on_dispose : R → RoomContext N S → Handled R N S
  pub on_message :
      ℕ → R → RoomContext N S → Client → Value N → Handled R N S × Result ServerError Unit
  pub on_any_message : ℕ → R → RoomContext N S → Client → MessageType → Value N → Handled R N S
  pub on_message_bytes :
      ℕ → R → RoomContext N S → Client → List ℕ → Handled R N S × Result ServerError Unit
  pub on_timer : ℕ → R → RoomContext N S → Handled R N S
  pub on_tick : R → RoomContext N S → ℕ → Handled R N S
  pub on_command : ℕ → R → RoomContext N S → Handled R N S
  pub on_rpc : ℕ → R → RoomContext N S → Handled R N S × Result ServerError (Value N)

-- What the actor keeps besides its intervals.
pub record RoomActor (R N S : Type 0) : Type 0 where
  pub room : R
  pub ctx : RoomContext N S
  pub last_auto_save : Option ℕ
  pub created_at : ℕ

module _ {R N S : Type 0} where
  abbrev pub with_ctx : RoomActor R N S → RoomContext N S → RoomActor R N S
  with_ctx a ctx = record a { ctx = ctx }

  abbrev pub with_both : RoomActor R N S → Handled R N S → RoomActor R N S
  with_both a h = record a { room = h.0; ctx = h.1 }
