-- ===== src/Room/Capacity/Careful.antt =====
-- What the capacity invariant asks of a room's own code.
use colyseus_rs.Base.{ℕ, Bool, true, false, Option, List, ◌≡◌, if◌then◌else◌}
use colyseus_rs.Json.{Value}
use colyseus_rs.Room.{Client, RoomContext, MessageType}
use colyseus_rs.Room.Actor.{RoomProgram, RoomActor, AuthContext}
use colyseus_rs.Room.Capacity.{Fits, roster}

-- What a room's own code has to keep: `on_auth` leaves the clients, the seats and the limit alone, and
-- every other handler keeps the room within its limit.
pub record IsCareful {R N S : Type 0} (program : RoomProgram R N S) : Type 0 where
  pub auth_keeps :
      (r : R) (ctx : RoomContext N S) (v : Value N) (a : AuthContext)
      → roster (program.on_auth r ctx v a).0.1 ≡ roster ctx
  pub join_keeps :
      (r : R) (ctx : RoomContext N S) (c : Client) (v : Value N) (a : Option (Value N))
      → Fits (roster ctx)
      → Fits (roster (program.on_join r ctx c v a).0.1)
  pub drop_keeps :
      (r : R) (ctx : RoomContext N S) (c : Client) (code : ℕ)
      → Fits (roster ctx)
      → Fits (roster (program.on_drop r ctx c code).1)
  pub reconnect_keeps :
      (r : R) (ctx : RoomContext N S) (c : Client)
      → Fits (roster ctx)
      → Fits (roster (program.on_reconnect r ctx c).1)
  pub leave_keeps :
      (r : R) (ctx : RoomContext N S) (c : Client) (code : ℕ)
      → Fits (roster ctx)
      → Fits (roster (program.on_leave r ctx c code).1)
  pub dispose_keeps :
      (r : R) (ctx : RoomContext N S)
      → Fits (roster ctx)
      → Fits (roster (program.on_dispose r ctx).1)
  pub message_keeps :
      (i : ℕ) (r : R) (ctx : RoomContext N S) (c : Client) (v : Value N)
      → Fits (roster ctx)
      → Fits (roster (program.on_message i r ctx c v).0.1)
  pub any_message_keeps :
      (i : ℕ) (r : R) (ctx : RoomContext N S) (c : Client) (t : MessageType) (v : Value N)
      → Fits (roster ctx)
      → Fits (roster (program.on_any_message i r ctx c t v).1)
  pub message_bytes_keeps :
      (i : ℕ) (r : R) (ctx : RoomContext N S) (c : Client) (bs : List ℕ)
      → Fits (roster ctx)
      → Fits (roster (program.on_message_bytes i r ctx c bs).0.1)
  pub timer_keeps :
      (i : ℕ) (r : R) (ctx : RoomContext N S)
      → Fits (roster ctx)
      → Fits (roster (program.on_timer i r ctx).1)
  pub tick_keeps :
      (r : R) (ctx : RoomContext N S) (delta : ℕ)
      → Fits (roster ctx)
      → Fits (roster (program.on_tick r ctx delta).1)
  pub command_keeps :
      (i : ℕ) (r : R) (ctx : RoomContext N S)
      → Fits (roster ctx)
      → Fits (roster (program.on_command i r ctx).1)
  pub rpc_keeps :
      (i : ℕ) (r : R) (ctx : RoomContext N S)
      → Fits (roster ctx)
      → Fits (roster (program.on_rpc i r ctx).0.1)

module _ {R N S : Type 0} where
  -- A branch of two actors that fit.
  pub branch-Fits :
      (b : Bool) (x y : RoomActor R N S)
      → Fits (roster x.ctx)
      → Fits (roster y.ctx)
      → Fits (roster (if b then x else y).ctx)
  branch-Fits true x y f g = f
  branch-Fits false x y f g = g
