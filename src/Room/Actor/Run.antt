-- ===== src/Room/Actor/Run.antt =====
-- The loop of a room: `run` and `handle_event` of crates/colyseus/src/actor.rs. One step is one branch of
-- the `select!`, then the two tests for disposal.
pub mod Capacity
use colyseus_rs.Base.{
  ℕ, ◌-◌, Bool, true, false, Option, none, some, Text, List, text, if◌then◌else◌, Eq, length, map,
}
use colyseus_rs.Base.Result.{Result, ok, err}
use colyseus_rs.Base.Maps.{lookup}
use colyseus_rs.Json.{Value}
use colyseus_rs.Driver.{Numbers}
use colyseus_rs.State.Edit.{StateEdit}
use colyseus_rs.State.Slot.{Serde, StateSlot, ApplyError, apply_edit, full}
use colyseus_rs.Room.{
  Clocks, Client, ClientState, RoomContext, ReconnectionEntry, ServerError, MessageType,
  ClientMessage,
}
use colyseus_rs.Room.Handle.{cell, leave, send}
use colyseus_rs.Room.Context.{get_client, lock, unlock}
use colyseus_rs.Room.Broadcast.{broadcast, broadcast_patch}
use colyseus_rs.Room.Actor.{AuthContext, RoomProgram, RoomActor, with_ctx, with_both}
use colyseus_rs.Room.Actor.Connect.{on_reserve_seat, on_connect}
use colyseus_rs.Room.Actor.Leave.{on_client_message, on_disconnected}
use colyseus_rs.Room.Actor.Deadlines.{
  handle_deadlines, should_auto_dispose, maybe_auto_save, dispose,
}

pub data RoomEvent (N : Type 0) : Type 0 where
  reserve_seat : Text → Value N → AuthContext → RoomEvent N
  check_reconnection : Text → RoomEvent N
  -- With the id that `generate_id` gives.
  connect : Client → Option Text → Text → RoomEvent N
  message : Client → ClientMessage N → RoomEvent N
  disconnected : Client → ℕ → RoomEvent N
  command : ℕ → RoomEvent N
  call_room_rpc : ℕ → RoomEvent N
  inspect : RoomEvent N
  kick : Text → RoomEvent N
  set_locked : Bool → RoomEvent N
  admin_message : Option Text → MessageType → Value N → RoomEvent N
  dispose_event : ℕ → RoomEvent N
  edit_state : List Text → StateEdit N → RoomEvent N
  shutdown : RoomEvent N

-- The intervals and the deadline, beside the mailbox.
pub data Wake (N : Type 0) : Type 0 where
  event : RoomEvent N → Wake N
  simulate : ℕ → Wake N
  patch : Wake N
  deadline : Wake N

pub record ClientInspection (N : Type 0) : Type 0 where
  pub session_id : Text
  pub state : ClientState
  pub auth : Option (Value N)
  pub user_data : Option (Value N)

pub record RoomInspection (N : Type 0) : Type 0 where
  pub room_id : Text
  pub state : Option (Value N)
  pub clients : List (ClientInspection N)
  pub reserved_seats : ℕ
  pub pending_reconnections : ℕ
  pub elapsed_millis : ℕ

pub data Response (N : Type 0) : Type 0 where
  silent : Response N
  answered : Result ServerError Unit → Response N
  found : Option Text → Response N
  called : Result ServerError (Value N) → Response N
  inspected : RoomInspection N → Response N
  edited : Option (Result ApplyError Unit) → Response N

pub data Flow : Type 0 where
  continue break : Flow

abbrev pub session_of : Option ReconnectionEntry → Option Text
session_of none = none
session_of (some e) = some e.session_id

module _ {N S : Type 0} where
  kick_client : Option Client → RoomContext N S → RoomContext N S
  kick_client none ctx = ctx
  kick_client (some c) ctx = leave (some 4000) (some (text "kicked by admin")) c ctx

  send_to : Option Client → MessageType → Value N → RoomContext N S → RoomContext N S
  send_to none t v ctx = ctx
  send_to (some c) t v ctx = send t v false c ctx

  admin_send : Option Text → MessageType → Value N → RoomContext N S → RoomContext N S
  unfolding send_to
  admin_send none t v ctx = broadcast t v none false ctx
  admin_send (some id) t v ctx = send_to (get_client ctx id) t v ctx

  edit_done :
      StateSlot N S
      → Result ApplyError S
      → RoomContext N S
      → RoomContext N S × Option (Result ApplyError Unit)
  edit_done slot (err e) ctx = (ctx, some (err e))
  edit_done slot (ok s) ctx =
      (record ctx { state_slot = some (record slot { typed = s }) }, some (ok tt))

  -- `none` answers that the room has no state.
  edit_slot :
      Serde N S
      → Option (StateSlot N S)
      → List Text
      → StateEdit N
      → RoomContext N S
      → RoomContext N S × Option (Result ApplyError Unit)
  unfolding edit_done
  edit_slot serde none path edit ctx = (ctx, none)
  edit_slot serde (some slot) path edit ctx =
      edit_done slot (apply_edit serde slot.typed path edit) ctx

  full_of : Serde N S → Option (StateSlot N S) → Option (Value N)
  full_of serde none = none
  full_of serde (some slot) = some (full serde slot)

module _ {R N S : Type 0} where
  inspect_room : Serde N S → ℕ → RoomActor R N S → RoomInspection N
  unfolding full_of
  inspect_room serde now a = record {
    room_id = a.ctx.room_id;
    state = full_of serde a.ctx.state_slot;
    clients =
        map
          (λ (c : Client). record {
            session_id = c.session_id;
            state = (cell a.ctx c).state;
            auth = (cell a.ctx c).auth;
            user_data = (cell a.ctx c).user_data;
          })
          a.ctx.clients;
    reserved_seats = length a.ctx.reserved_seats;
    pending_reconnections = length a.ctx.reconnections;
    elapsed_millis = now - a.created_at;
  }

module _ {R N S : Type 0} ⦃e : Eq N⦄ (num : Numbers N) (serde : Serde N S)
    (program : RoomProgram R N S) (now : Clocks) where
  abbrev answer : RoomActor R N S × Result ServerError Unit → (RoomActor R N S × Response N) × Flow
  answer (a, r) = ((a, answered r), continue)

  abbrev quiet : RoomActor R N S → (RoomActor R N S × Response N) × Flow
  quiet a = ((a, silent), continue)

  unfoldable pub handle_event :
      RoomActor R N S → RoomEvent N → (RoomActor R N S × Response N) × Flow
  unfolding kick_client admin_send edit_slot inspect_room
  handle_event a (reserve_seat id options auth) =
      answer (on_reserve_seat num program now.instant a id options auth)
  handle_event a (check_reconnection token) =
      ((a, found (session_of (lookup token a.ctx.reconnections))), continue)
  handle_event a (connect c token new_token) =
      answer (on_connect num serde program a c token new_token)
  handle_event a (message c msg) = quiet (on_client_message num program now.instant a c msg)
  handle_event a (disconnected c code) = quiet (on_disconnected num program now.instant a c code)
  handle_event a (command i) = quiet (with_both a (program.on_command i a.room a.ctx))
  handle_event a (call_room_rpc i) =
      let h = program.on_rpc i a.room a.ctx in ((with_both a h.0, called h.1), continue)
  handle_event a inspect = ((a, inspected (inspect_room serde now.instant a)), continue)
  handle_event a (kick id) = quiet (with_ctx a (kick_client (get_client a.ctx id) a.ctx))
  handle_event a (set_locked true) = quiet (with_ctx a (lock num a.ctx))
  handle_event a (set_locked false) = quiet (with_ctx a (unlock num a.ctx))
  handle_event a (admin_message id t v) = quiet (with_ctx a (admin_send id t v a.ctx))
  handle_event a (dispose_event code) = ((dispose num serde program now code a, silent), break)
  handle_event a (edit_state path edit) =
      let r = edit_slot serde a.ctx.state_slot path edit a.ctx in
      ((with_ctx a r.0, edited r.1), continue)
  handle_event a shutdown = ((dispose num serde program now 4001 a, silent), break)

  -- `Clock::tick`
  abbrev pub tick_clock : RoomActor R N S → RoomActor R N S
  tick_clock a = with_ctx a (record a.ctx { clock_elapsed = now.instant - a.ctx.clock_start })

  on_patch : RoomActor R N S → Option ℕ → RoomActor R N S
  on_patch a sim =
      let b : RoomActor R N S = elim sim [ none ↦ tick_clock a | some d ↦ a ] in
      let p = broadcast_patch serde b.ctx in
      let c = with_ctx b p.0 in if p.1 then maybe_auto_save serde now c else c

  -- The branch of the `select!`.
  unfoldable pub wake : RoomActor R N S → Wake N → (RoomActor R N S × Response N) × Flow
  unfolding on_patch
  wake a (event ev) = handle_event a ev
  wake a (simulate delta) =
      let b = tick_clock a in quiet (with_both b (program.on_tick b.room b.ctx delta))
  wake a patch = quiet (on_patch a a.ctx.sim_interval)
  wake a deadline = quiet (handle_deadlines num program now.instant a)

  abbrev requested : RoomActor R N S → Option ℕ → RoomActor R N S × Flow
  requested a (some code) = (
    dispose num serde program now code (with_ctx a (record a.ctx { request_dispose = none })),
    break,
  )
  requested a none =
      if should_auto_dispose now.instant a
      then (dispose num serde program now 4000 a, break)
      else (a, continue)

  abbrev finish : (RoomActor R N S × Response N) × Flow → RoomActor R N S × Flow
  finish (r, break) = (r.0, break)
  finish (r, continue) = requested r.0 r.0.ctx.request_dispose

  -- One turn of the loop.
  unfoldable pub turn : RoomActor R N S → Wake N → RoomActor R N S × Flow
  turn a w = finish (wake a w)
