-- ===== src/Room/Actor/Leave.antt =====
-- Messages, drops and leaves: `on_client_message`, `on_disconnected` and `leave_client` of
-- crates/colyseus/src/actor.rs.
pub mod Capacity
use colyseus_rs.Base.{
  ℕ, ◌&&◌, not, Bool, true, false, Option, none, some, List, [], ◌∷◌, ◌==◌, text_eq, text,
  if◌then◌else◌,
}
use colyseus_rs.Base.Result.{Result, ok, err}
use colyseus_rs.Base.Maps.{lookup, is_some}
use colyseus_rs.Json.{Value}
use colyseus_rs.Driver.{Numbers}
use colyseus_rs.Room.{
  Client, ClientState, leaving, closed, ServerError, MessageType, ClientMessage, leave_message,
  ping_message, data_message, data_bytes, ping,
}
use colyseus_rs.Room.Handle.{
  cell, is_joined, set_state, raw_now, leave, close_transport, check_rate, error,
}
use colyseus_rs.Room.Context.{get_client, sync_listing, without}
use colyseus_rs.Room.Broadcast.{drop_view_snapshot}
use colyseus_rs.Room.Actor.{Handled, RoomProgram, RoomActor, with_ctx, with_both}

abbrev pub is_gone : ClientState → Bool
is_gone leaving = true
is_gone closed = true
is_gone _ = false

-- Whether the handle in the list is another connection; `none` where the session is not in the list.
unfoldable pub is_stale : Option Client → Client → Bool
is_stale none c = true
is_stale (some d) c = not (d.connection_id == c.connection_id)

module _ {R N S : Type 0} (num : Numbers N) (program : RoomProgram R N S) (now : ℕ) where
  -- The end of `leave_client`, where no reconnection is awaited.
  abbrev pub depart : RoomActor R N S → Client → ℕ → Bool → RoomActor R N S
  depart a c code consented =
      let h = program.on_leave a.room a.ctx c code in
      let shut = set_state closed c h.1 in
      let told = if consented then leave (some code) none c shut else shut in
      let dropped = drop_view_snapshot c.session_id told in
      with_both a
        (h.0, sync_listing num (record dropped { clients = without c.session_id dropped.clients }))

  -- The middle of `leave_client`, after `on_drop`.
  abbrev pub after_drop : RoomActor R N S → Client → ℕ → Bool → RoomActor R N S
  after_drop a c code consented =
      if is_some (lookup (cell a.ctx c).reconnection_token a.ctx.reconnections)
      then with_ctx a (close_transport code (text "reconnecting") c a.ctx)
      else depart a c code consented

  abbrev pub run_drop : RoomActor R N S → Client → ℕ → Bool → RoomActor R N S
  run_drop a c code consented =
      if not consented && not a.ctx.disposing
      then with_both a (program.on_drop a.room a.ctx c code)
      else a

  unfoldable pub leave_client : RoomActor R N S → Client → ℕ → Bool → RoomActor R N S
  leave_client a c code consented =
      if is_gone (cell a.ctx c).state
      then a
      else after_drop (run_drop (with_ctx a (set_state leaving c a.ctx)) c code consented) c code
          consented

  unfoldable pub on_disconnected : RoomActor R N S → Client → ℕ → RoomActor R N S
  on_disconnected a c code =
      if is_stale (get_client a.ctx c.session_id) c then a else leave_client a c code false

  report : Client → Handled R N S × Result ServerError Unit → Handled R N S
  report c (h, ok u) = h
  report c (h, err e) = (h.0, error e.code e.message c h.1)

  unfoldable pub run_handlers :
      (ℕ → Handled R N S → Handled R N S × Result ServerError Unit)
      → Client
      → List ℕ
      → Handled R N S
      → Handled R N S
  unfolding report
  run_handlers run c [] h = h
  run_handlers run c (i ∷ is) h = run_handlers run c is (report c (run i h))

  unfoldable pub run_any :
      (ℕ → Handled R N S → Handled R N S) → List ℕ → Handled R N S → Handled R N S
  run_any run [] h = h
  run_any run (i ∷ is) h = run_any run is (run i h)

  -- The handlers that are registered when the message arrives run in order; the catch-all handlers are
  -- those that are registered once these have run.
  unfoldable pub on_data : RoomActor R N S → Client → MessageType → Value N → RoomActor R N S
  on_data a c t payload =
      let r = check_rate a.ctx.max_messages_per_second now c a.ctx in
      let typed =
        run_handlers (λ i h. program.on_message i h.0 h.1 c payload) c (a.ctx.message_handlers t)
          (a.room, r.0) in
      let every =
        run_any (λ i h. program.on_any_message i h.0 h.1 c t payload) typed.1.any_handlers typed in
      if not (is_joined a.ctx c) then a else (if r.1 then with_both a every else with_ctx a r.0)

  unfoldable pub on_data_bytes : RoomActor R N S → Client → MessageType → List ℕ → RoomActor R N S
  on_data_bytes a c t payload =
      let r = check_rate a.ctx.max_messages_per_second now c a.ctx in
      let typed =
        run_handlers (λ i h. program.on_message_bytes i h.0 h.1 c payload) c
          (a.ctx.bytes_handlers t) (a.room, r.0) in
      if not (is_joined a.ctx c) then a else (if r.1 then with_both a typed else with_ctx a r.0)

  abbrev dispatch : RoomActor R N S → Client → ClientMessage N → RoomActor R N S
  dispatch a c ping_message = with_ctx a (raw_now ping c a.ctx)
  dispatch a c leave_message = leave_client a c 4000 true
  dispatch a c (data_message t payload) = on_data a c t payload
  dispatch a c (data_bytes t payload) = on_data_bytes a c t payload

  -- A client that is not in the list gets its ping answered, and nothing else.
  abbrev unseated : RoomActor R N S → Client → ClientMessage N → RoomActor R N S
  unseated a c ping_message = with_ctx a (raw_now ping c a.ctx)
  unseated a c _ = a

  abbrev message_with : RoomActor R N S → Client → ClientMessage N → Option Client → RoomActor R N S
  message_with a c msg none = unseated a c msg
  message_with a c msg (some d) = if is_stale (some d) c then a else dispatch a c msg

  unfoldable pub on_client_message : RoomActor R N S → Client → ClientMessage N → RoomActor R N S
  on_client_message a c msg = message_with a c msg (get_client a.ctx c.session_id)
