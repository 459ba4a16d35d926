-- ===== src/Room/Actor/Connect.antt =====
-- Seats and connections: `on_reserve_seat` and `on_connect` of crates/colyseus/src/actor.rs.
use colyseus_rs.Base.{
  ℕ, ◌+◌, ◌||◌, Bool, true, false, Option, none, some, Text, List, [], ◌∷◌, ◌++◌, ◌==◌, text_eq,
  text, if◌then◌else◌,
}
use colyseus_rs.Base.Result.{Result, ok, err}
use colyseus_rs.Base.Maps.{lookup, put, erase}
use colyseus_rs.Json.{Value}
use colyseus_rs.Driver.{Numbers}
use colyseus_rs.State.Slot.{Serde}
use colyseus_rs.Room.{
  Client, ClientState, leaving, joining, joined, reconnecting, reconnected, RoomContext,
  ReservedSeat, ReconnectionEntry, ServerError, join_room, error_frame, room_state,
}
use colyseus_rs.Room.Handle.{
  cell, set_auth, set_user_data, set_state, set_reconnection_token, attach_after_patch, raw_now,
  leave, flush_pending,
}
use colyseus_rs.Room.Context.{has_reached_max_clients, sync_listing, without}
use colyseus_rs.Room.Broadcast.{full_state_for, set_view_snapshot}
use colyseus_rs.Room.Actor.{AuthContext, Handled, RoomProgram, RoomActor, with_ctx, with_both}

-- The codes and messages of error.rs.
abbrev pub seat_expired : ServerError
seat_expired = record { code = 524; message = text "seat reservation expired" }

abbrev pub already_consumed : ServerError
already_consumed = record { code = 524; message = text "seat reservation already consumed" }

abbrev pub invalid_token : ServerError
invalid_token = record { code = 524; message = text "reconnection token invalid or expired" }

abbrev pub left_in_join : ServerError
left_in_join = record { code = 523; message = text "client left during on_join" }

abbrev pub not_available : Text → ServerError
not_available id = record {
  code = 524;
  message = text "room \"" ++ id ++ text "\" is not available";
}

abbrev pub is_leaving : ClientState → Bool
is_leaving leaving = true
is_leaving _ = false

-- Replace the first handle of the session, or add one.
unfoldable pub reseat : Client → List Client → List Client
reseat c [] = c ∷ []
reseat c (d ∷ ds) = if d.session_id == c.session_id then c ∷ ds else d ∷ reseat c ds

-- The entry of the token, where it is of the session.
unfoldable pub entry_of : Text → Option ReconnectionEntry → Option ReconnectionEntry
entry_of id none = none
entry_of id (some e) = if e.session_id == id then some e else none

module _ {R N S : Type 0} (num : Numbers N) (program : RoomProgram R N S) (now : ℕ) where
  abbrev pub reserved :
      RoomActor R N S
      → Text
      → Value N
      → Handled R N S × Result ServerError (Option (Value N))
      → RoomActor R N S × Result ServerError Unit
  reserved a id options (h, err e) = (with_both a h, err e)
  reserved a id options (h, ok auth) = (
    with_both a (
      h.0,
      sync_listing num (record h.1 {
        reserved_seats =
            put id
              (record {
                options = options;
                auth = auth;
                consumed = false;
                waiting_reconnection = false;
                expires_at = now + h.1.seat_reservation_timeout;
              })
              h.1.reserved_seats;
      }),
    ),
    ok tt,
  )

  unfoldable pub on_reserve_seat :
      RoomActor R N S → Text → Value N → AuthContext → RoomActor R N S × Result ServerError Unit
  on_reserve_seat a id options auth =
      if a.ctx.disposing || a.ctx.locked || has_reached_max_clients a.ctx
      then (a, err (not_available a.ctx.room_id))
      else reserved a id options (program.on_auth a.room a.ctx options auth)

unfoldable pub give_state :
    {N S : Type 0} → Client → Option (Value N) → RoomContext N S → RoomContext N S
give_state c none ctx = ctx
give_state c (some state) ctx =
    raw_now (room_state state) c (set_view_snapshot c.session_id state ctx)

abbrev pub serializer_of : {A : Type 0} → Option A → Text
serializer_of none = text "none"
serializer_of (some slot) = text "json-patch"

unfoldable pub take_user_data :
    {N S : Type 0} → Option (Value N) → Client → RoomContext N S → RoomContext N S
take_user_data none c ctx = ctx
take_user_data (some v) c ctx = set_user_data v c ctx

module _ {R N S : Type 0} (num : Numbers N) (serde : Serde N S) (program : RoomProgram R N S) where
  -- The handshake, the full state and the frames that waited.
  unfoldable pub welcome : Client → Text → RoomContext N S → RoomContext N S
  unfolding give_state
  welcome c token ctx =
      let named = set_reconnection_token token c ctx in
      let told = raw_now (join_room token (serializer_of named.state_slot)) c named in
      flush_pending c (give_state c (full_state_for serde told c) told)

  -- What the new handle takes over from the one before, up to `on_reconnect`.
  unfoldable pub take_over : Text → ReconnectionEntry → Client → RoomContext N S → RoomContext N S
  unfolding take_user_data
  take_over token e c ctx =
      let previous = cell ctx e.client in
      let known = take_user_data previous.user_data c (set_auth previous.auth c ctx) in
      let moved = set_state reconnecting c (set_state reconnected e.client known) in
      record moved {
        reconnections = erase token moved.reconnections;
        reserved_seats = erase c.session_id moved.reserved_seats;
        clients = reseat c moved.clients;
      }

  unfoldable pub reconnect :
      RoomActor R N S
      → Client
      → Text
      → Text
      → Option ReconnectionEntry
      → RoomActor R N S × Result ServerError Unit
  reconnect a c token new_token none = (a, err invalid_token)
  reconnect a c token new_token (some e) =
      let h = program.on_reconnect a.room (take_over token e c a.ctx) c in
      (
        with_both a (h.0, sync_listing num (welcome c new_token (set_state reconnected c h.1))),
        ok tt,
      )

  -- The seat is marked and the client added before `on_join` runs.
  unfoldable pub seat_client : ReservedSeat N → Client → RoomContext N S → RoomContext N S
  seat_client seat c ctx =
      let ready = set_state joining c (set_auth seat.auth c ctx) in
      record ready {
        reserved_seats = put c.session_id (record seat { consumed = true }) ready.reserved_seats;
        clients = ready.clients ++ (c ∷ []);
      }

  abbrev pub refuse :
      RoomActor R N S
      → R
      → Client
      → ServerError
      → RoomContext N S
      → RoomActor R N S × Result ServerError Unit
  refuse a r c e ctx =
      let gone = record ctx { clients = without c.session_id ctx.clients } in
      let told = raw_now (error_frame e.code e.message) c gone in
      (with_both a (r, sync_listing num (leave (some 4002) (some e.message) c told)), err e)

  abbrev pub accept :
      RoomActor R N S
      → R
      → Client
      → Text
      → RoomContext N S
      → RoomActor R N S × Result ServerError Unit
  accept a r c new_token ctx =
      let seated = record (set_state joined c ctx) { had_clients = true } in
      (with_both a (r, sync_listing num (welcome c new_token seated)), ok tt)

  -- After `on_join`: the tombstone goes, and a client that left inside the handler is refused.
  abbrev pub join_decided :
      RoomActor R N S
      → Client
      → Text
      → Handled R N S × Result ServerError Unit
      → RoomActor R N S × Result ServerError Unit
  join_decided a c new_token (h, err e) =
      refuse a h.0 c e (record h.1 { reserved_seats = erase c.session_id h.1.reserved_seats })
  join_decided a c new_token (h, ok u) =
      let ctx = record h.1 { reserved_seats = erase c.session_id h.1.reserved_seats } in
      if is_leaving (cell ctx c).state
      then refuse a h.0 c left_in_join ctx
      else accept a h.0 c new_token ctx

  unfoldable pub join :
      RoomActor R N S
      → Client
      → Text
      → Option (ReservedSeat N)
      → RoomActor R N S × Result ServerError Unit
  join a c new_token none = (a, err seat_expired)
  join a c new_token (some seat) =
      let h = program.on_join a.room (seat_client seat c a.ctx) c seat.options seat.auth in
      if seat.consumed then (a, err already_consumed) else join_decided a c new_token h

  abbrev connect_with :
      RoomActor R N S → Client → Option Text → Text → RoomActor R N S × Result ServerError Unit
  connect_with a c (some token) new_token =
      reconnect a c token new_token (entry_of c.session_id (lookup token a.ctx.reconnections))
  connect_with a c none new_token = join a c new_token (lookup c.session_id a.ctx.reserved_seats)

  -- `new_token` is the id that `generate_id` gives.
  unfoldable pub on_connect :
      RoomActor R N S → Client → Option Text → Text → RoomActor R N S × Result ServerError Unit
  on_connect a c token new_token =
      connect_with (with_ctx a (attach_after_patch c a.ctx)) c token new_token
