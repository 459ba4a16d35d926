-- ===== src/Room/Actor/Laws/Waiting.antt =====
-- A connection that takes the seat of a client who may reconnect.
use colyseus_rs.Base.{
  ℕ, ◌+◌, true, false, none, some, Text, [], ◌∷◌, text_eq, ◌≡◌, refl, ap, ◌∙◌, arith, Bool-cases,
  inl, inr, length, length-append,
}
use colyseus_rs.Base.Result.{Result, ok, err}
use colyseus_rs.Base.Maps.{lookup, erase}
use colyseus_rs.Driver.{Numbers}
use colyseus_rs.State.Slot.{Serde}
use colyseus_rs.Room.{Client, RoomContext, ReservedSeat, ServerError, joined}
use colyseus_rs.Room.Handle.{cell, modify, attach_after_patch, set_state}
use colyseus_rs.Room.Context.{is_pending}
use colyseus_rs.Room.Actor.{Handled, RoomProgram, RoomActor, with_ctx}
use colyseus_rs.Room.Actor.Connect.{
  on_connect, join, join_decided, welcome, seat_client, is_leaving,
}
use colyseus_rs.Room.Capacity.{Roster, Fits, roster, roster-sync_listing, pending-put-consumed}
use colyseus_rs.Room.Capacity.Events.{roster-welcome}

module _ {R N S : Type 0} (num : Numbers N) (serde : Serde N S) (program : RoomProgram R N S) where
  -- The context that `on_join` is called in for a seat, and its answer.
  abbrev pub join_context : RoomActor R N S → Client → ReservedSeat N → RoomContext N S
  join_context a c seat = seat_client num serde program seat c (attach_after_patch c a.ctx)

  abbrev pub join_answer :
      RoomActor R N S → Client → ReservedSeat N → Handled R N S × Result ServerError Unit
  join_answer a c seat = program.on_join a.room (join_context a c seat) c seat.options seat.auth

  join_decided-accepts :
      (a : RoomActor R N S) (c : Client) (token : Text)
      (h : Handled R N S × Result ServerError Unit)
      → h.1 ≡ ok tt
      → is_leaving (cell h.0.1 c).state ≡ false
      → ((join_decided num serde program a c token h).1 ≡ ok tt)
        × ((join_decided num serde program a c token h).0.ctx.clients ≡ h.0.1.clients)
  unfolding modify
  join_decided-accepts a c token (h, err e) accepted stays = cc
  join_decided-accepts a c token (h, ok u) accepted stays =
      let ctx = record h.1 { reserved_seats = erase c.session_id h.1.reserved_seats } in
      let seated = record (set_state joined c ctx) { had_clients = true } in
      let same =
        roster-sync_listing num (welcome num serde program c token seated)
        ∙ roster-welcome num serde program c token seated in
      rw (stays, join_decided) (refl, ap (λ (r : Roster N). r.clients) same)

  -- Where a room is within its limit, an unconsumed seat of a room that is full of clients is one that
  -- waits for a client to reconnect.
  full_room_waits :
      (a : RoomActor R N S) (id : Text) (seat : ReservedSeat N) (limit : ℕ)
      → Fits (roster a.ctx)
      → a.ctx.max_clients ≡ some limit
      → length a.ctx.clients ≡ limit
      → lookup id a.ctx.reserved_seats ≡ some seat
      → seat.consumed ≡ false
      → seat.waiting_reconnection ≡ true
  full_room_waits a id seat limit f capped full known free =
      elim (Bool-cases seat.waiting_reconnection) [
        | inl waits ↦ waits
        | inr idle ↦
            let b = f.within limit capped in
            let p : is_pending seat ≡ true = rw (free, idle) refl in
            let one =
              pending-put-consumed id (record seat { consumed = true }) seat a.ctx.reserved_seats
                refl known p in
            absurd (omega (arith, b, one, full))
      ]

  -- In a room that is within its limit and holds as many clients as the limit, let a connection without
  -- a token come with the session id of a seat that is not consumed, and let `on_join` accept it, leave the
  -- clients, the seats and the limit alone, and not have the client leave. Then the seat is one that waits
  -- for a client to reconnect, the connection is let in without the token, and the room holds one
  -- client more than its limit.
  pub waiting_seat_overfills :
      (a : RoomActor R N S) (c : Client) (new_token : Text) (seat : ReservedSeat N) (limit : ℕ)
      → Fits (roster a.ctx)
      → a.ctx.max_clients ≡ some limit
      → length a.ctx.clients ≡ limit
      → lookup c.session_id a.ctx.reserved_seats ≡ some seat
      → seat.consumed ≡ false
      → (join_answer a c seat).1 ≡ ok tt
      → roster (join_answer a c seat).0.1 ≡ roster (join_context a c seat)
      → is_leaving (cell (join_answer a c seat).0.1 c).state ≡ false
      → let connected = on_connect num serde program a c none new_token in
        (seat.waiting_reconnection ≡ true)
        × (connected.1 ≡ ok tt)
        × (length connected.0.ctx.clients ≡ limit + 1)
  unfolding on_connect join modify seat_client
  waiting_seat_overfills a c new_token seat limit f capped full known free accepted kept stays =
      let ctx = attach_after_patch c a.ctx in
      let h = join_answer a c seat in
      let (let_in, clients) = join_decided-accepts (with_ctx a ctx) c new_token h accepted stays in
      let listed = ap length (clients ∙ ap (λ (r : Roster N). r.clients) kept) in
      let more = length-append a.ctx.clients (c ∷ []) in
      (
        full_room_waits a c.session_id seat limit f capped full known free,
        rw (known, join, free) let_in,
        rw (known, join, free) (listed ∙ more ∙ ap (λ n. n + 1) full),
      )
