-- ===== src/Room/Actor/Laws/Seats.antt =====
-- A seat admits one connection.
use colyseus_rs.Base.{
  true, false, none, some, Text, List, text_eq, ◌≡◌, sym, ap, subst, ◌∙◌, arith, Bool-cases, inl,
  inr, text-reflexive,
}
use colyseus_rs.Base.Result.{Result, ok, err}
use colyseus_rs.Base.Maps.{lookup, erase, Distinct, lookup-erase}
use colyseus_rs.Driver.{Numbers}
use colyseus_rs.State.Slot.{Serde}
use colyseus_rs.Room.{Client, RoomContext, ReservedSeat, ServerError, joined, error_frame}
use colyseus_rs.Room.Handle.{cell, modify, attach_after_patch, leave, set_state, raw_now}
use colyseus_rs.Room.Context.{is_pending, sync_listing, without}
use colyseus_rs.Room.Actor.{Handled, RoomProgram, RoomActor, with_ctx}
use colyseus_rs.Room.Actor.Connect.{
  on_connect, join, join_decided, refuse, accept, welcome, seat_client, seat_expired, is_leaving,
  left_in_join,
}
use colyseus_rs.Room.Actor.Laws.{connect_without_seat}
use colyseus_rs.Room.Capacity.{Roster, Fits, roster, roster-sync_listing}
use colyseus_rs.Room.Capacity.Careful.{IsCareful}
use colyseus_rs.Room.Capacity.Events.{roster-welcome, seat_client-Fits}

module _ {R N S : Type 0} (num : Numbers N) (serde : Serde N S) (program : RoomProgram R N S) where
  erased :
      (id : Text) (m : List (Text × ReservedSeat N)) → Distinct m → lookup id (erase id m) ≡ none
  erased id m d = ground (arith, lookup-erase id id m d, text-reflexive id)

  synced_seats :
      (id : Text) (ctx : RoomContext N S)
      → lookup id ctx.reserved_seats ≡ none
      → lookup id (sync_listing num ctx).reserved_seats ≡ none
  synced_seats id ctx h = ap (λ (r : Roster N). lookup id r.seats) (roster-sync_listing num ctx) ∙ h

  refuse-seats :
      (a : RoomActor R N S) (r : R) (c : Client) (e : ServerError) (ctx : RoomContext N S)
      → lookup c.session_id ctx.reserved_seats ≡ none
      → lookup c.session_id (refuse num serde program a r c e ctx).0.ctx.reserved_seats ≡ none
  unfolding modify leave
  refuse-seats a r c e ctx h =
      let gone = record ctx { clients = without c.session_id ctx.clients } in
      let told = raw_now (error_frame e.code e.message) c gone in
      synced_seats c.session_id (leave (some 4002) (some e.message) c told) h

  accept-seats :
      (a : RoomActor R N S) (r : R) (c : Client) (token : Text) (ctx : RoomContext N S)
      → lookup c.session_id ctx.reserved_seats ≡ none
      → lookup c.session_id (accept num serde program a r c token ctx).0.ctx.reserved_seats ≡ none
  unfolding modify
  accept-seats a r c token ctx h =
      let seated = record (set_state joined c ctx) { had_clients = true } in
      synced_seats c.session_id (welcome num serde program c token seated) (
        ap (λ (r : Roster N). lookup c.session_id r.seats)
          (roster-welcome num serde program c token seated)
        ∙ h)

  join_decided-seats :
      (a : RoomActor R N S) (c : Client) (token : Text)
      (h : Handled R N S × Result ServerError Unit)
      → Distinct h.0.1.reserved_seats
      → lookup c.session_id (join_decided num serde program a c token h).0.ctx.reserved_seats ≡ none
  join_decided-seats a c token (h, err e) d =
      refuse-seats a h.0 c e (record h.1 { reserved_seats = erase c.session_id h.1.reserved_seats })
        (erased c.session_id h.1.reserved_seats d)
  join_decided-seats a c token (h, ok u) d =
      let ctx = record h.1 { reserved_seats = erase c.session_id h.1.reserved_seats } in
      let free = erased c.session_id h.1.reserved_seats d in
      elim (Bool-cases (is_leaving (cell ctx c).state)) [
        | inl early ↦ rw (early, join_decided) (refuse-seats a h.0 c left_in_join ctx free)
        | inr stays ↦ rw (stays, join_decided) (accept-seats a h.0 c token ctx free)
      ]

  connected-seats :
      (a : RoomActor R N S) (c : Client) (seat : ReservedSeat N) (token : Text)
      → IsCareful program
      → Fits (roster a.ctx)
      → lookup c.session_id a.ctx.reserved_seats ≡ some seat
      → is_pending seat ≡ true
      → lookup c.session_id (on_connect num serde program a c none token).0.ctx.reserved_seats
        ≡ none
  unfolding on_connect join seat_client modify
  connected-seats a c seat token careful f known p =
      let free : seat.consumed ≡ false = ground (arith, p) in
      let ready = seat_client num serde program seat c (attach_after_patch c a.ctx) in
      let h = program.on_join a.room ready c seat.options seat.auth in
      let g =
        careful.join_keeps a.room ready c seat.options seat.auth
          (seat_client-Fits num serde program seat c (attach_after_patch c a.ctx) f known p) in
      rw (known, free, join)
        (join_decided-seats (with_ctx a (attach_after_patch c a.ctx)) c token h g.distinct)

  -- Where the handlers keep the room within its limit and no seat stands twice, a connection without a
  -- token that finds a pending seat of its session uses it up, whether `on_join` lets it in or not: as
  -- long as the entry of the session among the seats is what it is right afterwards, a connection of the
  -- session without a token is refused as expired, and all that it changes is its own attachment.
  pub seat_admits_once :
      (a later : RoomActor R N S) (c d : Client) (seat : ReservedSeat N) (token other : Text)
      → IsCareful program
      → Fits (roster a.ctx)
      → lookup c.session_id a.ctx.reserved_seats ≡ some seat
      → is_pending seat ≡ true
      → lookup c.session_id later.ctx.reserved_seats
        ≡ lookup c.session_id (on_connect num serde program a c none token).0.ctx.reserved_seats
      → d.session_id ≡ c.session_id
      → on_connect num serde program later d none other
        ≡ (with_ctx later (attach_after_patch d later.ctx), err seat_expired)
  seat_admits_once a later c d seat token other careful f known p unchanged same =
      let gone = unchanged ∙ connected-seats a c seat token careful f known p in
      let none_left =
        subst (λ (i : Text). lookup i later.ctx.reserved_seats ≡ none) (sym same) gone in
      connect_without_seat num serde program later d other none_left
