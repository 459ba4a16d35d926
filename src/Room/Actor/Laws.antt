-- ===== src/Room/Actor/Laws.antt =====
-- Which connections a room heeds, and what a seat, a leave and a disposal leave behind.
pub mod Expiry
pub mod Seats
pub mod Leaving
pub mod Waiting
pub mod Reconnecting
use colyseus_rs.Base.{
  ℕ, ◌+◌, Bool, true, false, ◌&&◌, ◌||◌, not, Option, none, some, text, Text, List, [], ◌∷◌, ◌++◌,
  ◌==◌, text_eq, ◌≡◌, ◌≢◌, ◌⊎◌, refl, sym, ap, arith, Bool-cases, Option-cases, inl, inr, length,
  length-append, text-reflexive, if◌then◌else◌,
}
use colyseus_rs.Base.Result.{Result, ok, err}
use colyseus_rs.Base.Maps.{lookup, erase, is_some, Distinct, erase-Distinct, lookup-erase}
use colyseus_rs.Json.{Value}
use colyseus_rs.Driver.{Numbers}
use colyseus_rs.Driver.Store.{get, remove}
use colyseus_rs.Driver.Store.Laws.{IsConsistent, get-driver_step}
use colyseus_rs.State.Slot.{Serde}
use colyseus_rs.Room.{Clocks, Client, RoomContext, ReservedSeat, ServerError, ClientMessage, closed}
use colyseus_rs.Room.Handle.{cell, modify, leave, set_state, attach_after_patch}
use colyseus_rs.Room.Context.{get_client, find_client, without, sync_listing}
use colyseus_rs.Room.Actor.{Handled, RoomProgram, RoomActor, with_ctx}
use colyseus_rs.Room.Actor.Connect.{
  on_connect, join, join_decided, seat_client, seat_expired, is_leaving,
}
use colyseus_rs.Room.Actor.Leave.{
  on_client_message, on_disconnected, leave_client, is_stale, after_drop, depart,
}
use colyseus_rs.Room.Actor.Deadlines.{dispose, emptied, close_all, last_save}

module _ {R N S : Type 0} (num : Numbers N) (program : RoomProgram R N S) (now : ℕ) where
  -- Messages and disconnects of a connection that another one of its session has replaced change nothing.
  pub stale_connection :
      (a : RoomActor R N S) (c d : Client) (msg : ClientMessage N) (code : ℕ)
      → get_client a.ctx c.session_id ≡ some d
      → (d.connection_id == c.connection_id) ≡ false
      → (on_client_message num program now a c msg ≡ a)
        × (on_disconnected num program now a c code ≡ a)
  unfolding on_client_message on_disconnected is_stale
  stale_connection a c d msg code current other = (
    rw (current, on_client_message, is_stale, other) refl,
    rw (current, on_disconnected, is_stale, other) refl,
  )

module _ {R N S : Type 0} (num : Numbers N) (serde : Serde N S) (program : RoomProgram R N S) where
  -- Without a seat a connection is refused, and only its own cell is touched.
  pub connect_without_seat :
      (a : RoomActor R N S) (c : Client) (new_token : Text)
      → lookup c.session_id a.ctx.reserved_seats ≡ none
      → on_connect num serde program a c none new_token
        ≡ (with_ctx a (attach_after_patch c a.ctx), err seat_expired)
  unfolding on_connect join modify
  connect_without_seat a c new_token h = rw (h, join) refl

module _ {R N S : Type 0} (num : Numbers N) (serde : Serde N S) (program : RoomProgram R N S)
    (now : Clocks) where
  clients-close_all :
      (code : ℕ) (cs : List Client) (ctx : RoomContext N S)
      → (close_all num serde program now code cs ctx).clients ≡ ctx.clients
  unfolding close_all modify leave
  clients-close_all code [] ctx = refl
  clients-close_all code (c ∷ cs) ctx =
      clients-close_all code cs
        (leave (some code) (some (text "room disposed")) c (set_state closed c ctx))

  -- Where the room is not being disposed yet, `on_dispose` finds no clients, seats or reconnections. Afterwards the driver has no listing of the
  -- room, whatever `on_dispose` did to it; the listings of other rooms are those that `on_dispose` left.
  pub dispose-removes :
      (a : RoomActor R N S) (code : ℕ)
      → a.ctx.disposing ≡ false
      → Distinct (program.on_dispose a.room (emptied num serde program now code a.ctx)).1.driver
      → ((emptied num serde program now code a.ctx).clients ≡ [])
        × ((emptied num serde program now code a.ctx).reserved_seats ≡ [])
        × ((emptied num serde program now code a.ctx).reconnections ≡ [])
        × ((id : Text)
            → get num (dispose num serde program now code a).ctx.driver id ≡ (
                if id
                  == (program.on_dispose a.room
                      (emptied num serde program now code a.ctx)).1.room_id
                then none
                else get num
                    (program.on_dispose a.room (emptied num serde program now code a.ctx)).1.driver
                    id))
  unfolding dispose emptied get remove
  dispose-removes a code live d =
      let h = program.on_dispose a.room (emptied num serde program now code a.ctx) in
      let begun = record a.ctx { disposing = true; request_dispose = none } in
      let saved = last_save num serde program now begun.persistence begun in
      (
        clients-close_all code saved.clients (record saved { clients = [] }),
        refl,
        refl,
        λ id. rw (live, dispose) (ground (arith, lookup-erase id h.1.room_id h.1.driver d)),
      )
