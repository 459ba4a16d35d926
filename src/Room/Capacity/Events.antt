-- ===== src/Room/Capacity/Events.antt =====
-- Connections keep the number of clients within the limit.

use colyseus_rs.Base.{
  true, false, Option, none, some, Text, List, [], ◌∷◌, ◌==◌, text_eq, length, length-append, ◌≡◌,
  ◌≢◌, refl, sym, subst, ◌∙◌, arith, Bool-cases, Option-cases, inl, inr,
}
use colyseus_rs.Base.Result.{Result, ok, err}
use colyseus_rs.Base.Maps.{lookup, erase, put-Distinct}
use colyseus_rs.Json.{Value}
use colyseus_rs.Driver.{Numbers}
use colyseus_rs.State.Slot.{Serde}
use colyseus_rs.Room.{
  Client, RoomContext, ReservedSeat, ReconnectionEntry, ServerError, joined, reconnected, join_room,
}
use colyseus_rs.Room.Handle.{
  cell, modify, raw_now, leave, set_state, set_reconnection_token, flush_pending,
  attach_after_patch,
}
use colyseus_rs.Room.Context.{find_client, is_pending}
use colyseus_rs.Room.Broadcast.{full_state_for, set_view_snapshot}
use colyseus_rs.Room.Actor.{Handled, RoomProgram, RoomActor, with_ctx}
use colyseus_rs.Room.Actor.Connect.{
  on_connect, reconnect, join, join_decided, refuse, accept, welcome, take_over, seat_client,
  reseat, entry_of, is_leaving, give_state, take_user_data, serializer_of, left_in_join,
}
use colyseus_rs.Room.Capacity.{Fits, roster, pending-put-consumed, roster-raw_all}
use colyseus_rs.Room.Capacity.Operations.{Fits-without, Fits-erase, Fits-sync_listing}
use colyseus_rs.Room.Capacity.Careful.{IsCareful}

length-reseat :
    (c : Client) (cs : List Client)
    → find_client c.session_id cs ≢ none
    → length (reseat c cs) ≡ length cs
unfolding reseat find_client
length-reseat c [] h = absurd (h refl)
length-reseat c (d ∷ ds) h = elim (Bool-cases (d.session_id == c.session_id)) [
  | inl same ↦ rw (same, reseat) refl
  | inr differ ↦
      let h' : find_client c.session_id ds ≢ none = λ e. h (rw (differ, find_client) e) in
      rw (differ, reseat) (omega (arith, length-reseat c ds h'))
]

module _ {N S : Type 0} where
  roster-give_state :
      (c : Client) (o : Option (Value N)) (ctx : RoomContext N S)
      → roster (give_state c o ctx) ≡ roster ctx
  unfolding give_state modify set_view_snapshot
  roster-give_state c none ctx = refl
  roster-give_state c (some v) ctx = refl

  roster-take_user_data :
      (c : Client) (o : Option (Value N)) (ctx : RoomContext N S)
      → roster (take_user_data o c ctx) ≡ roster ctx
  unfolding take_user_data modify
  roster-take_user_data c none ctx = refl
  roster-take_user_data c (some v) ctx = refl

module _ {R N S : Type 0} (num : Numbers N) (serde : Serde N S) (program : RoomProgram R N S) where
  pub roster-welcome :
      (c : Client) (token : Text) (ctx : RoomContext N S)
      → roster (welcome num serde program c token ctx) ≡ roster ctx
  unfolding welcome flush_pending modify
  roster-welcome c token ctx =
      let named = set_reconnection_token token c ctx in
      let told = raw_now (join_room token (serializer_of named.state_slot)) c named in
      let given = give_state c (full_state_for serde told c) told in
      roster-raw_all (cell given c).pending c (modify c (λ x. record x { pending = [] }) given)
      ∙ roster-give_state c (full_state_for serde told c) told

  refuse-Fits :
      (a : RoomActor R N S) (r : R) (c : Client) (e : ServerError) (ctx : RoomContext N S)
      → Fits (roster ctx)
      → Fits (roster (refuse num serde program a r c e ctx).0.ctx)
  unfolding modify leave
  refuse-Fits a r c e ctx f = Fits-sync_listing num _ (Fits-without c.session_id (roster ctx) f)

  accept-Fits :
      (a : RoomActor R N S) (r : R) (c : Client) (token : Text) (ctx : RoomContext N S)
      → Fits (roster ctx)
      → Fits (roster (accept num serde program a r c token ctx).0.ctx)
  unfolding modify
  accept-Fits a r c token ctx f =
      let seated = record (set_state joined c ctx) { had_clients = true } in
      Fits-sync_listing num _ (subst Fits (sym (roster-welcome c token seated)) f)

  join_decided-Fits :
      (a : RoomActor R N S) (c : Client) (token : Text)
      (h : Handled R N S × Result ServerError Unit)
      → Fits (roster h.0.1)
      → Fits (roster (join_decided num serde program a c token h).0.ctx)
  join_decided-Fits a c token (h, err e) f =
      refuse-Fits a h.0 c e (record h.1 { reserved_seats = erase c.session_id h.1.reserved_seats })
        (Fits-erase c.session_id (roster h.1) f)
  join_decided-Fits a c token (h, ok u) f =
      let ctx = record h.1 { reserved_seats = erase c.session_id h.1.reserved_seats } in
      let g = Fits-erase c.session_id (roster h.1) f in
      elim (Bool-cases (is_leaving (cell ctx c).state)) [
        | inl early ↦ rw (early, join_decided) (refuse-Fits a h.0 c left_in_join ctx g)
        | inr stays ↦ rw (stays, join_decided) (accept-Fits a h.0 c token ctx g)
      ]

  pub seat_client-Fits :
      (seat : ReservedSeat N) (c : Client) (ctx : RoomContext N S)
      → Fits (roster ctx)
      → lookup c.session_id ctx.reserved_seats ≡ some seat
      → is_pending seat ≡ true
      → Fits (roster (seat_client num serde program seat c ctx))
  unfolding seat_client modify
  seat_client-Fits seat c ctx f known p = record {
    distinct =
        put-Distinct c.session_id (record seat { consumed = true }) ctx.reserved_seats f.distinct;
    within = λ m e.
        let b = f.within m e in
        let one =
          pending-put-consumed c.session_id (record seat { consumed = true }) seat
            ctx.reserved_seats refl known p in
        let l = length-append ctx.clients (c ∷ []) in omega (arith, b, one, l);
  }

  join-Fits :
      (a : RoomActor R N S) (c : Client) (token : Text)
      → IsCareful program
      → Fits (roster a.ctx)
      → ((t : ReservedSeat N)
          → lookup c.session_id a.ctx.reserved_seats ≡ some t
          → t.waiting_reconnection ≡ false)
      → Fits (
          roster
            (join num serde program a c token (lookup c.session_id a.ctx.reserved_seats)).0.ctx)
  unfolding join seat_client
  join-Fits a c token careful f admissible =
      elim (Option-cases (lookup c.session_id a.ctx.reserved_seats)) [
        | inl unknown ↦ rw (unknown, join) f
        | inr (seat, known) ↦ elim (Bool-cases seat.consumed) [
          | inl used ↦ rw (known, used, join) f
          | inr free ↦
              let p : is_pending seat ≡ true = ground (arith, free, admissible seat known) in
              let ready = seat_client num serde program seat c a.ctx in
              rw (known, free, join)
                (join_decided-Fits a c token (program.on_join a.room ready c seat.options seat.auth)
                  (careful.join_keeps a.room ready c seat.options seat.auth
                    (seat_client-Fits seat c a.ctx f known p)))
        ]
      ]

  -- The roster that a reconnection leaves to `on_reconnect`.
  taken_over-Fits :
      (c : Client) (ctx : RoomContext N S)
      → Fits (roster ctx)
      → find_client c.session_id ctx.clients ≢ none
      → Fits (record (roster ctx) {
        clients = reseat c ctx.clients;
        seats = erase c.session_id ctx.reserved_seats;
      })
  taken_over-Fits c ctx f present =
      let g = Fits-erase c.session_id (roster ctx) f in
      let l = length-reseat c ctx.clients present in
      record { distinct = g.distinct; within = λ m e. let b = g.within m e in omega (arith, b, l) }

  take_over-Fits :
      (token : Text) (e : ReconnectionEntry) (c : Client) (ctx : RoomContext N S)
      → Fits (roster ctx)
      → find_client c.session_id ctx.clients ≢ none
      → Fits (roster (take_over num serde program token e c ctx))
  unfolding take_over take_user_data modify
  take_over-Fits token e c ctx f present = elim (Option-cases (cell ctx e.client).user_data) [
    | inl without_data ↦
        rw (without_data, take_over, take_user_data) (taken_over-Fits c ctx f present)
    | inr (v, held) ↦ rw (held, take_over, take_user_data) (taken_over-Fits c ctx f present)
  ]

  reconnect-Fits :
      (a : RoomActor R N S) (c : Client) (token new_token : Text) (o : Option ReconnectionEntry)
      → IsCareful program
      → Fits (roster a.ctx)
      → ((e : ReconnectionEntry) → o ≡ some e → find_client c.session_id a.ctx.clients ≢ none)
      → Fits (roster (reconnect num serde program a c token new_token o).0.ctx)
  unfolding reconnect modify
  reconnect-Fits a c token new_token none careful f present = f
  reconnect-Fits a c token new_token (some e) careful f present =
      let taken = take_over num serde program token e c a.ctx in
      let h = program.on_reconnect a.room taken c in
      let g =
        careful.reconnect_keeps a.room taken c
          (take_over-Fits token e c a.ctx f (present e refl)) in
      Fits-sync_listing num _
        (subst Fits (sym (roster-welcome c new_token (set_state reconnected c h.1))) g)

  -- When a connection may be let in: without a token, its seat is not that of a client who may reconnect;
  -- with a token, the client who may reconnect is still in the list.
  abbrev pub MayConnect : RoomContext N S → Client → Option Text → Type 0
  MayConnect ctx c none =
      (t : ReservedSeat N)
      → lookup c.session_id ctx.reserved_seats ≡ some t
      → t.waiting_reconnection ≡ false
  MayConnect ctx c (some token) =
      (e : ReconnectionEntry)
      → entry_of c.session_id (lookup token ctx.reconnections) ≡ some e
      → find_client c.session_id ctx.clients ≢ none

  -- A connection keeps a room within its limit, where the handlers do: one without a token, where its
  -- seat is not one that waits for a reconnection; one with a token, where its session is listed.
  pub on_connect-Fits :
      (a : RoomActor R N S) (c : Client) (token : Option Text) (new_token : Text)
      → IsCareful program
      → Fits (roster a.ctx)
      → MayConnect a.ctx c token
      → Fits (roster (on_connect num serde program a c token new_token).0.ctx)
  unfolding on_connect modify
  on_connect-Fits a c none new_token careful f may =
      join-Fits (with_ctx a (attach_after_patch c a.ctx)) c new_token careful f may
  on_connect-Fits a c (some token) new_token careful f may =
      reconnect-Fits (with_ctx a (attach_after_patch c a.ctx)) c token new_token
        (entry_of c.session_id (lookup token a.ctx.reconnections)) careful f may
