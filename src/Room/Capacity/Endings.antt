-- ===== src/Room/Capacity/Endings.antt =====
-- Leaves and deadlines keep the number of clients within the limit.
use colyseus_rs.Base.{
  ℕ, Bool, true, false, not, ◌&&◌, Option, none, some, Text, List, [], ◌∷◌, text_eq, Bool-cases,
  inl, inr,
}
use colyseus_rs.Base.Maps.{lookup, erase, is_some}
use colyseus_rs.Driver.{Numbers}
use colyseus_rs.Room.{Client, ReconnectionEntry, TimerEntry, leaving}
use colyseus_rs.Room.Handle.{cell, set_state, modify, leave}
use colyseus_rs.Room.Broadcast.{drop_view_snapshot}
use colyseus_rs.Room.Actor.{RoomProgram, RoomActor, with_ctx, with_both}
use colyseus_rs.Room.Actor.Leave.{leave_client, is_gone, after_drop, run_drop, depart}
use colyseus_rs.Room.Actor.Deadlines.{
  handle_deadlines, fire_timers, run_timers, expire_seats, expire_tokens, expire_entry,
  expired_tokens, expired_seats, remove_seats, no_items,
}
use colyseus_rs.Room.Capacity.{Fits, Roster, roster}
use colyseus_rs.Room.Capacity.Careful.{IsCareful}
use colyseus_rs.Room.Capacity.Operations.{Fits-without, Fits-erase, Fits-sync_listing}

module _ {N : Type 0} where
  Fits-remove_seats :
      (ids : List Text) (r : Roster N)
      → Fits r
      → Fits (record r { seats = remove_seats ids r.seats })
  unfolding remove_seats
  Fits-remove_seats [] r f = f
  Fits-remove_seats (id ∷ ids) r f =
      Fits-remove_seats ids (record r { seats = erase id r.seats }) (Fits-erase id r f)

module _ {R N S : Type 0} (num : Numbers N) (program : RoomProgram R N S) (now : ℕ)
    (careful : IsCareful program) where
  depart-Fits :
      (a : RoomActor R N S) (c : Client) (code : ℕ) (consented : Bool)
      → Fits (roster a.ctx)
      → Fits (roster (depart num program now a c code consented).ctx)
  unfolding drop_view_snapshot modify leave
  depart-Fits a c code true f =
      let g = careful.leave_keeps a.room a.ctx c code f in
      Fits-sync_listing num _ (Fits-without c.session_id _ g)
  depart-Fits a c code false f =
      let g = careful.leave_keeps a.room a.ctx c code f in
      Fits-sync_listing num _ (Fits-without c.session_id _ g)

  run_drop-Fits :
      (a : RoomActor R N S) (c : Client) (code : ℕ) (consented : Bool)
      → Fits (roster a.ctx)
      → Fits (roster (run_drop num program now a c code consented).ctx)
  run_drop-Fits a c code consented f = elim (Bool-cases (not consented && not a.ctx.disposing)) [
    | inl runs ↦ rw (runs, run_drop) (careful.drop_keeps a.room a.ctx c code f)
    | inr skips ↦ rw (skips, run_drop) f
  ]

  -- A leave keeps a room within its limit, where the handlers do.
  pub leave_client-Fits :
      (a : RoomActor R N S) (c : Client) (code : ℕ) (consented : Bool)
      → Fits (roster a.ctx)
      → Fits (roster (leave_client num program now a c code consented).ctx)
  unfolding leave_client modify
  leave_client-Fits a c code consented f = elim (Bool-cases (is_gone (cell a.ctx c).state)) [
    | inl gone ↦ rw (gone, leave_client) f
    | inr here ↦
        let start = with_ctx a (set_state leaving c a.ctx) in
        let dropped = run_drop num program now start c code consented in
        let g = run_drop-Fits start c code consented f in
        rw (here, leave_client)
          (elim (Bool-cases
            (is_some (lookup (cell dropped.ctx c).reconnection_token dropped.ctx.reconnections))) [
              | inl awaited ↦ rw (awaited, after_drop) g
              | inr over ↦ rw (over, after_drop) (depart-Fits dropped c code consented g)
            ])
  ]

  expire_entry-Fits :
      (token : Text) (o : Option ReconnectionEntry) (a : RoomActor R N S)
      → Fits (roster a.ctx)
      → Fits (roster (expire_entry num program now token o a).ctx)
  unfolding drop_view_snapshot modify
  expire_entry-Fits token none a f = f
  expire_entry-Fits token (some e) a f =
      let freed = record a.ctx {
        reconnections = erase token a.ctx.reconnections;
        reserved_seats = erase e.session_id a.ctx.reserved_seats;
      } in
      let g =
        careful.leave_keeps a.room freed e.client 4003 (Fits-erase e.session_id (roster a.ctx) f) in
      Fits-sync_listing num _ (Fits-without e.client.session_id _ g)

  pub expire_tokens-Fits :
      (tokens : List Text) (a : RoomActor R N S)
      → Fits (roster a.ctx)
      → Fits (roster (expire_tokens num program now tokens a).ctx)
  unfolding expire_tokens
  expire_tokens-Fits [] a f = f
  expire_tokens-Fits (t ∷ ts) a f =
      let o = lookup t a.ctx.reconnections in
      expire_tokens-Fits ts (expire_entry num program now t o a) (expire_entry-Fits t o a f)

  expire_seats-Fits :
      (a : RoomActor R N S)
      → Fits (roster a.ctx)
      → Fits (roster (expire_seats num program now a).ctx)
  unfolding expire_seats
  expire_seats-Fits a f =
      let ids = expired_seats now a.ctx.reserved_seats in
      elim (Bool-cases (no_items ids)) [
        | inl none_over ↦ rw (none_over, expire_seats) f
        | inr some_over ↦
            rw (some_over, expire_seats)
              (Fits-sync_listing num _ (Fits-remove_seats ids (roster a.ctx) f))
      ]

  run_timers-Fits :
      (ts : List TimerEntry) (a : RoomActor R N S)
      → Fits (roster a.ctx)
      → Fits (roster (run_timers num program now ts a).ctx)
  unfolding run_timers
  run_timers-Fits [] a f = f
  run_timers-Fits (t ∷ ts) a f =
      run_timers-Fits ts (with_both a (program.on_timer t.callback a.room a.ctx))
        (careful.timer_keeps t.callback a.room a.ctx f)

  -- Handling the deadlines keeps a room within its limit, where the handlers do.
  pub handle_deadlines-Fits :
      (a : RoomActor R N S)
      → Fits (roster a.ctx)
      → Fits (roster (handle_deadlines num program now a).ctx)
  unfolding handle_deadlines fire_timers
  handle_deadlines-Fits a f =
      let tokens = expired_tokens now a.ctx.reconnections in
      run_timers-Fits _ _ (expire_seats-Fits _ (expire_tokens-Fits tokens a f))
