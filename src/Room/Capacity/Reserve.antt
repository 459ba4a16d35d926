-- ===== src/Room/Capacity/Reserve.antt =====
-- Reservations keep the number of clients within the limit.
use colyseus_rs.Base.{
  ℕ, ◌+◌, ◌≤◌, false, ◌||◌, Option, some, Text, text_eq, length, ◌≡◌, sym, subst, arith, Bool-cases,
  inl, inr,
}
use colyseus_rs.Base.Result.{Result, ok, err}
use colyseus_rs.Base.Maps.{put-Distinct}
use colyseus_rs.Json.{Value}
use colyseus_rs.Driver.{Numbers}
use colyseus_rs.Room.{ServerError}
use colyseus_rs.Room.Context.{pending_seats, has_reached_max_clients}
use colyseus_rs.Room.Actor.{AuthContext, Handled, RoomProgram, RoomActor}
use colyseus_rs.Room.Actor.Connect.{on_reserve_seat, reserved}
use colyseus_rs.Room.Capacity.{Roster, Fits, roster, pending-put}
use colyseus_rs.Room.Capacity.Operations.{Fits-sync_listing, within_one_more}
use colyseus_rs.Room.Capacity.Careful.{IsCareful}

module _ {R N S : Type 0} (num : Numbers N) (program : RoomProgram R N S) (now : ℕ) where
  reserved-Fits :
      (a : RoomActor R N S) (id : Text) (v : Value N)
      (h : Handled R N S × Result ServerError (Option (Value N)))
      → Fits (roster h.0.1)
      → ((m : ℕ)
          → h.0.1.max_clients ≡ some m
          → length h.0.1.clients + pending_seats h.0.1.reserved_seats + 1 ≤ m)
      → Fits (roster (reserved num program now a id v h).0.ctx)
  reserved-Fits a id v (h, err e) f one = f
  reserved-Fits a id v (h, ok auth) f one = Fits-sync_listing num _ (record {
    distinct =
        put-Distinct id
          (record {
            options = v;
            auth = auth;
            consumed = false;
            waiting_reconnection = false;
            expires_at = now + h.1.seat_reservation_timeout;
          })
          h.1.reserved_seats f.distinct;
    within = λ m e.
        let b = f.within m e in
        let more = one m e in
        let p =
          pending-put id
            (record {
              options = v;
              auth = auth;
              consumed = false;
              waiting_reconnection = false;
              expires_at = now + h.1.seat_reservation_timeout;
            })
            h.1.reserved_seats in
        omega (arith, b, more, p);
  })

  -- A reservation, granted or refused, keeps a room within its limit, where the handlers do.
  pub on_reserve_seat-Fits :
      (a : RoomActor R N S) (id : Text) (v : Value N) (auth : AuthContext)
      → IsCareful program
      → Fits (roster a.ctx)
      → Fits (roster (on_reserve_seat num program now a id v auth).0.ctx)
  unfolding on_reserve_seat
  on_reserve_seat-Fits a id v auth careful f =
      let h = program.on_auth a.room a.ctx v auth in
      let same = careful.auth_keeps a.room a.ctx v auth in
      elim (Bool-cases (a.ctx.disposing || a.ctx.locked || has_reached_max_clients a.ctx)) [
        | inl refused ↦ rw (refused, on_reserve_seat) f
        | inr free ↦
            rw (free, on_reserve_seat)
              (reserved-Fits a id v h (subst Fits (sym same) f) (
                subst
                  (λ (r : Roster N).
                    (m : ℕ) → r.max ≡ some m → length r.clients + pending_seats r.seats + 1 ≤ m)
                  (sym same) (within_one_more a.ctx f (ground (arith, free)))))
      ]
