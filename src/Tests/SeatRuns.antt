-- ===== src/Tests/SeatRuns.antt =====
-- Runs of connections, reconnections, leaves and deadlines.
use colyseus_rs.Base.{
  ℕ, ◌⊎◌, true, false, nat_eq, text_eq, none, [], ◌∷◌, text, ◌≡◌, refl, arith, text_eqb, length,
}
use colyseus_rs.Base.Result.{ok, err}
use colyseus_rs.Base.Maps.{is_some, lookup}
use colyseus_rs.Driver.Store.{get}
use colyseus_rs.Room.{leaving}
use colyseus_rs.Room.Handle.{cell, modify, set_reconnection_token, set_state, attach_after_patch}
use colyseus_rs.Room.Context.{pending_seats, get_client, sync_listing}
use colyseus_rs.Room.Actor.{RoomActor, with_ctx}
use colyseus_rs.Room.Actor.Connect.{on_connect, seat_client, seat_expired}
use colyseus_rs.Room.Actor.Leave.{run_drop, leave_client, is_gone}
use colyseus_rs.Room.Actor.Deadlines.{
  handle_deadlines, expire_seats, expire_tokens, expired_tokens, expired_seats, remove_seats,
}
use colyseus_rs.Room.Actor.Laws.Waiting.{waiting_seat_overfills}
use colyseus_rs.Room.Actor.Laws.Leaving.{leave_client-outcome}
use colyseus_rs.Room.Actor.Laws.Expiry.{handle_deadlines-seats}
use colyseus_rs.Room.Actor.Laws.Seats.{seat_admits_once}
use colyseus_rs.Room.Capacity.{roster, Fits}
use colyseus_rs.Tests.RoomRuns.{
  plain_numbers, unit_state, plain, plain-IsCareful, ann, ann_again, seat_of, room_with, seated,
  seated-Fits,
}

abbrev let_in : RoomActor Unit ℕ Unit
let_in = (on_connect plain_numbers unit_state plain seated ann none (text "t")).0

-- The room was locked since Ann came.
abbrev locked_since : RoomActor Unit ℕ Unit
locked_since = with_ctx let_in (record let_in.ctx { locked = true })

seat_admits_once_example :
    on_connect plain_numbers unit_state plain locked_since ann_again none (text "u")
    ≡ (with_ctx locked_since (attach_after_patch ann_again locked_since.ctx), err seat_expired)
unfolding lookup text_eqb
seat_admits_once_example =
    seat_admits_once plain_numbers unit_state plain seated locked_since ann ann_again
      (seat_of false) (text "t") (text "u") plain-IsCareful seated-Fits refl refl refl refl

-- The only place of the room is that of a client who may reconnect.
abbrev awaited_room : RoomActor Unit ℕ Unit
awaited_room = room_with (ann ∷ []) ((text "ann", seat_of true) ∷ [])

awaited_room-Fits : Fits (roster awaited_room.ctx)
unfolding pending_seats
awaited_room-Fits = record {
  distinct = (tt, tt);
  within = λ m e. let same : 1 ≡ m = cc in omega (arith, same);
}

waiting_seat_overfills_example :
    ((seat_of true).waiting_reconnection ≡ true)
    × ((on_connect plain_numbers unit_state plain awaited_room ann_again none (text "u")).1 ≡ ok tt)
    × (length
          (on_connect plain_numbers unit_state plain awaited_room ann_again none
            (text "u")).0.ctx.clients
        ≡ 2)
unfolding lookup text_eqb seat_client modify
waiting_seat_overfills_example =
    waiting_seat_overfills plain_numbers unit_state plain awaited_room ann_again (text "u")
      (seat_of true) 1 awaited_room-Fits refl refl refl refl refl refl refl

-- Ann has the token "t1".
abbrev token_room : RoomActor Unit ℕ Unit
token_room =
    with_ctx (room_with (ann ∷ []) [])
      (set_reconnection_token (text "t1") ann (room_with {S = Unit} (ann ∷ []) []).ctx)

handle_deadlines-seats_example :
    lookup (text "ann") (handle_deadlines plain_numbers plain 20000 seated).ctx.reserved_seats
    ≡ none
unfolding expire_seats expire_tokens expired_tokens expired_seats remove_seats sync_listing get
    lookup text_eqb
handle_deadlines-seats_example =
    handle_deadlines-seats plain_numbers plain 20000 seated (text "ann") plain-IsCareful seated-Fits
      refl

leave_client-outcome_example :
    let dropped =
      run_drop plain_numbers plain 0
        (with_ctx (room_with (ann ∷ []) []) (set_state leaving ann (room_with (ann ∷ []) []).ctx))
        ann
        1006
        false in
    let awaited =
      is_some (lookup (cell dropped.ctx ann).reconnection_token dropped.ctx.reconnections) in
    let left = leave_client plain_numbers plain 0 (room_with (ann ∷ []) []) ann 1006 false in
    ((is_gone (cell (room_with {S = Unit} (ann ∷ []) []).ctx ann).state ≡ true)
      × (left ≡ room_with (ann ∷ []) []))
    ⊎ ((awaited ≡ true) × (left.ctx.clients ≡ dropped.ctx.clients))
    ⊎ ((awaited ≡ false) × (get_client left.ctx (text "ann") ≡ none))
leave_client-outcome_example =
    leave_client-outcome plain_numbers plain 0 (room_with (ann ∷ []) []) ann 1006 false
