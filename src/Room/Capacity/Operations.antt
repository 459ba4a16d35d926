-- ===== src/Room/Capacity/Operations.antt =====
-- The changes of clients and seats that keep their number within the limit.
use colyseus_rs.Base.{
  ℕ, ◌+◌, ◌≤◌, ◌^◌, ◌%◌, false, some, Text, text_eq, length, ◌≡◌, sym, subst, arith, leb→gt,
}
use colyseus_rs.Base.Maps.{put, erase, put-Distinct, erase-Distinct}
use colyseus_rs.Driver.{Numbers}
use colyseus_rs.Room.{RoomContext, ReservedSeat}
use colyseus_rs.Room.Context.{
  pending_seats, without, is_pending, sync_listing, has_reached_max_clients, reached,
}
use colyseus_rs.Room.Capacity.{
  Roster, Fits, roster, pending-put-idle, pending-erase, length-without, roster-sync_listing,
}

module _ {N : Type 0} where
  pub Fits-without :
      (id : Text) (r : Roster N) → Fits r → Fits (record r { clients = without id r.clients })
  Fits-without id r f = record {
    distinct = f.distinct;
    within =
        λ m h. let b = f.within m h in let l = length-without id r.clients in omega (arith, b, l);
  }

  pub Fits-erase :
      (id : Text) (r : Roster N) → Fits r → Fits (record r { seats = erase id r.seats })
  Fits-erase id r f = record {
    distinct = erase-Distinct id r.seats f.distinct;
    within = λ m h. let b = f.within m h in let l = pending-erase id r.seats in omega (arith, b, l);
  }

  pub Fits-put-idle :
      (id : Text) (s : ReservedSeat N) (r : Roster N)
      → is_pending s ≡ false
      → Fits r
      → Fits (record r { seats = put id s r.seats })
  Fits-put-idle id s r h f = record {
    distinct = put-Distinct id s r.seats f.distinct;
    within = λ m e.
        let b = f.within m e in let l = pending-put-idle id s r.seats h in omega (arith, b, l);
  }

module _ {N S : Type 0} where
  pub Fits-sync_listing :
      (num : Numbers N) (ctx : RoomContext N S)
      → Fits (roster ctx)
      → Fits (roster (sync_listing num ctx))
  Fits-sync_listing num ctx f = subst Fits (sym (roster-sync_listing num ctx)) f

  -- Where a room that is within its limit has not reached it, one more client or seat is within it.
  pub within_one_more :
      (ctx : RoomContext N S)
      → Fits (roster ctx)
      → has_reached_max_clients ctx ≡ false
      → (m : ℕ) → ctx.max_clients ≡ some m
      → length ctx.clients + pending_seats ctx.reserved_seats + 1 ≤ m
  unfolding has_reached_max_clients
  within_one_more ctx f h m e =
      let b = f.within m e in
      let n = length ctx.clients + pending_seats ctx.reserved_seats in
      let g : reached (some m) (n % 2 ^ 32) ≡ false =
        subst (λ o. reached o (n % 2 ^ 32) ≡ false) e h in
      let over = leb→gt m (n % 2 ^ 32) g in omega (arith, over, b)
