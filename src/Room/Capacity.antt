-- ===== src/Room/Capacity.antt =====
-- How many clients a room holds: the invariant, and the operations of the context that keep it.
pub mod Operations
pub mod Careful
pub mod Events
pub mod Reserve
pub mod Endings
use colyseus_rs.Base.{
  ℕ, ◌+◌, ◌≤◌, ◌<◌, ◌^◌, Bool, true, false, ◌&&◌, not, Option, none, some, Text, List, [], ◌∷◌,
  ◌++◌, ◌==◌, text_eq, if◌then◌else◌, leb, length, length-append, retain, ◌≡◌, refl, sym, subst,
  arith, Bool-cases, Option-cases, inl, inr, text_sound, text-reflexive,
}
use colyseus_rs.Base.Maps.{lookup, put, erase, is_some, Distinct, put-Distinct, erase-Distinct}
use colyseus_rs.Json.{Value}
use colyseus_rs.Driver.{Numbers}
use colyseus_rs.Driver.Store.{get}
use colyseus_rs.State.Slot.{Serde}
use colyseus_rs.Room.{Client, Cell, Frame, RoomContext, ReservedSeat}
use colyseus_rs.Room.Handle.{modify, raw_all, raw_now, flush_pending, leave}
use colyseus_rs.Room.Context.{
  is_pending, pending_seats, without, sync_listing, has_reached_max_clients, allow_reconnection,
  remove_client,
}

-- What the count of a room depends on.
pub record Roster (N : Type 0) : Type 0 where
  pub clients : List Client
  pub seats : List (Text × ReservedSeat N)
  pub max : Option ℕ

module _ {N : Type 0} where
  -- No seat stands twice, and the clients and the pending seats are at most the limit, a `u32`.
  pub record Fits (r : Roster N) : Type 0 where
    pub distinct : Distinct r.seats
    pub within :
        (m : ℕ) → r.max ≡ some m → (length r.clients + pending_seats r.seats ≤ m) × (m < 2 ^ 32)

  pub pending-put-idle :
      (k : Text) (s : ReservedSeat N) (m : List (Text × ReservedSeat N))
      → is_pending s ≡ false
      → pending_seats (put k s m) ≤ pending_seats m
  unfolding pending_seats put
  pending-put-idle k s [] h = ground arith
  pending-put-idle k s ((i, t) ∷ m) h = ground (arith, pending-put-idle k s m h)

  pub pending-put :
      (k : Text) (s : ReservedSeat N) (m : List (Text × ReservedSeat N))
      → pending_seats (put k s m) ≤ pending_seats m + 1
  unfolding pending_seats put
  pending-put k s [] = ground arith
  pending-put k s ((i, t) ∷ m) = ground (arith, pending-put k s m)

  pub pending-erase :
      (k : Text) (m : List (Text × ReservedSeat N)) → pending_seats (erase k m) ≤ pending_seats m
  unfolding pending_seats erase
  pending-erase k [] = ground arith
  pending-erase k ((i, t) ∷ m) = ground (arith, pending-erase k m)

  -- A pending seat that stops to be so frees its place.
  pub pending-put-consumed :
      (k : Text) (s t : ReservedSeat N) (m : List (Text × ReservedSeat N))
      → is_pending s ≡ false
      → lookup k m ≡ some t
      → is_pending t ≡ true
      → pending_seats (put k s m) + 1 ≤ pending_seats m
  unfolding pending_seats put lookup
  pending-put-consumed k s t [] h known p = cc
  pending-put-consumed k s t ((i, u) ∷ m) h known p = elim (Bool-cases (k == i)) [
    | inl same ↦ ground (arith, same, known)
    | inr differ ↦
        let known' : lookup k m ≡ some t = ground (arith, differ, known) in
        ground (arith, differ, pending-put-consumed k s t m h known' p)
  ]

pub length-without : (id : Text) (cs : List Client) → length (without id cs) ≤ length cs
unfolding without
length-without id [] = ground arith
length-without id (c ∷ cs) = ground (arith, length-without id cs)

module _ {N S : Type 0} where
  abbrev pub roster : RoomContext N S → Roster N
  roster ctx = record { clients = ctx.clients; seats = ctx.reserved_seats; max = ctx.max_clients }

  pub roster-branch :
      (b : Bool) (x y : RoomContext N S) {r : Roster N}
      → roster x ≡ r
      → roster y ≡ r
      → roster (if b then x else y) ≡ r
  roster-branch true x y p q = p
  roster-branch false x y p q = q

  pub roster-raw_all :
      (fs : List (Frame N)) (c : Client) (ctx : RoomContext N S)
      → roster (raw_all fs c ctx) ≡ roster ctx
  unfolding raw_all modify
  roster-raw_all [] c ctx = refl
  roster-raw_all (f ∷ fs) c ctx = roster-raw_all fs c (raw_now f c ctx)

  pub roster-sync_listing :
      (num : Numbers N) (ctx : RoomContext N S) → roster (sync_listing num ctx) ≡ roster ctx
  unfolding sync_listing
  roster-sync_listing num ctx = elim (Bool-cases (is_some (get num ctx.driver ctx.room_id))) [
    | inl known ↦ rw (known, sync_listing) refl
    | inr unknown ↦ rw (unknown, sync_listing) refl
  ]
