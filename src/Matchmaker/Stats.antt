-- ===== src/Matchmaker/Stats.antt =====
-- `room_stats` of crates/colyseus/src/matchmaker.rs.
use colyseus_rs.Base.{
  ℕ, ◌+◌, ◌&&◌, ◌||◌, not, Bool, true, false, Option, none, some, Text, List, [], ◌∷◌, ◌==◌,
  text_eq, if◌then◌else◌, leb,
}
use colyseus_rs.Driver.{Numbers, RoomListing}
use colyseus_rs.Driver.Store.{all_listings}
use colyseus_rs.Matchmaker.{MatchMaker, RoomStats}

abbrev pub no_stats : RoomStats
no_stats = record { total = 0; open_rooms = 0; waiting = 0; full = 0; locked = 0; private = 0 }

abbrev pub one_if : Bool → ℕ
one_if true = 1
one_if false = 0

unfoldable pub at_capacity : Option ℕ → ℕ → Bool
at_capacity none clients = false
at_capacity (some max) clients = leb max clients

module _ {N : Type 0} where
  abbrev pub is_named : Option Text → RoomListing N → Bool
  is_named none l = true
  is_named (some name) l = l.name == name

  -- The counts after one more listing.
  unfoldable pub count_room : RoomListing N → RoomStats → RoomStats
  count_room l s =
      let closed = l.locked || at_capacity l.max_clients l.clients in
      record {
        total = s.total + 1;
        private = s.private + one_if l.is_private;
        locked = s.locked + one_if l.locked;
        full = s.full + one_if closed;
        open_rooms = s.open_rooms + one_if (not closed);
        waiting = s.waiting + one_if (not closed && leb 1 l.clients);
      }

  unfoldable pub count_rooms : Option Text → List (RoomListing N) → RoomStats → RoomStats
  count_rooms name [] s = s
  count_rooms name (l ∷ ls) s = count_rooms name ls (if is_named name l then count_room l s else s)

  unfoldable pub room_stats : Numbers N → Option Text → MatchMaker N → RoomStats
  room_stats num name mm = count_rooms name (all_listings num mm.driver) no_stats
