-- ===== src/Matchmaker/Counting.antt =====
-- The counts of `room_stats` of crates/colyseus/src/matchmaker.rs, against counts of the listings.
use colyseus_rs.Base.{
  ℕ, ◌+◌, ◌&&◌, not, Bool, true, Option, none, some, Text, List, [], ◌∷◌, ltb, length, retain, ◌≡◌,
  refl, arith, Bool-cases, inl, inr,
}
use colyseus_rs.Driver.{Numbers, RoomListing}
use colyseus_rs.Driver.Store.{all_listings}
use colyseus_rs.Matchmaker.{MatchMaker, RoomStats}
use colyseus_rs.Matchmaker.Stats.{
  no_stats, is_named, at_capacity, count_room, count_rooms, room_stats,
}

-- Fewer clients than the limit, where there is one.
abbrev pub has_place : Option ℕ → ℕ → Bool
has_place none clients = true
has_place (some max) clients = ltb clients max

at_capacity-has_place :
    (max : Option ℕ) (clients : ℕ) → at_capacity max clients ≡ not (has_place max clients)
unfolding at_capacity
at_capacity-has_place none clients = refl
at_capacity-has_place (some max) clients = ground arith

module _ {N : Type 0} where
  abbrev pub admits : RoomListing N → Bool
  admits l = not l.locked && has_place l.max_clients l.clients

  -- The counts of `s`, and those of the listings on top.
  pub record Counts (ls : List (RoomListing N)) (s r : RoomStats) : Type 0 where
    pub total : r.total ≡ s.total + length ls
    pub open_rooms : r.open_rooms ≡ s.open_rooms + length (retain admits ls)
    pub waiting : r.waiting ≡ s.waiting + length (retain (λ l. admits l && ltb 0 l.clients) ls)
    pub full : r.full ≡ s.full + length (retain (λ l. not (admits l)) ls)
    pub locked : r.locked ≡ s.locked + length (retain (λ l. l.locked) ls)
    pub private : r.private ≡ s.private + length (retain (λ l. l.is_private) ls)

  count_rooms-Counts :
      (name : Option Text) (ls : List (RoomListing N)) (s : RoomStats)
      → Counts (retain (is_named name) ls) s (count_rooms name ls s)
  unfolding count_rooms count_room
  count_rooms-Counts name [] s = record {
    total = omega arith;
    open_rooms = omega arith;
    waiting = omega arith;
    full = omega arith;
    locked = omega arith;
    private = omega arith;
  }
  count_rooms-Counts name (l ∷ ls) s = elim (Bool-cases (is_named name l)) [
    | inl named ↦
        let rest = count_rooms-Counts name ls (count_room l s) in
        let closed = at_capacity-has_place l.max_clients l.clients in
        rw named (record {
          total = omega (arith, rest.total);
          open_rooms = ground (arith, rest.open_rooms, closed);
          waiting = ground (arith, rest.waiting, closed);
          full = ground (arith, rest.full, closed);
          locked = ground (arith, rest.locked);
          private = ground (arith, rest.private);
        })
    | inr other ↦ rw other (count_rooms-Counts name ls s)
  ]

  -- The counts are those of the listings of the name, or of all where no name is given: all of
  -- them; the open ones, that are not locked and have fewer clients than their limit, if any; the open
  -- ones with a client; those that are not open; the locked ones; and the private ones.
  pub room_stats-Counts :
      (num : Numbers N) (name : Option Text) (mm : MatchMaker N)
      → let ls = retain (is_named name) (all_listings num mm.driver) in
        let r = room_stats num name mm in
        (r.total ≡ length ls)
        × (r.open_rooms ≡ length (retain admits ls))
        × (r.waiting ≡ length (retain (λ l. admits l && ltb 0 l.clients) ls))
        × (r.full ≡ length (retain (λ l. not (admits l)) ls))
        × (r.locked ≡ length (retain (λ l. l.locked) ls))
        × (r.private ≡ length (retain (λ l. l.is_private) ls))
  unfolding room_stats
  room_stats-Counts num name mm =
      let c = count_rooms-Counts name (all_listings num mm.driver) no_stats in
      (
        omega (arith, c.total),
        omega (arith, c.open_rooms),
        omega (arith, c.waiting),
        omega (arith, c.full),
        omega (arith, c.locked),
        omega (arith, c.private),
      )
