-- ===== src/Matchmaker/Rooms.antt =====
-- Finding and making rooms: `find_match`, `find_live`, `create_room_inner`, `spawn_new_room` and
-- `reserve_seat` of crates/colyseus/src/matchmaker.rs.
use Prim.Native.Nat.{Ordering}
use colyseus_rs.Base.{
  ℕ, ◌+◌, ◌-◌, ◌||◌, Bool, true, false, Option, none, some, Text, List, [], ◌∷◌, ◌++◌, text, ◌==◌,
  text_eq, nat_eq, if◌then◌else◌, leb, retain, Eq,
}
use colyseus_rs.Base.Result.{Result, ok, err}
use colyseus_rs.Base.Maps.{lookup, put, erase, is_some}
use colyseus_rs.Json.{Value}
use colyseus_rs.Driver.{Numbers, RoomListing, Condition, RoomQuery, exists, not_exists}
use colyseus_rs.Driver.Compare.{text_cmp}
use colyseus_rs.Driver.Store
use colyseus_rs.Driver.Store.{sort_by}
use colyseus_rs.Room.{RoomContext, ServerError, room_created}
use colyseus_rs.Room.Context.{build_listing}
use colyseus_rs.Room.Create.{new_context}
use colyseus_rs.Room.Actor.{AuthContext}
use colyseus_rs.Room.Actor.Connect.{seat_expired}
use colyseus_rs.Matchmaker.{RegisteredHandler, MatchMaker, SeatReservation, CreateRoomOutcome}
use colyseus_rs.Matchmaker.Handler.{unique_conditions, has_unique_key, filter_extra}
use colyseus_rs.Matchmaker.Spawn.{spawn_room}
use colyseus_rs.Matchmaker.Environment.{
  World, SeatAnswer, not_sent, timed_out, dropped, answered, Environment, Task, pure, fail, ◌>>=◌,
  update,
}

-- `condition_key` and `conditions_key`, with the text of a JSON value as a parameter.
module _ {N : Type 0} (show_value : Value N → Text) where
  value_key : Option (Value N) → Text
  value_key none = text "null"
  value_key (some v) = show_value v

  condition_key : Condition N → Text
  unfolding value_key
  condition_key c = elim c.op [
    | not_exists ↦ text "<absent>"
    | exists ↦ text "<present>"
    | _ ↦ value_key c.value
  ]

  is_common : Text → Bool
  is_common k = k == text "locked" || k == text "private" || k == text "name"

  key_entries : List (Text × Condition N) → List Text
  unfolding condition_key is_common
  key_entries [] = []
  key_entries ((k, c) ∷ cs) =
      let rest = key_entries cs in
      if is_common k then rest else (k ++ text "=" ++ condition_key c) ∷ rest

  unfoldable pub joined_by : Text → List Text → Text
  joined_by sep [] = []
  joined_by sep (s ∷ []) = s
  joined_by sep (s ∷ t ∷ ts) = s ++ sep ++ joined_by sep (t ∷ ts)

  unfoldable pub conditions_key : List (Text × Condition N) → Text
  unfolding key_entries
  conditions_key cs = joined_by (text "&") (sort_by text_cmp (key_entries cs))

abbrev pub handler_error : Text → ServerError
handler_error name = record {
  code = 520;
  message = text "provided room name \"" ++ name ++ text "\" is not defined";
}

-- The entry of `create_locks` with one reference more.
unfoldable pub create_lock : Text → List (Text × ℕ) → List (Text × ℕ)
create_lock key locks = elim (lookup key locks) [
  | none ↦ put key 1 locks
  | some n ↦ put key (n + 1) locks
]

-- A task's reference goes out of scope.
unfoldable pub drop_lock : Text → List (Text × ℕ) → List (Text × ℕ)
drop_lock key locks = elim (lookup key locks) [ none ↦ locks | some n ↦ put key (n - 1) locks ]

-- `release_create_lock`, then the end of the scope: no entry stays without a task.
unfoldable pub release_create_lock : Text → List (Text × ℕ) → List (Text × ℕ)
release_create_lock key locks = elim (lookup key locks) [
  | none ↦ locks
  | some n ↦ if leb n 1 then erase key locks else put key (n - 1) locks
]

module _ {N : Type 0} where
  -- The candidates of `find_match`, best first.
  unfoldable pub match_query :
      RegisteredHandler N → List (Text × Condition N) → List (Text × Condition N) → RoomQuery N
  match_query h conditions filter = record {
    name = none;
    conditions = conditions ++ filter;
    sort = elim h.match_sort_fn [ none ↦ h.sort_by | some compare ↦ [] ];
    limit = none;
    offset = 0;
    count = false;
  }

  abbrev pub passes : RegisteredHandler N → Value N → RoomListing N → Bool
  passes h options l = elim h.match_filter_fn [ none ↦ true | some predicate ↦ predicate l options ]

  abbrev pub sorted_by :
      Option (RoomListing N → RoomListing N → Ordering)
      → List (RoomListing N)
      → List (RoomListing N)
  sorted_by none ls = ls
  sorted_by (some compare) ls = sort_by compare ls

  abbrev pub in_order : RegisteredHandler N → List (RoomListing N) → List (RoomListing N)
  in_order h ls = sorted_by h.match_sort_fn ls

  abbrev pub first : List (RoomListing N) → Option (RoomListing N)
  first [] = none
  first (l ∷ ls) = some l

module _ {N : Type 0} ⦃e : Eq N⦄ (num : Numbers N) where
  unfoldable pub find_match :
      RegisteredHandler N
      → List (Text × Condition N)
      → List (Text × Condition N)
      → Value N
      → MatchMaker N
      → Option (RoomListing N)
  find_match h conditions filter options mm =
      let candidates = (Store.query_rooms num mm.driver (match_query h conditions filter)).items in
      first (in_order h (retain (passes h options) candidates))

  -- The loop of `find_live`: listings without a running room are removed until one is found.
  unfoldable pub first_live :
      List (RoomListing N) → MatchMaker N → Option (RoomListing N) × MatchMaker N
  first_live [] mm = (none, mm)
  first_live (l ∷ ls) mm =
      let rest = first_live ls (record mm { driver = (Store.remove num mm.driver l.room_id).0 }) in
      if is_some (lookup l.room_id mm.rooms) then (some l, mm) else rest

  unfoldable pub find_live :
      List (Text × Condition N) → MatchMaker N → Option (RoomListing N) × MatchMaker N
  find_live conditions mm =
      first_live
        (Store.query_rooms num mm.driver (record {
          name = none;
          conditions = conditions;
          sort = [];
          limit = none;
          offset = 0;
          count = false;
        })).items
        mm

module _ {E N : Type 0} where
  unfoldable pub known_handler :
      Text → Option (RegisteredHandler N) → Task E N (RegisteredHandler N)
  known_handler name none = fail (handler_error name)
  known_handler name (some h) = pure h

  unfoldable pub handler : Text → Task E N (RegisteredHandler N)
  handler name w = known_handler name (lookup name w.mm.handlers) w

  locked : (List (Text × ℕ) → List (Text × ℕ)) → Task E N Unit
  locked f = update (λ mm. record mm { create_locks = f mm.create_locks })

  -- The lock is released whether the creation succeeds or fails.
  abbrev pub released :
      {A : Type 0} → Text → Result ServerError A × World E N → Result ServerError A × World E N
  released key r = (
    r.0,
    record r.1 {
      mm = record r.1.mm { create_locks = release_create_lock key r.1.mm.create_locks };
    },
  )

module _ {E N S : Type 0} where
  -- A code of 0 becomes that of an unhandled error.
  abbrev pub made :
      Result ServerError (RoomContext N S) × World E N
      → Result ServerError (RoomContext N S) × World E N
  made (ok ctx, w) = (ok ctx, w)
  made (err x, w) = (err (if x.code == 0 then record x { code = 523 } else x), w)

module _ {N : Type 0} (num : Numbers N) where
  -- The registration of a new room, once it has been created.
  abbrev pub publish : RoomListing N → MatchMaker N → MatchMaker N
  publish l mm = record mm {
    rooms = put l.room_id (record { room_id = l.room_id }) mm.rooms;
    driver = Store.insert num mm.driver l;
    lobby = mm.lobby ++ (room_created l ∷ []);
  }

  unfoldable pub drop_listing : RoomListing N → MatchMaker N → MatchMaker N
  drop_listing l mm = record mm { driver = (Store.remove num mm.driver l.room_id).0 }

module _ {E N : Type 0} (num : Numbers N) where
  -- The reservation of an accepted seat, in the room that the driver then shows.
  unfoldable pub reservation_in : Option (RoomListing N) → Text → Task E N (SeatReservation N)
  reservation_in none session_id w = fail seat_expired w
  reservation_in (some room) session_id w =
      pure
        (record {
          room = room;
          session_id = session_id;
          reconnection_token = none;
          public_address = w.mm.public_address;
          process_id = w.mm.process_id;
        })
        w

  unfoldable pub reservation_for : RoomListing N → Text → Task E N (SeatReservation N)
  reservation_for l session_id w = reservation_in (Store.get num w.mm.driver l.room_id) session_id w

  unfoldable pub seat_answer : RoomListing N → Text → SeatAnswer → Task E N (SeatReservation N)
  unfolding drop_listing reservation_for
  seat_answer l session_id not_sent = do u ← update (drop_listing num l); fail seat_expired
  seat_answer l session_id timed_out =
      fail (record { code = 523; message = text "seat reservation timed out" })
  seat_answer l session_id dropped = fail seat_expired
  seat_answer l session_id (answered (err x)) = fail x
  seat_answer l session_id (answered (ok u)) = reservation_for l session_id

module _ {E N S : Type 0} (num : Numbers N) (env : Environment E N S) where
  create_context : RegisteredHandler N → Text → Value N → Text → Task E N (RoomContext N S)
  create_context h room_name options id w =
      let ctx =
        new_context (env.clocks w) id room_name w.mm.process_id w.mm.driver (filter_extra h options)
          (if h.is_persistent then w.mm.persistence else none) in
      made (spawn_room env room_name ctx options w)

  unfoldable pub spawn_new_room : Text → RegisteredHandler N → Value N → Task E N (RoomListing N)
  unfolding create_context
  spawn_new_room room_name h options w =
      let g = env.generate_id w in
      (do
        ctx ← create_context h room_name options g.0
        u ← update (publish num (build_listing ctx))
        pure (build_listing ctx))
        g.1

  unfoldable pub reserve_seat : RoomListing N → Value N → AuthContext → Task E N (SeatReservation N)
  unfolding seat_answer drop_listing
  reserve_seat l options auth w =
      let g = env.generate_id w in
      let asked = env.reserve l.room_id g.0 options auth g.1 in
      if is_some (lookup l.room_id w.mm.rooms)
      then seat_answer num l g.0 asked.0 asked.1
      else (do u ← update (drop_listing num l); fail seat_expired) w

module _ {E N S : Type 0} ⦃e : Eq N⦄ (num : Numbers N) (show_value : Value N → Text)
    (env : Environment E N S) where
  live_or_new :
      Text
      → RegisteredHandler N
      → Value N
      → List (Text × Condition N)
      → Task E N (CreateRoomOutcome N)
  live_or_new room_name h options key w =
      let found = find_live num key w.mm in
      let v = record w { mm = found.1 } in
      elim found.0 [
        | some l ↦ pure (record { listing = l; created = false }) v
        | none ↦
            (do
              l ← spawn_new_room num env room_name h options
              pure (record { listing = l; created = true }))
              v
      ]

  unfoldable pub unique_room : Text → RegisteredHandler N → Value N → Task E N (CreateRoomOutcome N)
  unfolding live_or_new locked
  unique_room room_name h options w =
      let key = unique_conditions h options in
      let lock = room_name ++ text ":unique:" ++ conditions_key show_value key in
      let held = (locked (create_lock lock) w).1 in
      released lock (live_or_new room_name h options key (env.acquire lock held))

  unfoldable pub create_room_inner : Text → Value N → Task E N (CreateRoomOutcome N)
  create_room_inner room_name options = do
    h ← handler room_name
    if has_unique_key h options then unique_room room_name h options else (do
      l ← spawn_new_room num env room_name h options
      pure (record { listing = l; created = true }))
