-- ===== src/Tests/MatchRuns.antt =====
-- Runs of the matchmaker with one room.
use mathlib.Core.List.{Memᴰ}
use colyseus_rs.Base.{
  ℕ, ◌-◌, ◌≤◌, ◌<◌, Bool, true, false, nat_eq, text_eq, Option, none, some, Text, List, [], ◌∷◌,
  text, ◌≡◌, refl, arith, text_eqb, length, retain, ◌&&◌, ◌++◌, All, ◌==◌,
}
use colyseus_rs.Base.Result.{ok, err}
use colyseus_rs.Base.Maps.{lookup, put, is_some}
use colyseus_rs.Json.{Value, null, number, object, field, done}
use colyseus_rs.Json.Map
use colyseus_rs.Driver.{RoomListing, RoomQuery, RoomQueryResult, condition_eq}
use colyseus_rs.Driver.Store.{all_listings}
use colyseus_rs.Driver.Store
use colyseus_rs.Room.Actor.{AuthContext}
use colyseus_rs.Matchmaker.{RegisteredHandler, MatchMaker, RoomHandle, SeatReservation}
use colyseus_rs.Matchmaker.Handler
use colyseus_rs.Matchmaker.Handler.{match_conditions, merged_options, add_defaults, as_object}
use colyseus_rs.Matchmaker.Environment.{World, Environment, answered}
use colyseus_rs.Matchmaker.Rooms.{find_match, reserve_seat, create_room_inner, find_live}
use colyseus_rs.Matchmaker.Join.{join_by_id, join_inner, match_or_create}
use colyseus_rs.Matchmaker.Idempotency.{sweep, evict, cache_put, cache_get, idempotency_ttl}
use colyseus_rs.Matchmaker.Stats.{room_stats}
use colyseus_rs.Matchmaker.Fields.{query_rooms, named, field_test}
use colyseus_rs.Matchmaker.Matching.{is_eligible, Chosen, find_match_correct, meets}
use colyseus_rs.Matchmaker.Living.{is_running, find_live_correct}
use colyseus_rs.Matchmaker.Joining.{Granted, join_by_id-Granted, join_inner-Granted}
use colyseus_rs.Matchmaker.Caching.{after, cache_put-bounded, cache_get-after}
use colyseus_rs.Matchmaker.Caching.Keeping.{and_then, cache_get-and_then}
use colyseus_rs.Matchmaker.Counting.{room_stats-Counts}
use colyseus_rs.Matchmaker.Allowed.{query_rooms-allowed}
use colyseus_rs.Matchmaker.Options.{merged_options-get}
use colyseus_rs.Matchmaker.Locks.{match_or_create-leaks}
use colyseus_rs.Tests.RoomRuns.{plain_numbers}
use colyseus_rs.Tests.DriverRuns.{listing, one_room}

abbrev pub chat_type : RegisteredHandler ℕ
chat_type = Handler.new (text "chat")

abbrev pub one_chat : MatchMaker ℕ
one_chat = record {
  handlers = (text "chat", chat_type) ∷ [];
  rooms = (text "a", record { room_id = text "a" }) ∷ [];
  driver = one_room;
  process_id = [];
  public_address = none;
  shutting_down = false;
  lobby = [];
  create_locks = [];
  idempotency = [];
  persistence = none;
}

abbrev pub one_world : World Unit ℕ
one_world = record { mm = one_chat; others = tt }

-- Rooms that grant every seat, and whose `on_create` fails.
abbrev pub granting : Environment Unit ℕ Unit
granting = record {
  generate_id = λ w. (text "s", w);
  clocks = λ w. record { instant = 0; wallclock = 0 };
  schema_version = λ name. 1;
  on_create = λ name ctx options w. (err (record { code = 500; message = [] }), w);
  on_migrate = λ name version s w. (ok s, w);
  on_restore = λ name ctx s w. (ok ctx, w);
  tokens = λ w i. [];
  acquire = λ key w. w;
  reserve = λ room session_id options auth w. (answered (ok tt), w);
  check_reconnection = λ room token w. (none, w);
  shut_rooms = λ ids w. w;
}

find_match_correct_example :
    Chosen plain_numbers
      (is_eligible plain_numbers chat_type (match_conditions chat_type null ++ []) null)
      (listing 1 ∷ [])
      (find_match plain_numbers chat_type (match_conditions chat_type null) [] null one_chat)
unfolding all_listings
find_match_correct_example =
    find_match_correct plain_numbers chat_type (match_conditions chat_type null) [] null one_chat
      (refl, tt)

find_live_correct_example :
    Chosen plain_numbers
      (λ l. meets plain_numbers [] l && is_running one_chat l)
      (listing 1 ∷ [])
      (find_live plain_numbers [] one_chat).0
unfolding all_listings
find_live_correct_example = find_live_correct plain_numbers [] one_chat (refl, tt)

abbrev no_auth : AuthContext
no_auth = record { token = none; headers = []; ip = none }

abbrev granted_seat : SeatReservation ℕ
granted_seat = record {
  room = listing 1;
  session_id = text "s";
  reconnection_token = none;
  public_address = none;
  process_id = [];
}

join_by_id-Granted_example :
    (u : World Unit ℕ) × (l : RoomListing ℕ) × (Store.get plain_numbers u.mm.driver (text "a")
      ≡ some l)
    × (l.locked ≡ false)
    × Granted plain_numbers granting l null no_auth u granted_seat one_world
unfolding join_by_id colyseus_rs.Matchmaker.Join.attempts colyseus_rs.Matchmaker.Join.room_by_id
    colyseus_rs.Matchmaker.Join.unlocked Store.get lookup text_eqb reserve_seat
    colyseus_rs.Matchmaker.Rooms.reservation_in
join_by_id-Granted_example =
    join_by_id-Granted plain_numbers granting (text "a") null no_auth one_world granted_seat
      one_world refl

join_inner-Granted_example :
    (u : World Unit ℕ) × (l : RoomListing ℕ) × (find_match plain_numbers chat_type
        (match_conditions chat_type null)
        []
        null
        u.mm
      ≡ some l)
    × Granted plain_numbers granting l null no_auth u granted_seat one_world
unfolding lookup text_eqb join_inner colyseus_rs.Matchmaker.Rooms.handler
    colyseus_rs.Matchmaker.Rooms.known_handler colyseus_rs.Matchmaker.Join.attempts
    colyseus_rs.Matchmaker.Join.matching_room colyseus_rs.Matchmaker.Join.or_no_rooms find_match
    Handler.new Store.query_rooms Store.page colyseus_rs.Matchmaker.Rooms.match_query Store.ranked
    Store.matched Store.matches match_conditions colyseus_rs.Base.Maps.erase
    colyseus_rs.Driver.Compare.listing_cmp colyseus_rs.Driver.Compare.matches_condition
    colyseus_rs.Driver.Compare.push_char colyseus_rs.Driver.Compare.resolve_parts
    colyseus_rs.Driver.Compare.resolve_path colyseus_rs.Driver.Compare.split
    colyseus_rs.Driver.Compare.value_cmp colyseus_rs.Driver.Compare.value_eq Store.get
    Store.insert_by Store.remove Store.sort_by Store.sort_listings
    colyseus_rs.Json.Equality.value_eqb Map.get Map.key_lt Handler.filter_conditions
    colyseus_rs.Matchmaker.Join.is_seat_failure colyseus_rs.Matchmaker.Rooms.drop_listing
    colyseus_rs.Matchmaker.Rooms.reservation_for colyseus_rs.Matchmaker.Rooms.reservation_in
    reserve_seat colyseus_rs.Matchmaker.Rooms.seat_answer colyseus_rs.Driver.to_flat_value
    Map.insert
join_inner-Granted_example =
    join_inner-Granted plain_numbers granting (λ v. []) (text "chat") null [] no_auth one_world
      chat_type granted_seat one_world refl refl

cache_put-bounded_example :
    length (
      cache_put 2 5
        (text "k")
        chat_type
        ((text "a", (1, chat_type)) ∷ (text "b", (2, chat_type)) ∷ []))
    ≤ 2
cache_put-bounded_example =
    cache_put-bounded 2 5 (text "k") chat_type
      ((text "a", (1, chat_type)) ∷ (text "b", (2, chat_type)) ∷ []) (omega arith)

cache_get-and_then_example :
    cache_get 9
      (text "k")
      (and_then 2 ((text "l", (7, chat_type)) ∷ []) (cache_put 2 5 (text "k") chat_type []))
    ≡ (
      some chat_type,
      and_then 2 ((text "l", (7, chat_type)) ∷ []) (cache_put 2 5 (text "k") chat_type []),
    )
unfolding cache_put put sweep evict text_eqb
cache_get-and_then_example =
    cache_get-and_then 2 5 9 (text "k") chat_type [] ((text "l", (7, chat_type)) ∷ []) (omega arith)
      ((refl, omega arith), tt) (omega arith)

cache_get-after_example :
    (at : ℕ) × Memᴰ {A = Text × (ℕ × RegisteredHandler ℕ)}
      (text "k", (at, chat_type))
      ((text "k", (5, chat_type)) ∷ [])
    × (9 - at ≤ idempotency_ttl)
unfolding cache_get lookup after cache_put put sweep evict text_eqb
cache_get-after_example =
    cache_get-after 2 9 (text "k") ((text "k", (5, chat_type)) ∷ []) chat_type refl

room_stats-Counts_example :
    ((room_stats plain_numbers none one_chat).total ≡ 1)
    × ((room_stats plain_numbers none one_chat).open_rooms ≡ 1)
    × ((room_stats plain_numbers none one_chat).waiting ≡ 1)
    × ((room_stats plain_numbers none one_chat).full ≡ 0)
    × ((room_stats plain_numbers none one_chat).locked ≡ 0)
    × ((room_stats plain_numbers none one_chat).private ≡ 0)
unfolding all_listings
room_stats-Counts_example = room_stats-Counts plain_numbers none one_chat

abbrev by_clients : RoomQuery ℕ
by_clients = record {
  name = none;
  conditions = (text "clients", condition_eq (number 1)) ∷ [];
  sort = [];
  limit = none;
  offset = 0;
  count = true;
}

abbrev counted : RoomQueryResult ℕ
counted = Store.query_rooms plain_numbers one_room (named (some (text "chat")) by_clients)

query_rooms-allowed_example :
    (counted ≡ Store.query_rooms plain_numbers one_room (named (some (text "chat")) by_clients))
    × All
        (λ f. (field_test one_chat (some (text "chat")) f ≡ true) × ((f == text "roomId") ≡ false))
        (text "clients" ∷ [])
    × All
        (λ f. (field_test one_chat (some (text "chat")) f ≡ true) × ((f == text "roomId") ≡ false))
        []
unfolding query_rooms colyseus_rs.Matchmaker.Fields.check_fields
    colyseus_rs.Matchmaker.Fields.allowed_field text_eqb colyseus_rs.Matchmaker.Fields.is_core_field
query_rooms-allowed_example =
    query_rooms-allowed plain_numbers one_chat (some (text "chat")) by_clients counted refl

abbrev with_defaults : RegisteredHandler ℕ
with_defaults = record chat_type {
  default_options = some (object (field (text "mode") (number 3) done));
}

merged_options-get_example :
    Map.get
      (text "mode")
      (as_object (merged_options with_defaults (object (field (text "slug") (number 5) done))))
    ≡ some (number 3)
unfolding Map.get text_eqb
merged_options-get_example =
    merged_options-get with_defaults (some (field (text "slug") (number 5) done)) (text "mode")

-- One task holds the lock, and `on_create` fails.
abbrev locked_world : World Unit ℕ
locked_world = record {
  mm = record one_chat { driver = []; create_locks = (text "chat:", 1) ∷ [] };
  others = tt;
}

match_or_create-leaks_example :
    ((match_or_create plain_numbers
        (λ v. [])
        granting
        (text "chat")
        chat_type
        []
        null
        (text "chat:")
        locked_world).0
      ≡ err (record { code = 500; message = [] }))
    × (lookup
          (text "chat:")
          (match_or_create plain_numbers
            (λ v. [])
            granting
            (text "chat")
            chat_type
            []
            null
            (text "chat:")
            locked_world).1.mm.create_locks
        ≡ some 0)
unfolding find_match Handler.new Store.query_rooms Store.page
    colyseus_rs.Matchmaker.Rooms.match_query Store.ranked Store.matched create_room_inner
    colyseus_rs.Matchmaker.Rooms.handler colyseus_rs.Matchmaker.Rooms.known_handler lookup text_eqb
    Handler.has_unique_key colyseus_rs.Matchmaker.Rooms.spawn_new_room
    colyseus_rs.Matchmaker.Spawn.spawn_room
match_or_create-leaks_example =
    match_or_create-leaks plain_numbers (λ v. []) granting (text "chat") chat_type [] null
      (text "chat:") locked_world locked_world (record { code = 500; message = [] }) 1 refl refl
      refl
