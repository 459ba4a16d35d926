-- ===== src/Matchmaker/Join.antt =====
-- The ways into a room: `join_or_create`, `create`, `join`, `join_by_id`, `reconnect`, `query`,
-- `create_room` and `shutdown` of crates/colyseus/src/matchmaker.rs.
use colyseus_rs.Base.{
  ℕ, zero, suc, Bool, false, Option, none, some, Text, List, [], ◌++◌, text, ◌==◌, text_eq, nat_eq,
  if◌then◌else◌, Eq,
}
use colyseus_rs.Base.Result.{Result, ok, err}
use colyseus_rs.Base.Maps.{lookup, is_some}
use colyseus_rs.Json.{Value}
use colyseus_rs.Driver.{Numbers, RoomListing, Condition}
use colyseus_rs.Driver.Store
use colyseus_rs.Room.{ServerError}
use colyseus_rs.Room.Actor.{AuthContext}
use colyseus_rs.Room.Actor.Connect.{seat_expired}
use colyseus_rs.Matchmaker.{RegisteredHandler, SeatReservation, CreateRoomOutcome}
use colyseus_rs.Matchmaker.Handler.{match_conditions, merged_options}
use colyseus_rs.Matchmaker.Fields.{
  FieldError, unknown_filter_field, check_fields, allowed_field, names_of,
}
use colyseus_rs.Matchmaker.Environment.{World, Environment, Task, pure, fail, ◌>>=◌, catch}
use colyseus_rs.Matchmaker.Rooms.{
  conditions_key, create_lock, drop_lock, find_match, handler, create_room_inner, released,
  reserve_seat,
}

abbrev pub join_or_create_retries : ℕ
join_or_create_retries = 3

abbrev pub join_retries : ℕ
join_retries = 2

-- `is_seat_reservation_failure`
unfoldable pub is_seat_failure : ServerError → Bool
is_seat_failure e = e.code == 524

abbrev pub room_not_found : Text → ServerError
room_not_found id = record { code = 522; message = text "room \"" ++ id ++ text "\" not found" }

abbrev pub room_locked : Text → ServerError
room_locked id = record { code = 522; message = text "room \"" ++ id ++ text "\" is locked" }

abbrev pub room_disposed : Text → ServerError
room_disposed id = record {
  code = 522;
  message =
      text "room \"" ++ id ++ text "\" has been disposed. Did you forget allow_reconnection()?";
}

abbrev pub no_rooms_found : ServerError
no_rooms_found = record { code = 521; message = text "no rooms found with the provided criteria" }

abbrev pub join_or_create_failed : ServerError
join_or_create_failed = record { code = 523; message = text "join_or_create failed" }

abbrev pub token_expired : ServerError
token_expired = record { code = 524; message = text "reconnection token invalid or expired" }

module _ {N : Type 0} where
  unfoldable pub is_listing : Text → Option (RoomListing N) → Bool
  is_listing id none = false
  is_listing id (some l) = l.room_id == id

module _ {E N : Type 0} where
  -- The reservation for the session that the room has kept for the token.
  unfoldable pub kept_session : RoomListing N → Text → Option Text → Task E N (SeatReservation N)
  kept_session l token none w = fail token_expired w
  kept_session l token (some session_id) w =
      pure
        (record {
          room = l;
          session_id = session_id;
          reconnection_token = some token;
          public_address = w.mm.public_address;
          process_id = w.mm.process_id;
        })
        w

  checked : Text → RoomListing N → Text → Option (Option Text) → Task E N (SeatReservation N)
  unfolding kept_session
  checked id l token none = fail (room_not_found id)
  checked id l token (some session_id) = kept_session l token session_id

  unfoldable pub unlocked : Text → Option (RoomListing N) → Task E N (RoomListing N)
  unlocked id none w = fail (room_not_found id) w
  unlocked id (some l) w = if l.locked then fail (room_locked id) w else pure l w

  unfoldable pub or_no_rooms : Option (RoomListing N) → Task E N (RoomListing N)
  or_no_rooms none = fail no_rooms_found
  or_no_rooms (some l) = pure l

  -- The creation lock where the creation fails: its reference goes, its entry stays.
  abbrev pub left_on_error :
      {A : Type 0} → Text → Result ServerError A × World E N → Result ServerError A × World E N
  left_on_error lock (ok a, w) = (ok a, w)
  left_on_error lock (err x, w) =
      (err x, record w { mm = record w.mm { create_locks = drop_lock lock w.mm.create_locks } })

  -- `check_fields`, whose errors have the code of invalid criteria, then the request.
  unfoldable pub with_filter :
      Text
      → List (Text × Condition N)
      → Task E N (SeatReservation N)
      → World E N
      → Result FieldError (Result ServerError (SeatReservation N) × World E N)
  with_filter room_name filter task w =
      elim (check_fields (allowed_field w.mm room_name) unknown_filter_field (names_of filter)) [
        | ok u ↦ ok (task w)
        | err x ↦ err x
      ]

module _ {E N : Type 0} (num : Numbers N) where
  -- The listing of `join_by_id`.
  unfoldable pub room_by_id : Text → Task E N (RoomListing N)
  room_by_id id w = unlocked id (Store.get num w.mm.driver id) w

module _ {E N : Type 0} ⦃e : Eq N⦄ (num : Numbers N) where
  -- The listing of `join_inner`.
  unfoldable pub matching_room :
      RegisteredHandler N → List (Text × Condition N) → Value N → Task E N (RoomListing N)
  matching_room h filter options w =
      or_no_rooms (find_match num h (match_conditions h options) filter options w.mm) w

  -- A reused room must be the one that the criteria find.
  unfoldable pub verified :
      RegisteredHandler N
      → List (Text × Condition N)
      → Value N
      → CreateRoomOutcome N
      → Task E N (RoomListing N)
  verified h filter options o w =
      if o.created
      then pure o.listing w
      else (if is_listing o.listing.room_id
            (find_match num h (match_conditions h options) filter options w.mm)
          then pure o.listing w
          else fail seat_expired w)

module _ {E N S : Type 0} (num : Numbers N) (env : Environment E N S) where
  -- The loop that the joining functions have in common: find a listing, then ask its room for a seat; only
  -- a failed reservation goes on to the next attempt. `last` is `last_err`, `otherwise` its default.
  unfoldable pub attempts :
      ℕ
      → Task E N (RoomListing N)
      → Value N
      → AuthContext
      → ServerError
      → Option ServerError
      → Task E N (SeatReservation N)
  attempts zero find options auth otherwise none = fail otherwise
  attempts zero find options auth otherwise (some x) = fail x
  attempts (suc n) find options auth otherwise last = do
    l ← find
    catch (reserve_seat num env l options auth)
        (λ x. if is_seat_failure x then attempts n find options auth otherwise (some x) else fail x)

  unfoldable pub join_by_id : Text → Value N → AuthContext → Task E N (SeatReservation N)
  join_by_id id options auth =
      attempts (suc join_retries) (room_by_id num id) options auth seat_expired none

  unfoldable pub reconnect : Text → Text → Task E N (SeatReservation N)
  unfolding checked
  reconnect id token w = elim (Store.get num w.mm.driver id) [
    | none ↦ fail (room_disposed id) w
    | some l ↦
        let asked = env.check_reconnection id token w in
        if is_some (lookup id w.mm.rooms)
        then checked id l token asked.0 asked.1
        else fail (room_not_found id) w
  ]

module _ {E N S : Type 0} ⦃e : Eq N⦄ (num : Numbers N) (show_value : Value N → Text)
    (env : Environment E N S) where
  unfoldable pub join_inner :
      Text → Value N → List (Text × Condition N) → AuthContext → Task E N (SeatReservation N)
  join_inner room_name options filter auth = do
    h ← handler room_name
    attempts num env (suc join_retries) (matching_room num h filter options) options auth
        seat_expired none

  -- The block under the creation lock, after the second look for a room. A creation that fails returns at
  -- once from `join_or_create_inner`, past `release_create_lock`.
  unfoldable pub or_create :
      Text
      → RegisteredHandler N
      → List (Text × Condition N)
      → Value N
      → Text
      → Option (RoomListing N)
      → Task E N (RoomListing N)
  or_create room_name h filter options lock (some l) = λ w. released lock (pure l w)
  or_create room_name h filter options lock none = do
    o ← λ w.
        left_on_error lock
          (create_room_inner num show_value env room_name (merged_options h options) w)
    λ w. released lock (verified num h filter options o w)

  unfoldable pub match_or_create :
      Text
      → RegisteredHandler N
      → List (Text × Condition N)
      → Value N
      → Text
      → Task E N (RoomListing N)
  match_or_create room_name h filter options lock w =
      or_create room_name h filter options lock
        (find_match num h (match_conditions h options) filter options w.mm) w

  unfoldable pub or_locked :
      Text
      → RegisteredHandler N
      → List (Text × Condition N)
      → Value N
      → Option (RoomListing N)
      → Task E N (RoomListing N)
  or_locked room_name h filter options (some l) w = pure l w
  or_locked room_name h filter options none w =
      let lock = room_name ++ text ":" ++ conditions_key show_value (match_conditions h options) in
      let held = record w {
        mm = record w.mm { create_locks = create_lock lock w.mm.create_locks };
      } in
      match_or_create room_name h filter options lock (env.acquire lock held)

  unfoldable pub found_or_created :
      Text → RegisteredHandler N → List (Text × Condition N) → Value N → Task E N (RoomListing N)
  found_or_created room_name h filter options w =
      or_locked room_name h filter options
        (find_match num h (match_conditions h options) filter options w.mm) w

  unfoldable pub join_or_create_inner :
      Text → Value N → List (Text × Condition N) → AuthContext → Task E N (SeatReservation N)
  join_or_create_inner room_name options filter auth = do
    h ← handler room_name
    attempts num env join_or_create_retries (found_or_created room_name h filter options) options
        auth join_or_create_failed none

  unfoldable pub create : Text → Value N → AuthContext → Task E N (SeatReservation N)
  create room_name options auth = do
    h ← handler room_name
    o ← create_room_inner num show_value env room_name (merged_options h options)
    reserve_seat num env o.listing options auth

  unfoldable pub join_or_create : Text → Value N → AuthContext → Task E N (SeatReservation N)
  join_or_create room_name options auth = join_or_create_inner room_name options [] auth

  unfoldable pub join_or_create_with_filter :
      Text
      → Value N
      → List (Text × Condition N)
      → AuthContext
      → World E N
      → Result FieldError (Result ServerError (SeatReservation N) × World E N)
  join_or_create_with_filter room_name options filter auth =
      with_filter room_name filter (join_or_create_inner room_name options filter auth)

  unfoldable pub join : Text → Value N → AuthContext → Task E N (SeatReservation N)
  join room_name options auth = join_inner room_name options [] auth

  unfoldable pub join_with_filter :
      Text
      → Value N
      → List (Text × Condition N)
      → AuthContext
      → World E N
      → Result FieldError (Result ServerError (SeatReservation N) × World E N)
  join_with_filter room_name options filter auth =
      with_filter room_name filter (join_inner room_name options filter auth)
