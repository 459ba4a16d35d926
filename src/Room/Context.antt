-- ===== src/Room/Context.antt =====
-- `RoomContext` of crates/colyseus/src/room.rs: the clients, the seats, the listing and the timers.
use colyseus_rs.Base.{
  ℕ, ◌+◌, ◌%◌, ◌^◌, ◌&&◌, ◌||◌, not, Bool, true, false, Option, none, some, Text, List, [], ◌∷◌,
  ◌++◌, ◌==◌, text_eq, nat_eq, if◌then◌else◌, leb, length, retain,
}
use colyseus_rs.Base.Maps.{lookup, put, erase, is_some}
use colyseus_rs.Json.{Value, null}
use colyseus_rs.Driver.{Numbers, RoomListing}
use colyseus_rs.Driver.Store.{get, update_by_id}
use colyseus_rs.Room.{
  Client, ReservedSeat, ReconnectionEntry, RoomContext, TimerEntry, MatchmakerEvent, room_updated,
  reconnecting,
}
use colyseus_rs.Room.Handle.{cell, set_state}

unfoldable pub find_client : Text → List Client → Option Client
find_client id [] = none
find_client id (c ∷ cs) = if c.session_id == id then some c else find_client id cs

-- `clients.retain(|c| c.session_id() != id)`
unfoldable pub without : Text → List Client → List Client
without id = retain (λ c. not (c.session_id == id))

-- The entries that are not of the session.
unfoldable pub without_session :
    Text → List (Text × ReconnectionEntry) → List (Text × ReconnectionEntry)
without_session id = retain (λ (e : Text × ReconnectionEntry). not (e.1.session_id == id))

module _ {N : Type 0} where
  -- A seat that holds a place for a client who has yet to connect.
  abbrev pub is_pending : ReservedSeat N → Bool
  is_pending s = not s.consumed && not s.waiting_reconnection

  unfoldable pub pending_seats : List (Text × ReservedSeat N) → ℕ
  pending_seats [] = 0
  pending_seats ((k, s) ∷ m) = (if is_pending s then 1 else 0) + pending_seats m

abbrev pub reached : Option ℕ → ℕ → Bool
reached none n = false
reached (some max) n = leb max n

pub expiry : Option ℕ → ℕ → Option ℕ
expiry none now = none
expiry (some d) now = some (now + d)

-- An absent deadline stands a year away.
unfoldable pub or_a_year : Option ℕ → ℕ → ℕ
or_a_year none now = now + 31536000000
or_a_year (some t) now = t

told : {N : Type 0} → Option (RoomListing N) → List (MatchmakerEvent N) → List (MatchmakerEvent N)
told none events = events
told (some l) events = events ++ (room_updated l ∷ [])

module _ {N S : Type 0} where
  unfoldable pub get_client : RoomContext N S → Text → Option Client
  get_client ctx id = find_client id ctx.clients

  -- A `u32`, as the cast from `usize` makes it.
  unfoldable pub listing_client_count : RoomContext N S → ℕ
  listing_client_count ctx = (length ctx.clients + pending_seats ctx.reserved_seats) % 2 ^ 32

  unfoldable pub has_reached_max_clients : RoomContext N S → Bool
  has_reached_max_clients ctx =
      reached ctx.max_clients ((length ctx.clients + pending_seats ctx.reserved_seats) % 2 ^ 32)

  unfoldable pub build_listing : RoomContext N S → RoomListing N
  build_listing ctx = record {
    room_id = ctx.room_id;
    name = ctx.room_name;
    process_id = ctx.process_id;
    clients = listing_client_count ctx;
    max_clients = ctx.max_clients;
    locked = ctx.locked;
    is_private = ctx.is_private;
    metadata = ctx.metadata;
    created_at = ctx.created_at;
    extra = ctx.filter_extra;
  }

  unfoldable pub allow_reconnection :
      ℕ → Client → Option ℕ → RoomContext N S → RoomContext N S × Bool
  unfolding expiry
  allow_reconnection now c timeout ctx =
      let x = cell ctx c in
      let token = x.reconnection_token in
      let expires_at = expiry timeout now in
      if ctx.disposing || token == [] || is_some (lookup token ctx.reconnections)
      then (ctx, false)
      else (
        record (set_state reconnecting c ctx) {
          reconnections =
              put token (record { session_id = c.session_id; client = c; expires_at = expires_at })
                ctx.reconnections;
          reserved_seats =
              put c.session_id
                (record {
                  options = null;
                  auth = x.auth;
                  consumed = false;
                  waiting_reconnection = true;
                  expires_at = or_a_year expires_at now;
                })
                ctx.reserved_seats;
        },
        true,
      )

  unfoldable pub disconnect : ℕ → RoomContext N S → RoomContext N S
  disconnect code ctx = record ctx { request_dispose = some code }

  unfoldable pub set_timeout : ℕ → ℕ → ℕ → RoomContext N S → RoomContext N S × ℕ
  set_timeout now delay callback ctx =
      let id = ctx.next_timer_id + 1 in
      (
        record ctx {
          next_timer_id = id;
          timers = ctx.timers ++ (record { id = id; due = now + delay; callback = callback } ∷ []);
        },
        id,
      )

  unfoldable pub clear_timeout : ℕ → RoomContext N S → RoomContext N S × Bool
  clear_timeout id ctx =
      let kept = retain (λ (t : TimerEntry). not (t.id == id)) ctx.timers in
      (record ctx { timers = kept }, not (length kept == length ctx.timers))

  module _ (num : Numbers N) where
    -- The closure of `sync_listing`.
    unfoldable pub synced : RoomContext N S → RoomListing N → RoomListing N
    synced ctx l = record l {
      clients = listing_client_count ctx;
      locked = ctx.locked;
      is_private = ctx.is_private;
      metadata = ctx.metadata;
      max_clients = ctx.max_clients;
    }

    unfoldable pub sync_listing : RoomContext N S → RoomContext N S
    unfolding told
    sync_listing ctx =
        let driver = (update_by_id num ctx.driver ctx.room_id (synced ctx)).0 in
        if is_some (get num ctx.driver ctx.room_id)
        then record ctx { driver = driver; lobby = told (get num driver ctx.room_id) ctx.lobby }
        else ctx

    unfoldable pub lock : RoomContext N S → RoomContext N S
    lock ctx = if ctx.locked then ctx else sync_listing (record ctx { locked = true })

    unfoldable pub unlock : RoomContext N S → RoomContext N S
    unlock ctx = if ctx.locked then sync_listing (record ctx { locked = false }) else ctx

    unfoldable pub set_max_clients : Option ℕ → RoomContext N S → RoomContext N S
    set_max_clients max ctx = sync_listing (record ctx { max_clients = max })

    unfoldable pub set_private : Bool → RoomContext N S → RoomContext N S
    set_private b ctx = sync_listing (record ctx { is_private = b })

    unfoldable pub set_metadata : Value N → RoomContext N S → RoomContext N S
    set_metadata v ctx = sync_listing (record ctx { metadata = some v })

    unfoldable pub remove_client : Text → RoomContext N S → RoomContext N S
    remove_client id ctx = sync_listing (record ctx {
      clients = without id ctx.clients;
      reconnections = without_session id ctx.reconnections;
      reserved_seats = erase id ctx.reserved_seats;
      view_snapshots = erase id ctx.view_snapshots;
    })
