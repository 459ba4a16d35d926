-- ===== src/Tests/RoomRuns.antt =====
-- Runs of a room with one seat.
use colyseus_rs.Base.{
  ℕ, ◌+◌, ◌-◌, ◌≤◌, Bool, true, false, nat_eq, text_eq, ◌==◌, none, some, Text, List, [], ◌∷◌, text,
  ◌≡◌, refl, arith, text_eqb, if◌then◌else◌, min,
}
use colyseus_rs.Base.Result.{ok}
use colyseus_rs.Base.Maps.{lookup}
use colyseus_rs.Json.{null, done}
use colyseus_rs.Driver.{Numbers}
use colyseus_rs.Driver.Store.{get}
use colyseus_rs.State.Slot.{Serde}
use colyseus_rs.Room.{Clocks, Client, ReservedSeat}
use colyseus_rs.Room.Handle.{new_cell}
use colyseus_rs.Room.Handle.Rate.{allowed, allowed_in_window}
use colyseus_rs.Room.Context.{pending_seats}
use colyseus_rs.Room.Actor.{RoomProgram, RoomActor, AuthContext}
use colyseus_rs.Room.Actor.Deadlines.{dispose, emptied, close_all}
use colyseus_rs.Room.Actor.Laws.{dispose-removes}
use colyseus_rs.Room.Snapshot.{instant_to_wallclock_ms, wallclock_ms_to_instant}
use colyseus_rs.Room.Snapshot.Deadlines.{wallclock_round_trip}
use colyseus_rs.Room.Capacity.{roster, Fits}
use colyseus_rs.Room.Capacity.Careful.{IsCareful}
use colyseus_rs.Room.Capacity.Events.{MayConnect}
use colyseus_rs.Room.Actor.Run.{Wake, event, connect, deadline, turn}
use colyseus_rs.Room.Actor.Run.Capacity.{Life-Fits, begin, next}

abbrev pub plain_numbers : Numbers ℕ
plain_numbers = record {
  of_nat = λ n. n;
  show = λ n. [];
  same_f64 = λ x y. x == y;
  less_f64 = λ x y. false;
  parse_i64 = λ s. none;
  parse_f64 = λ s. none;
}

abbrev pub unit_state : Serde ℕ Unit
unit_state = record { to_value = λ s. null; from_value = λ v. none }

-- A room whose handlers do nothing.
abbrev pub plain : RoomProgram Unit ℕ Unit
plain = record {
  on_auth = λ r ctx v a. ((r, ctx), ok none);
  on_join = λ r ctx c v a. ((r, ctx), ok tt);
  on_drop = λ r ctx c code. (r, ctx);
  on_reconnect = λ r ctx c. (r, ctx);
  on_leave = λ r ctx c code. (r, ctx);
  on_dispose = λ r ctx. (r, ctx);
  on_message = λ i r ctx c v. ((r, ctx), ok tt);
  on_any_message = λ i r ctx c t v. (r, ctx);
  on_message_bytes = λ i r ctx c bs. ((r, ctx), ok tt);
  on_timer = λ i r ctx. (r, ctx);
  on_tick = λ r ctx delta. (r, ctx);
  on_command = λ i r ctx. (r, ctx);
  on_rpc = λ i r ctx. ((r, ctx), ok null);
}

pub plain-IsCareful : IsCareful plain
plain-IsCareful = record {
  auth_keeps = λ r ctx v a. refl;
  join_keeps = λ r ctx c v a f. f;
  drop_keeps = λ r ctx c code f. f;
  reconnect_keeps = λ r ctx c f. f;
  leave_keeps = λ r ctx c code f. f;
  dispose_keeps = λ r ctx f. f;
  message_keeps = λ i r ctx c v f. f;
  any_message_keeps = λ i r ctx c t v f. f;
  message_bytes_keeps = λ i r ctx c bs f. f;
  timer_keeps = λ i r ctx f. f;
  tick_keeps = λ r ctx delta f. f;
  command_keeps = λ i r ctx f. f;
  rpc_keeps = λ i r ctx f. f;
}

abbrev pub ann : Client
ann = record { connection_id = text "c1"; session_id = text "ann" }

abbrev pub ann_again : Client
ann_again = record { connection_id = text "c2"; session_id = text "ann" }

abbrev pub seat_of : Bool → ReservedSeat ℕ
seat_of waiting = record {
  options = null;
  auth = none;
  consumed = false;
  waiting_reconnection = waiting;
  expires_at = 15000;
}

-- A room for one client, with the clients and seats given.
abbrev pub room_with :
    {S : Type 0} → List Client → List (Text × ReservedSeat ℕ) → RoomActor Unit ℕ S
room_with clients seats = record {
  room = tt;
  ctx = record {
    room_id = text "r";
    room_name = text "chat";
    process_id = text "p";
    created_at = 0;
    clients = clients;
    cells = λ i. new_cell 0;
    state_slot = none;
    internal = none;
    clock_start = 0;
    clock_elapsed = 0;
    auto_dispose = true;
    max_messages_per_second = none;
    seat_reservation_timeout = 15000;
    patch_rate = some 50;
    sim_interval = none;
    max_clients = some 1;
    locked = false;
    is_private = false;
    metadata = none;
    reserved_seats = seats;
    reconnections = [];
    message_handlers = λ t. [];
    any_handlers = [];
    bytes_handlers = λ t. [];
    view_filter = none;
    view_snapshots = [];
    after_patch = [];
    timers = [];
    next_timer_id = 0;
    driver = [];
    lobby = [];
    request_dispose = none;
    disposing = false;
    had_clients = false;
    filter_extra = done;
    schema_version = 1;
    create_options = null;
    persistence = none;
    writes = [];
  };
  last_auto_save = none;
  created_at = 0;
}

abbrev empty_room : RoomActor Unit ℕ Unit
empty_room = room_with [] []

abbrev pub seated : RoomActor Unit ℕ Unit
seated = room_with [] ((text "ann", seat_of false) ∷ [])

abbrev auth : AuthContext
auth = record { token = none; headers = []; ip = none }

empty_room-Fits : Fits (roster empty_room.ctx)
unfolding pending_seats
empty_room-Fits = record {
  distinct = tt;
  within = λ m e. let same : 1 ≡ m = cc in omega (arith, same);
}

pub seated-Fits : Fits (roster seated.ctx)
unfolding pending_seats
seated-Fits = record {
  distinct = (tt, tt);
  within = λ m e. let same : 1 ≡ m = cc in omega (arith, same);
}

ann-MayConnect : MayConnect plain_numbers unit_state plain seated.ctx ann none
unfolding lookup text_eqb
ann-MayConnect = λ t known. ground (arith, known)

dispose-removes_example :
    ((emptied plain_numbers unit_state plain
        (record { instant = 0; wallclock = 0 })
        4000
        seated.ctx).clients
      ≡ [])
    × ((emptied plain_numbers unit_state plain
          (record { instant = 0; wallclock = 0 })
          4000
          seated.ctx).reserved_seats
        ≡ [])
    × ((emptied plain_numbers unit_state plain
          (record { instant = 0; wallclock = 0 })
          4000
          seated.ctx).reconnections
        ≡ [])
    × ((id : Text)
        → get plain_numbers
            (dispose plain_numbers unit_state plain
              (record { instant = 0; wallclock = 0 })
              4000
              seated).ctx.driver
            id
          ≡ (if id == text "r" then none else none))
unfolding emptied get lookup close_all
dispose-removes_example =
    dispose-removes plain_numbers unit_state plain (record { instant = 0; wallclock = 0 }) seated
      4000 refl tt

allowed_in_window_example : allowed 2 (0, 1) (10 ∷ 20 ∷ 30 ∷ []) + min 1 2 ≤ 2
allowed_in_window_example =
    allowed_in_window 2 0 1 (10 ∷ 20 ∷ 30 ∷ []) (omega arith, (omega arith, (omega arith, tt)))
      (omega arith)

wallclock_round_trip_example :
    wallclock_ms_to_instant
        (record { instant = 7; wallclock = 1030 })
        (instant_to_wallclock_ms (record { instant = 500; wallclock = 1000 }) 600)
      - 7
    ≡ 70
wallclock_round_trip_example =
    wallclock_round_trip (record { instant = 500; wallclock = 1000 })
      (record { instant = 7; wallclock = 1030 }) 600 (omega arith)

-- Ann connects to her seat, and then the deadlines are handled.
abbrev connection : Wake ℕ
connection = event (connect ann none (text "t"))

abbrev at : ℕ → Clocks
at now = record { instant = now; wallclock = now }

abbrev connected : RoomActor Unit ℕ Unit
connected = (turn plain_numbers unit_state plain (at 10) seated connection).0

Life-Fits_example :
    Fits (roster (turn plain_numbers unit_state plain (at 20000) connected deadline).0.ctx)
Life-Fits_example =
    Life-Fits plain_numbers unit_state plain plain-IsCareful seated-Fits
      (next (at 20000) deadline (next (at 10) connection begin ann-MayConnect) tt)
