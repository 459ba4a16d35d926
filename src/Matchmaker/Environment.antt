-- ===== src/Matchmaker/Environment.antt =====
-- What a request of the matchmaker meets at each of its `await`s: the other tasks, which act on the same
-- matchmaker, and the rooms, which answer.
use colyseus_rs.Base.{ℕ, Option, Text, List}
use colyseus_rs.Base.Result.{Result, ok, err}
use colyseus_rs.Json.{Value}
use colyseus_rs.Room.{Clocks, RoomContext, RoomSnapshot, ServerError}
use colyseus_rs.Room.Actor.{AuthContext}
use colyseus_rs.Matchmaker.{MatchMaker}

-- The shared matchmaker, and the state of all else.
pub record World (E N : Type 0) : Type 0 where
  pub mm : MatchMaker N
  pub others : E

-- How a `ReserveSeat` that was sent to an actor ends.
pub data SeatAnswer : Type 0 where
  -- The actor is gone.
  not_sent : SeatAnswer
  timed_out dropped : SeatAnswer
  answered : Result ServerError Unit → SeatAnswer

-- A request: it changes the world, and ends with a value or an error.
abbrev pub Task : Type 0 → Type 0 → Type 0 → Type 0
Task E N A = World E N → Result ServerError A × World E N

-- Of the callbacks of a room type, named by its first argument, `schema_version` is that of `Room`, and
-- the others are those that run before its actor starts.
pub record Environment (E N S : Type 0) : Type 0 where
  pub generate_id : World E N → Text × World E N
  pub clocks : World E N → Clocks
  pub schema_version : Text → ℕ
  pub on_create : Text → RoomContext N S → Value N → Task E N (RoomContext N S)
  pub on_migrate : Text → ℕ → RoomSnapshot N → Task E N (RoomSnapshot N)
  pub on_restore : Text → RoomContext N S → RoomSnapshot N → Task E N (RoomContext N S)
  -- The connection ids of the clients that a restored room waits for.
  pub tokens : World E N → ℕ → Text
  -- The other tasks, until the lock of this key is free.
  pub acquire : Text → World E N → World E N
  -- A room, session id, options and auth.
  pub reserve : Text → Text → Value N → AuthContext → World E N → SeatAnswer × World E N
  -- `none` where the `CheckReconnection` cannot be sent, since the actor is gone; else the session that the
  -- room answers with, `none` also where no answer comes in time.
  pub check_reconnection : Text → Text → World E N → Option (Option Text) × World E N
  -- `Shutdown` is sent to these rooms; then all act until no room is left or five seconds have passed.
  pub shut_rooms : List Text → World E N → World E N

module _ {E N : Type 0} where
  abbrev pub pure : {A : Type 0} → A → Task E N A
  pure a w = (ok a, w)

  abbrev pub fail : {A : Type 0} → ServerError → Task E N A
  fail e w = (err e, w)

  abbrev pub continue_with :
      {A B : Type 0}
      → Result ServerError A × World E N
      → (A → Task E N B)
      → Result ServerError B × World E N
  continue_with (ok a, w) f = f a w
  continue_with (err e, w) f = (err e, w)

  infixl 5 ◌>>=◌
  abbrev pub ◌>>=◌ : {A B : Type 0} → Task E N A → (A → Task E N B) → Task E N B
  (m >>= f) w = continue_with (m w) f

  -- A change of the matchmaker's own state.
  abbrev pub update : (MatchMaker N → MatchMaker N) → Task E N Unit
  update f w = (ok tt, record w { mm = f w.mm })

  abbrev pub catch_with :
      {A : Type 0}
      → Result ServerError A × World E N
      → (ServerError → Task E N A)
      → Result ServerError A × World E N
  catch_with (ok a, w) f = (ok a, w)
  catch_with (err e, w) f = f e w

  -- `match … { Err(e) => … }`
  abbrev pub catch : {A : Type 0} → Task E N A → (ServerError → Task E N A) → Task E N A
  catch m f w = catch_with (m w) f
