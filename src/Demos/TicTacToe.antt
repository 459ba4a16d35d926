-- ===== src/Demos/TicTacToe.antt =====
-- demos/tictactoe/server/src/main.rs: the room of a game of two players. The strings of the source that stand
-- for a symbol, a status or an outcome are data types; the empty string of a free cell is `none`.
pub mod Lines
pub mod Turns
pub mod Course
use colyseus_rs.Base.{
  ℕ, zero, suc, ◌+◌, ◌&&◌, ◌||◌, not, Bool, true, false, Option, none, some, Text, List, [], ◌∷◌,
  ◌++◌, text, ◌==◌, text_eq, nat_eq, Eq, if◌then◌else◌, ltb, length, get_or, take, any, all, retain,
}
use colyseus_rs.Base.Result.{Result, ok, err, ◌>>=◌, ok_or}
use colyseus_rs.Base.Maps.{lookup, put, erase, is_some}
use colyseus_rs.Room.{ServerError}

pub data Symbol : Type 0 where
  x o : Symbol

pub data Status : Type 0 where
  waiting playing finished : Status

pub data Outcome : Type 0 where
  won : Symbol → Outcome
  draw : Outcome

pub record PlayerInfo : Type 0 where
  pub symbol : Symbol
  pub name : Text

abbrev pub Board : Type 0
Board = List (Option Symbol)

pub record TttState : Type 0 where
  pub board : Board
  pub players : List (Text × PlayerInfo)
  pub turn : Symbol
  pub status : Status
  pub winner : Option Outcome

abbrev pub empty_board : Board
empty_board = none ∷ none ∷ none ∷ none ∷ none ∷ none ∷ none ∷ none ∷ none ∷ []

abbrev pub new : TttState
new = record { board = empty_board; players = []; turn = x; status = waiting; winner = none }

unfoldable pub reset : TttState → TttState
reset s = record s {
  board = empty_board;
  turn = x;
  winner = none;
  status = if length s.players == 2 then playing else waiting;
}

abbrev pub win_lines : List (ℕ × ℕ × ℕ)
win_lines =
    (0, 1, 2)
    ∷ (3, 4, 5)
    ∷ (6, 7, 8)
    ∷ (0, 3, 6)
    ∷ (1, 4, 7)
    ∷ (2, 5, 8)
    ∷ (0, 4, 8)
    ∷ (2, 4, 6)
    ∷ []

abbrev pub symbol_eqb : Symbol → Symbol → Bool
symbol_eqb x x = true
symbol_eqb o o = true
symbol_eqb _ _ = false

abbrev pub cell_eqb : Option Symbol → Option Symbol → Bool
cell_eqb none none = true
cell_eqb (some a) (some b) = symbol_eqb a b
cell_eqb _ _ = false

abbrev pub at : Board → ℕ → Option Symbol
at board i = get_or board i none

-- The symbol that fills a line, by the test of the loop of `check_winner`.
unfoldable pub line_winner : Board → ℕ × ℕ × ℕ → Option Symbol
line_winner board (a, b, c) =
    if is_some (at board a)
      && cell_eqb (at board a) (at board b)
      && cell_eqb (at board b) (at board c)
    then at board a
    else none

unfoldable pub check_lines : Board → List (ℕ × ℕ × ℕ) → Option Symbol
check_lines board [] = none
check_lines board (line ∷ lines) = elim (line_winner board line) [
  | some s ↦ some s
  | none ↦ check_lines board lines
]

unfoldable pub check_winner : Board → Option Outcome
check_winner board = elim (check_lines board win_lines) [
  | some s ↦ some (won s)
  | none ↦ if all is_some board then some draw else none
]

pub data Broadcast : Type 0 where
  system : Text → Broadcast
  chat_line : Text → Text → Broadcast

-- A client of the room, with the user id of its auth.
pub record Seated : Type 0 where
  pub session_id : Text
  pub user_id : Option Text

-- The room: its state, what its context holds, and what its handlers have done.
pub record TttRoom : Type 0 where
  pub state : TttState
  pub clients : List Seated
  pub sent_away : List Text
  pub sent : List Broadcast

abbrev pub broadcast : Broadcast → TttRoom → TttRoom
broadcast b room = record room { sent = room.sent ++ (b ∷ []) }

abbrev pub with_state : TttRoom → TttState → TttRoom
with_state room s = record room { state = s }

abbrev application_error : Text → ServerError
application_error message = record { code = 526; message = message }

unfoldable pub set_cell : ℕ → Symbol → Board → Board
set_cell i s [] = []
set_cell zero s (c ∷ board) = some s ∷ board
set_cell (suc i) s (c ∷ board) = c ∷ set_cell i s board

abbrev pub other : Symbol → Symbol
other x = o
other o = x

abbrev pub result_text : Text → Outcome → Text
result_text name draw = text "draw!"
result_text name (won s) = name ++ text " wins!"

-- The end of the `move` handler, once the cell is set.
unfoldable pub settled : PlayerInfo → TttState → TttRoom → Option Outcome → TttRoom
settled player s room (some winner) =
    broadcast (system (result_text player.name winner))
      (with_state room (record s { status = finished; winner = some winner }))
settled player s room none = with_state room (record s { turn = other player.symbol })

abbrev pub is_playing : Status → Bool
is_playing playing = true
is_playing _ = false

abbrev pub check : Bool → Text → Result ServerError Unit
check true message = ok tt
check false message = err (application_error message)

-- The `move` handler.
unfoldable pub play : Text → ℕ → TttRoom → Result ServerError TttRoom
play session_id cell room = do
  started ← check (is_playing room.state.status) (text "game is not in progress")
  player ←
      ok_or (lookup session_id room.state.players) (application_error (text "you are not a player"))
  turn ← check (symbol_eqb player.symbol room.state.turn) (text "not your turn")
  free ← check (ltb cell 9 && not (is_some (at room.state.board cell))) (text "invalid cell")
  (let s = record room.state { board = set_cell cell player.symbol room.state.board } in
      ok (settled player s room (check_winner s.board)))

name_or : Option PlayerInfo → Text → Text
name_or none name = name
name_or (some p) name = p.name

-- The `chat` handler.
unfoldable pub chat : Text → Text → TttRoom → TttRoom
unfolding name_or
chat session_id message room =
    broadcast
      (chat_line (name_or (lookup session_id room.state.players) session_id) (take 500 message))
      room

abbrev pub is_finished : Status → Bool
is_finished finished = true
is_finished _ = false

-- The `rematch` handler.
unfoldable pub rematch : TttRoom → TttRoom
rematch room =
    if is_finished room.state.status
    then broadcast (system (text "rematch!")) (with_state room (reset room.state))
    else room

-- The auth of a client, as `on_auth` makes it from the claims of a token.
pub record Claims : Type 0 where
  pub user_id : Text
  pub name : Text

-- `verify_token` is a parameter: `jsonwebtoken` decodes the token.
unfoldable pub on_auth : (Text → Option Claims) → Option Text → Result ServerError Claims
on_auth verify_token token = do
  t ← ok_or token (record { code = 525; message = text "missing bearer token" })
  ok_or (verify_token t) (record { code = 525; message = text "invalid or expired token" })

is_user : Text → Option Text → Bool
is_user user_id none = false
is_user user_id (some u) = u == user_id

-- The first other client with the same user id.
unfoldable pub stale_session : Text → Text → List Seated → Option Text
unfolding is_user
stale_session user_id session_id [] = none
stale_session user_id session_id (c ∷ cs) =
    let rest = stale_session user_id session_id cs in
    if not (c.session_id == session_id) && is_user user_id c.user_id
    then some c.session_id
    else rest

moved_player : Text → Text → Option PlayerInfo → List (Text × PlayerInfo) → List (Text × PlayerInfo)
moved_player old session_id none players = players
moved_player old session_id (some info) players = put session_id info (erase old players)

-- The branch of `on_join` for a session that the same account has left behind.
unfoldable pub take_over : Text → Text → Text → TttRoom → TttRoom
unfolding moved_player
take_over name old session_id room = broadcast (system (name ++ text " rejoined")) (record room {
  sent_away =
      if any (λ c. c.session_id == old) room.clients
      then room.sent_away ++ (old ∷ [])
      else room.sent_away;
  clients = retain (λ c. not (c.session_id == old)) room.clients;
  state = record room.state {
    players = moved_player old session_id (lookup old room.state.players) room.state.players;
  };
})

abbrev pub is_x : Text × PlayerInfo → Bool
is_x p = symbol_eqb p.1.symbol x

abbrev pub symbol_text : Symbol → Text
symbol_text x = text "X"
symbol_text o = text "O"

-- The branch of `on_join` for a new player.
unfoldable pub add_player : Text → Text → TttRoom → TttRoom
add_player name session_id room =
    let symbol = if any is_x room.state.players then o else x in
    let players = put session_id (record { symbol = symbol; name = name }) room.state.players in
    broadcast (system (name ++ text " joined as " ++ symbol_text symbol)) (
      with_state room (record room.state {
        players = players;
        status = if length players == 2 then playing else room.state.status;
      }))

abbrev pub user_of : Option Claims → Text
user_of none = []
user_of (some a) = a.user_id

abbrev pub name_of : Option Claims → Text
name_of none = text "anonymous"
name_of (some a) = a.name

abbrev pub stale_of : Text → Text → List Seated → Option Text
stale_of [] session_id clients = none
stale_of user_id session_id clients = stale_session user_id session_id clients

unfoldable pub on_join : Text → Option Claims → TttRoom → TttRoom
on_join session_id auth room = elim (stale_of (user_of auth) session_id room.clients) [
  | some old ↦ take_over (name_of auth) old session_id room
  | none ↦ add_player (name_of auth) session_id room
]

unfoldable pub on_leave : Text → TttRoom → TttRoom
unfolding name_or
on_leave session_id room =
    let name = name_or (lookup session_id room.state.players) [] in
    let s = record room.state { players = erase session_id room.state.players } in
    broadcast (system (name ++ text " left the game")) (with_state room (reset s))
