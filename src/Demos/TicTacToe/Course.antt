-- ===== src/Demos/TicTacToe/Course.antt =====
-- The course of a game of demos/tictactoe/server/src/main.rs: the steps of the room, and what every room
-- that they reach satisfies.
use colyseus_rs.Base.{
  ℕ, ◌+◌, ◌<◌, Bool, true, false, Option, none, some, Text, List, [], ◌==◌, text_eq, nat_eq,
  nat_sound, any, if◌then◌else◌, length, ◌≡◌, refl, sym, ap, ◌∙◌, subst, Bool-cases, inl, inr,
  arith,
}
use colyseus_rs.Base.Result.{ok}
use colyseus_rs.Base.Maps.{
  lookup, put, erase, is_some, length-put_new, length-erase, lookup-erase_new,
}
use colyseus_rs.Demos.TicTacToe.{
  x, o, Status, waiting, playing, finished, PlayerInfo, TttState, new, reset, TttRoom, Claims,
  check_winner, check_lines, line_winner, play, chat, Seated, is_finished, rematch, take_over,
  add_player, is_x, user_of, name_of, stale_of, on_join, on_leave, moved_player,
}
use colyseus_rs.Demos.TicTacToe.Turns.{IsSound, is_waiting, count, ahead, play-IsSound}

reset-IsSound : (s : TttState) → IsSound (reset s)
unfolding reset check_winner check_lines line_winner
reset-IsSound s = elim (Bool-cases (length s.players == 2)) [
  | inl two ↦ rw two (record {
    nine = refl;
    balance = refl;
    winner_checked = refl;
    ended = refl;
    two_players = λ h. nat_sound (length s.players) 2 two;
  })
  | inr fewer ↦ rw fewer (record {
    nine = refl;
    balance = refl;
    winner_checked = refl;
    ended = refl;
    two_players = λ h. cc h;
  })
]

new-IsSound : IsSound new
unfolding check_winner check_lines line_winner
new-IsSound = record {
  nine = refl;
  balance = refl;
  winner_checked = refl;
  ended = refl;
  two_players = λ h. cc h;
}

rematch-IsSound : (room : TttRoom) → IsSound room.state → IsSound (rematch room).state
unfolding rematch
rematch-IsSound room sound = elim (Bool-cases (is_finished room.state.status)) [
  | inl over ↦ rw over (reset-IsSound room.state)
  | inr going ↦ rw going sound
]

length-moved_player :
    (old session_id : Text) (p : Option PlayerInfo) (players : List (Text × PlayerInfo))
    → lookup old players ≡ p
    → lookup session_id players ≡ none
    → length (moved_player old session_id p players) ≡ length players
unfolding moved_player
length-moved_player old session_id none players there fresh = refl
length-moved_player old session_id (some info) players there fresh =
    length-put_new session_id info (erase old players)
      (lookup-erase_new session_id old players fresh)
    ∙ sym (length-erase old players (ap is_some there))

take_over-IsSound :
    (name old session_id : Text) (room : TttRoom)
    → lookup session_id room.state.players ≡ none
    → IsSound room.state
    → IsSound (take_over name old session_id room).state
unfolding take_over
take_over-IsSound name old session_id room fresh sound = record {
  nine = sound.nine;
  balance = sound.balance;
  winner_checked = sound.winner_checked;
  ended = sound.ended;
  two_players = λ h.
      length-moved_player old session_id (lookup old room.state.players) room.state.players refl
        fresh
      ∙ sound.two_players h;
}

waiting_status : (s : Status) → is_waiting s ≡ true → s ≡ waiting
waiting_status waiting h = refl
waiting_status playing h = cc h
waiting_status finished h = cc h

few_is_waiting : (b : Bool) (n : ℕ) → (b ≡ false → n ≡ 2) → n < 2 → b ≡ true
few_is_waiting true n two few = refl
few_is_waiting false n two few = absurd (omega (arith, two refl, few))

-- The status of a sound room with fewer than two players.
few_waiting : (s : TttState) → IsSound s → length s.players < 2 → s.status ≡ waiting
few_waiting s sound few =
    waiting_status s.status
      (few_is_waiting (is_waiting s.status) (length s.players) sound.two_players few)

add_player-IsSound :
    (name session_id : Text) (room : TttRoom)
    → lookup session_id room.state.players ≡ none
    → length room.state.players < 2
    → IsSound room.state
    → IsSound (add_player name session_id room).state
unfolding add_player
add_player-IsSound name session_id room fresh few sound =
    let symbol = if any is_x room.state.players then o else x in
    let players = put session_id (record { symbol = symbol; name = name }) room.state.players in
    let status = few_waiting room.state sound few in
    let balance =
      subst
        (λ (a : Status).
          count x room.state.board ≡ count o room.state.board + ahead a room.state.turn)
        status sound.balance in
    let ended = sym sound.ended ∙ ap is_finished status in
    elim (Bool-cases (length players == 2)) [
      | inl two ↦ rw two (record {
        nine = sound.nine;
        balance = balance;
        winner_checked = sound.winner_checked;
        ended = sym ended;
        two_players = λ h. nat_sound (length players) 2 two;
      })
      | inr one ↦
          rw (one, status)
            (record {
              nine = sound.nine;
              balance = balance;
              winner_checked = sound.winner_checked;
              ended = sym ended;
              two_players = λ h. cc h;
            })
    ]

-- The steps of a room. A client that joins has a new session, and a new player finds a free seat, as the
-- limit of two clients has it.
pub data Step : TttRoom → TttRoom → Type 0 where
  plays :
      {room room' : TttRoom} (session_id : Text) (cell : ℕ)
      → play session_id cell room ≡ ok room'
      → Step room room'
  chats : {room : TttRoom} (session_id message : Text) → Step room (chat session_id message room)
  rematches : {room : TttRoom} → Step room (rematch room)
  rejoins :
      {room : TttRoom} (session_id : Text) (auth : Option Claims) (old : Text)
      → lookup session_id room.state.players ≡ none
      → stale_of (user_of auth) session_id room.clients ≡ some old
      → Step room (on_join session_id auth room)
  joins :
      {room : TttRoom} (session_id : Text) (auth : Option Claims)
      → lookup session_id room.state.players ≡ none
      → stale_of (user_of auth) session_id room.clients ≡ none
      → length room.state.players < 2
      → Step room (on_join session_id auth room)
  seats : {room : TttRoom} (clients : List Seated) → Step room (record room { clients = clients })
  leaves : {room : TttRoom} (session_id : Text) → Step room (on_leave session_id room)

pub step-IsSound :
    (room room' : TttRoom) → Step room room' → IsSound room.state → IsSound room'.state
unfolding chat on_join on_leave
step-IsSound room room' (plays session_id cell played) sound =
    play-IsSound session_id cell room room' played sound
step-IsSound room _ (chats session_id message) sound = sound
step-IsSound room _ rematches sound = rematch-IsSound room sound
step-IsSound room _ (rejoins session_id auth old fresh stale) sound =
    rw (stale, on_join) (take_over-IsSound (name_of auth) old session_id room fresh sound)
step-IsSound room _ (joins session_id auth fresh stale few) sound =
    rw (stale, on_join) (add_player-IsSound (name_of auth) session_id room fresh few sound)
step-IsSound room _ (seats clients) sound = sound
step-IsSound room _ (leaves session_id) sound =
    reset-IsSound (record room.state { players = erase session_id room.state.players })

abbrev pub new_room : TttRoom
new_room = record { state = new; clients = []; sent_away = []; sent = [] }

-- The rooms that the steps reach from a new one.
pub data Reachable : TttRoom → Type 0 where
  created : Reachable new_room
  then_step : {room room' : TttRoom} → Reachable room → Step room room' → Reachable room'

-- In every room that is reached, the board has nine cells, X has as many of them as O or, when O is to move
-- or X has ended the game, one more, the winner is what the lines of the board say, the game is finished
-- where there is one, and unless it waits it has two players.
pub Reachable-IsSound : (room : TttRoom) → Reachable room → IsSound room.state
Reachable-IsSound room created = new-IsSound
Reachable-IsSound room (then_step {room = before} reached step) =
    step-IsSound before room step (Reachable-IsSound before reached)
