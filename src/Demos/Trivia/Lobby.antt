-- ===== src/Demos/Trivia/Lobby.antt =====
-- The commands of demos/trivia/server/src/commands/lobby.rs. The order of a `HashMap` is that of the list
-- of its entries.
use colyseus_rs.Base.{
  ◌&&◌, not, Bool, true, false, Option, none, some, Text, text, List, [], ◌∷◌, ◌++◌, ◌==◌, nat_eq,
  text_eq, if◌then◌else◌, ltb, length, any, retain, take,
}
use colyseus_rs.Base.Maps.{lookup, put, erase, is_some}
use colyseus_rs.Command.{Dispatcher, enqueue}
use colyseus_rs.Demos.Trivia.{
  max_players, max_spectators, PlayerState, new_player, lobby, Phase, TriviaState, display_name,
  TriviaRoom, Command, generate_questions, end_round, finish_game, system, chat_line, sent_away,
  emit, with_state, sync_meta, map_players, update_player, is_lobby, is_asking, is_finished,
  is_same, asking, reveal, generating,
}
use colyseus_rs.Demos.Trivia.Rounds.{Room, all_answered}

-- The first other session of the same account.
unfoldable pub stale_session : Text → Text → List (Text × PlayerState) → Option Text
stale_session user_id session_id [] = none
stale_session user_id session_id ((k, p) ∷ players) =
    let rest = stale_session user_id session_id players in
    if p.user_id == user_id && not (k == session_id) then some k else rest

abbrev pub stale_of : Text → Text → List (Text × PlayerState) → Option Text
stale_of [] session_id players = none
stale_of user_id session_id players = stale_session user_id session_id players

abbrev pub moved : {A : Type 0} → Text → Text → Option A → List (Text × A) → List (Text × A)
moved old session_id none m = m
moved old session_id (some a) m = put session_id a (erase old m)

-- `Join`, for an account that has a session in the room.
abbrev pub take_over : Text → Text → Text → TriviaRoom → TriviaRoom
take_over old session_id name room = sync_meta (
    emit (system (name ++ text " rejoined")) (record room {
      sent =
          if any (λ c. c == old) room.clients then room.sent ++ (sent_away old ∷ []) else room.sent;
      clients = retain (λ c. not (c == old)) room.clients;
      internal = record room.internal {
        round_answers =
            moved old session_id (lookup old room.internal.round_answers)
              room.internal.round_answers;
      };
      state = record room.state {
        players = moved old session_id (lookup old room.state.players) room.state.players;
        owner = if is_same room.state.owner old then some session_id else room.state.owner;
      };
    }))

abbrev pub or_else : Option Text → Text → Option Text
or_else none session_id = some session_id
or_else (some owner) session_id = some owner

-- The new player of a `Join`.
abbrev pub with_player : Text → Text → Text → TriviaRoom → TriviaRoom
with_player session_id name user_id room =
    emit (system (name ++ text " joined the game")) (record room {
      state = record room.state {
        spectators = erase session_id room.state.spectators;
        owner = or_else room.state.owner session_id;
        players = put session_id (new_player user_id name) room.state.players;
      };
    })

abbrev pub with_spectator : Text → Text → TriviaRoom → TriviaRoom
with_spectator session_id name room = emit (system (name ++ text " is spectating")) (record room {
  state = record room.state { spectators = put session_id name room.state.spectators };
})

-- `Join`, for an account that is new to the room.
unfoldable pub fresh_join : Text → Text → Text → Bool → TriviaRoom → Dispatcher Command → Room
fresh_join session_id name user_id wants_player room d =
    if wants_player && (is_lobby room.state.phase && ltb (length room.state.players) max_players)
    then (let r = with_player session_id name user_id room in
        (sync_meta r, if length r.state.players == 1 then enqueue generate_questions d else d))
    else (if ltb (length room.state.spectators) max_spectators
        then (sync_meta (with_spectator session_id name room), d)
        else (sync_meta room, d))

abbrev pub join_as :
    Option Text → Text → Text → Text → Bool → TriviaRoom → Dispatcher Command → Room
join_as (some old) session_id name user_id wants_player room d =
    (take_over old session_id name room, d)
join_as none session_id name user_id wants_player room d =
    fresh_join session_id name user_id wants_player room d

-- `Join`
unfoldable pub run_join : Text → Text → Text → Bool → TriviaRoom → Dispatcher Command → Room
run_join session_id name user_id wants_player room d =
    join_as (stale_of user_id session_id room.state.players) session_id name user_id wants_player
      room d

abbrev pub first_key : {A : Type 0} → List (Text × A) → Option Text
first_key [] = none
first_key ((k, a) ∷ m) = some k

abbrev pub or_empty : Option Text → Text
or_empty none = []
or_empty (some name) = name

-- The room without a client, as `Leave` makes it.
abbrev pub without : Text → TriviaRoom → TriviaRoom
without session_id room =
    let players = erase session_id room.state.players in
    sync_meta (
      emit (system (or_empty (display_name room.state session_id) ++ text " left")) (record room {
        state = record room.state {
          players = players;
          spectators = erase session_id room.state.spectators;
          owner =
              if is_same room.state.owner session_id then first_key players else room.state.owner;
        };
      }))

abbrev pub is_in_game : Phase → Bool
is_in_game asking = true
is_in_game reveal = true
is_in_game generating = true
is_in_game _ = false

-- What `Leave` queues after a player.
unfoldable pub after_player : TriviaState → Dispatcher Command → Dispatcher Command
after_player s d =
    let e = if is_asking s.phase && all_answered s then enqueue end_round d else d in
    if length s.players == 0 && is_in_game s.phase then enqueue finish_game e else e

-- `Leave`
unfoldable pub run_leave : Text → TriviaRoom → Dispatcher Command → Room
run_leave session_id room d =
    let r = without session_id room in
    (r, if is_some (lookup session_id room.state.players) then after_player r.state d else d)

abbrev pub toggled : Text → TriviaRoom → TriviaRoom
toggled session_id room =
    with_state
      (λ s. record s {
        players = update_player (λ p. record p { ready = not p.ready }) session_id s.players;
      })
      room

-- `ToggleReady`
unfoldable pub run_toggle_ready : Text → TriviaRoom → Dispatcher Command → Room
run_toggle_ready session_id room d =
    if is_lobby room.state.phase then (toggled session_id room, d) else (room, d)

abbrev pub or_unknown : Option Text → Text
or_unknown none = text "???"
or_unknown (some name) = name

-- `Chat`
unfoldable pub run_chat : Text → Text → TriviaRoom → Dispatcher Command → Room
run_chat session_id message room d =
    (emit (chat_line (or_unknown (display_name room.state session_id)) (take 300 message)) room, d)

-- The room back in the lobby.
abbrev pub restarted : TriviaRoom → TriviaRoom
restarted room = sync_meta (
    emit (system (text "back to lobby — ready up!")) (record room {
      state = record room.state {
        phase = lobby;
        round = 0;
        question = none;
        correct_index = none;
        winners = [];
        players = map_players (λ p. new_player p.user_id p.name) room.state.players;
      };
      internal = record room.internal { pending_questions = []; correct_index = none };
    }))

-- `Restart`
unfoldable pub run_restart : Text → TriviaRoom → Dispatcher Command → Room
run_restart session_id room d =
    if is_finished room.state.phase && is_same room.state.owner session_id
    then (restarted room, enqueue generate_questions d)
    else (room, d)
