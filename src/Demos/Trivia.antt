-- ===== src/Demos/Trivia.antt =====
-- demos/trivia/server/src: a room that plays rounds of questions. Its public state is in state.rs, its
-- commands in commands/, which the dispatcher of the library runs.
pub mod Lobby
pub mod Rounds
pub mod Run
pub mod Secret
pub mod Wears
pub mod Kept
pub mod Entry
use colyseus_rs.Base.{
  ℕ, zero, suc, ◌+◌, ◌-◌, Bool, true, false, not, Option, none, some, Text, text, List, [], ◌∷◌,
  ◌++◌, ◌==◌, nat_eq, text_eq, length, retain, if◌then◌else◌,
}
use colyseus_rs.Base.Maps.{lookup, put, erase}

abbrev pub total_rounds : ℕ
total_rounds = 3

abbrev pub round_time : ℕ
round_time = 20000

abbrev pub reveal_break : ℕ
reveal_break = 5000

abbrev pub max_players : ℕ
max_players = 4

abbrev pub max_spectators : ℕ
max_spectators = 10

unfoldable pub points_for : Text → ℕ
points_for difficulty =
    if difficulty == text "medium" then 20 else (if difficulty == text "hard" then 30 else 10)

-- The score is an i64 that only grows, by at most 30 a round.
pub record PlayerState : Type 0 where
  pub user_id : Text
  pub name : Text
  pub ready : Bool
  pub score : ℕ
  pub correct_count : ℕ
  pub answered : Bool
  pub choice : Option ℕ

abbrev pub new_player : Text → Text → PlayerState
new_player user_id name = record {
  user_id = user_id;
  name = name;
  ready = false;
  score = 0;
  correct_count = 0;
  answered = false;
  choice = none;
}

pub data Phase : Type 0 where
  lobby generating asking reveal finished : Phase

pub record Question : Type 0 where
  pub content : Text
  pub choices : List Text
  pub answer_index : ℕ

pub record QuestionPublic : Type 0 where
  pub content : Text
  pub choices : List Text

-- The field `total_rounds` is always the constant.
pub record TriviaState : Type 0 where
  pub difficulty : Text
  pub category : Text
  pub phase : Phase
  pub round : ℕ
  pub owner : Option Text
  pub players : List (Text × PlayerState)
  pub spectators : List (Text × Text)
  pub question : Option QuestionPublic
  pub correct_index : Option ℕ
  pub phase_ends_at : Option ℕ
  pub answers_in : ℕ
  pub winners : List Text
  pub has_password : Bool

abbrev pub new_state : Text → Text → TriviaState
new_state difficulty category = record {
  difficulty = difficulty;
  category = category;
  phase = lobby;
  round = 0;
  owner = none;
  players = [];
  spectators = [];
  question = none;
  correct_index = none;
  phase_ends_at = none;
  answers_in = 0;
  winners = [];
  has_password = false;
}

-- The name of a player, else of a spectator.
abbrev pub name_in : Option PlayerState → Option Text → Option Text
name_in none spectator = spectator
name_in (some p) spectator = some p.name

unfoldable pub display_name : TriviaState → Text → Option Text
display_name s session_id = name_in (lookup session_id s.players) (lookup session_id s.spectators)

pub record TriviaInternal : Type 0 where
  pub password : Option Text
  pub correct_index : Option ℕ
  pub round_answers : List (Text × ℕ)
  pub pending_questions : List (ℕ × Question)
  pub batch_in_flight : Bool
  pub needed_round : Option ℕ

-- The callbacks of the timers that commands set.
pub data Alarm : Type 0 where
  ends_round advances : Alarm

pub data Command : Type 0 where
  start_game : Text → Command
  answer : Text → ℕ → Command
  generate_questions : Command
  questions_ready : List Question → Command
  start_round : ℕ → Command
  end_round advance finish_game : Command
  -- Session id, name, user id, and whether the client wants to play.
  join : Text → Text → Text → Bool → Command
  leave : Text → Command
  toggle_ready : Text → Command
  chat : Text → Text → Command
  restart : Text → Command

pub data Output : Type 0 where
  system : Text → Output
  chat_line : Text → Text → Output
  client_error : Text → Text → Output
  sent_away : Text → Output
  -- The game of this difficulty and category wants questions.
  batch_wanted : Text → Text → Output
  game_finished : List (Text × PlayerState) → Output
  metadata : Phase → ℕ → ℕ → ℕ → Bool → Output

-- The room with what its context holds, and what commands have sent.
pub record TriviaRoom : Type 0 where
  pub state : TriviaState
  pub internal : TriviaInternal
  pub clients : List Text
  pub round_timer : Option ℕ
  pub break_timer : Option ℕ
  pub timers : List (ℕ × (ℕ × Alarm))
  pub next_timer_id : ℕ
  pub now_millis : ℕ
  pub asked : List Text
  pub sent : List Output

abbrev pub emit : Output → TriviaRoom → TriviaRoom
emit out room = record room { sent = room.sent ++ (out ∷ []) }

abbrev pub with_state : (TriviaState → TriviaState) → TriviaRoom → TriviaRoom
with_state f room = record room { state = f room.state }

abbrev pub with_internal : (TriviaInternal → TriviaInternal) → TriviaRoom → TriviaRoom
with_internal f room = record room { internal = f room.internal }

-- `ctx.set_timeout`; its id is `next_timer_id` before.
abbrev pub set_timeout : ℕ → Alarm → TriviaRoom → TriviaRoom
set_timeout delay alarm room = record room {
  timers = room.timers ++ ((room.next_timer_id, (room.now_millis + delay, alarm)) ∷ []);
  next_timer_id = room.next_timer_id + 1;
}

abbrev pub clear_timeout : Option ℕ → TriviaRoom → TriviaRoom
clear_timeout none room = room
clear_timeout (some id) room = record room { timers = retain (λ t. not (t.0 == id)) room.timers }

abbrev pub sync_meta : TriviaRoom → TriviaRoom
sync_meta room =
    let s = room.state in
    emit (metadata s.phase s.round (length s.players) (length s.spectators) s.has_password) room

-- A change of every player.
abbrev pub map_players :
    (PlayerState → PlayerState) → List (Text × PlayerState) → List (Text × PlayerState)
map_players f [] = []
map_players f ((k, p) ∷ players) = (k, f p) ∷ map_players f players

abbrev pub change_player :
    (PlayerState → PlayerState)
    → Text
    → Option PlayerState
    → List (Text × PlayerState)
    → List (Text × PlayerState)
change_player f session_id none players = players
change_player f session_id (some p) players = put session_id (f p) players

-- `players.get_mut`, with a change of the player that it finds.
abbrev pub update_player :
    (PlayerState → PlayerState) → Text → List (Text × PlayerState) → List (Text × PlayerState)
update_player f session_id players = change_player f session_id (lookup session_id players) players

abbrev pub is_lobby : Phase → Bool
is_lobby lobby = true
is_lobby _ = false

abbrev pub is_asking : Phase → Bool
is_asking asking = true
is_asking _ = false

abbrev pub is_generating : Phase → Bool
is_generating generating = true
is_generating _ = false

abbrev pub is_finished : Phase → Bool
is_finished finished = true
is_finished _ = false

abbrev pub is_same : Option Text → Text → Bool
is_same none session_id = false
is_same (some owner) session_id = owner == session_id
