-- ===== src/Demos/Trivia/Rounds.antt =====
-- The commands of demos/trivia/server/src/commands/round.rs. Each takes the room and the dispatcher, and
-- returns both.
use colyseus_rs.Base.{
  ℕ, ◌+◌, ◌&&◌, ◌||◌, not, Bool, true, false, Option, none, some, Text, text, List, [], ◌∷◌, ◌++◌,
  ◌==◌, nat_eq, text_eq, if◌then◌else◌, leb, length, any, map, retain, max,
}
use colyseus_rs.Base.Maps.{lookup, put}
use colyseus_rs.Command.{Dispatcher, enqueue}
use colyseus_rs.Demos.Trivia.{
  total_rounds, round_time, reveal_break, points_for, PlayerState, generating, asking, reveal,
  finished, Question, TriviaState, TriviaRoom, ends_round, advances, Command, generate_questions,
  start_round, end_round, finish_game, client_error, batch_wanted, game_finished, emit,
  with_internal, set_timeout, clear_timeout, sync_meta, map_players, update_player, is_lobby,
  is_asking, is_generating, is_finished, is_same,
}

abbrev pub Room : Type 0
Room = TriviaRoom × Dispatcher Command

abbrev pub is_empty : {A : Type 0} → List A → Bool
is_empty [] = true
is_empty _ = false

-- The first reason why the owner cannot start the game.
unfoldable pub start_error : TriviaState → Text → Option Text
start_error s session_id =
    if not (is_lobby s.phase)
    then some (text "game already started")
    else (if not (is_same s.owner session_id)
        then some (text "only the room owner can start")
        else (if is_empty s.players
            then some (text "no players")
            else (if any (λ p. not p.1.ready) s.players
                then some (text "everyone must be ready")
                else none)))

abbrev pub start_unless : Text → Option Text → TriviaRoom → Dispatcher Command → Room
start_unless session_id (some message) room d = (emit (client_error session_id message) room, d)
start_unless session_id none room d = (room, enqueue (start_round 1) d)

-- `StartGame`
unfoldable pub run_start_game : Text → TriviaRoom → Dispatcher Command → Room
run_start_game session_id room d =
    start_unless session_id (start_error room.state session_id) room d

abbrev pub has_answered : Option PlayerState → Bool
has_answered none = true
has_answered (some p) = p.answered

-- Whether as many answers are in as there are players.
abbrev pub all_answered : TriviaState → Bool
all_answered s = not (is_empty s.players) && leb (length s.players) s.answers_in

-- The room once an answer is taken.
abbrev pub with_answer : Text → ℕ → TriviaRoom → TriviaRoom
with_answer session_id choice room = record room {
  state = record room.state {
    players = update_player (λ p. record p { answered = true }) session_id room.state.players;
    answers_in = room.state.answers_in + 1;
  };
  internal = record room.internal {
    round_answers = put session_id choice room.internal.round_answers;
  };
}

-- `Answer`
unfoldable pub run_answer : Text → ℕ → TriviaRoom → Dispatcher Command → Room
run_answer session_id choice room d =
    if not (is_asking room.state.phase)
      || leb 4 choice
      || has_answered (lookup session_id room.state.players)
    then (room, d)
    else (let r = with_answer session_id choice room in
        (r, if all_answered r.state then enqueue end_round d else d))

abbrev pub requested : TriviaRoom → TriviaRoom
requested room =
    emit (batch_wanted room.state.difficulty room.state.category)
      (with_internal (λ i. record i { batch_in_flight = true }) room)

-- `GenerateQuestions`; the batch comes back as `QuestionsReady`.
unfoldable pub run_generate_questions : TriviaRoom → Dispatcher Command → Room
run_generate_questions room d =
    if room.internal.batch_in_flight || leb total_rounds (length room.internal.pending_questions)
    then (room, d)
    else (requested room, d)

unfoldable pub find_question : ℕ → List (ℕ × Question) → Option Question
find_question round [] = none
find_question round ((r, q) ∷ qs) = if round == r then some q else find_question round qs

abbrev pub drop_question : ℕ → List (ℕ × Question) → List (ℕ × Question)
drop_question round qs = retain (λ q. not (round == q.0)) qs

-- The questions of a batch, numbered from `i`, over those of the same round.
unfoldable pub insert_questions : ℕ → List Question → List (ℕ × Question) → List (ℕ × Question)
insert_questions i [] pending = pending
insert_questions i (q ∷ qs) pending = insert_questions (i + 1) qs ((i, q) ∷ drop_question i pending)

abbrev pub is_first : Option ℕ → Bool
is_first none = false
is_first (some round) = round == 1

abbrev pub with_questions : List Question → TriviaRoom → TriviaRoom
with_questions questions room = record room {
  asked = room.asked ++ map (λ q. q.content) questions;
  internal = record room.internal {
    batch_in_flight = false;
    pending_questions = insert_questions 1 questions room.internal.pending_questions;
  };
}

abbrev pub no_longer_waiting : TriviaRoom → TriviaRoom
no_longer_waiting room = with_internal (λ i. record i { needed_round = none }) room

-- `QuestionsReady`
unfoldable pub run_questions_ready : List Question → TriviaRoom → Dispatcher Command → Room
run_questions_ready questions room d =
    let r = with_questions questions room in
    if is_first r.internal.needed_round && is_generating r.state.phase
    then (no_longer_waiting r, enqueue (start_round 1) d)
    else (r, d)

-- `StartRound` where its question is not there.
abbrev pub wait_for_questions : ℕ → TriviaRoom → Dispatcher Command → Room
wait_for_questions round room d = (
  sync_meta (record room {
    state = record room.state { phase = generating; phase_ends_at = none };
    internal = record room.internal { needed_round = some round };
  }),
  if room.internal.batch_in_flight then d else enqueue generate_questions d,
)

-- `StartRound` with its question, whose answer stays internal.
abbrev pub ask : ℕ → Question → TriviaRoom → TriviaRoom
ask round q room = sync_meta (
    set_timeout round_time ends_round (record room {
      state = record room.state {
        phase = asking;
        round = round;
        question = some (record { content = q.content; choices = q.choices });
        correct_index = none;
        answers_in = 0;
        phase_ends_at = some (room.now_millis + round_time);
        players =
            map_players (λ p. record p { answered = false; choice = none }) room.state.players;
      };
      internal = record room.internal {
        pending_questions = drop_question round room.internal.pending_questions;
        correct_index = some q.answer_index;
        round_answers = [];
      };
      round_timer = some room.next_timer_id;
    }))

abbrev pub ask_or_wait : ℕ → Option Question → TriviaRoom → Dispatcher Command → Room
ask_or_wait round none room d = wait_for_questions round room d
ask_or_wait round (some q) room d = (ask round q room, d)

-- `StartRound`
unfoldable pub run_start_round : ℕ → TriviaRoom → Dispatcher Command → Room
run_start_round round room d =
    ask_or_wait round (find_question round room.internal.pending_questions) room d

abbrev pub is_correct : ℕ → Option ℕ → Bool
is_correct choice none = false
is_correct choice (some correct) = choice == correct

-- What a player's choice earns.
abbrev pub graded : ℕ → Option ℕ → ℕ → PlayerState → PlayerState
graded points correct choice p =
    if is_correct choice correct
    then record p {
      choice = some choice;
      score = p.score + points;
      correct_count = p.correct_count + 1;
    }
    else record p { choice = some choice }

unfoldable pub grade :
    ℕ → Option ℕ → List (Text × ℕ) → List (Text × PlayerState) → List (Text × PlayerState)
grade points correct [] players = players
grade points correct ((session_id, choice) ∷ answers) players =
    grade points correct answers (update_player (graded points correct choice) session_id players)

-- The room once the answer is revealed, and the break begins.
abbrev pub revealed : TriviaRoom → TriviaRoom
revealed room =
    let r = clear_timeout room.round_timer (record room { round_timer = none }) in
    set_timeout reveal_break advances (record r {
      state = record room.state {
        phase = reveal;
        correct_index = room.internal.correct_index;
        phase_ends_at = some (room.now_millis + reveal_break);
        players =
            grade (points_for room.state.difficulty) room.internal.correct_index
              room.internal.round_answers room.state.players;
      };
      internal = record room.internal { round_answers = [] };
      break_timer = some room.next_timer_id;
    })

-- `EndRound`
unfoldable pub run_end_round : TriviaRoom → Dispatcher Command → Room
run_end_round room d = if is_asking room.state.phase then (revealed room, d) else (room, d)

-- `Advance`
unfoldable pub run_advance : TriviaRoom → Dispatcher Command → Room
run_advance room d =
    if leb total_rounds room.state.round
    then (room, enqueue finish_game d)
    else (room, enqueue (start_round (room.state.round + 1)) d)

unfoldable pub best_score : List (Text × PlayerState) → ℕ
best_score [] = 0
best_score ((k, p) ∷ players) = max p.score (best_score players)

unfoldable pub winners_of : ℕ → List (Text × PlayerState) → List Text
winners_of best [] = []
winners_of best ((k, p) ∷ players) =
    let rest = winners_of best players in if p.score == best then p.name ∷ rest else rest

-- The room once the game is over.
abbrev pub closed : TriviaRoom → TriviaRoom
closed room = sync_meta (
    emit (game_finished room.state.players) (record room {
      state = record room.state {
        phase = finished;
        question = none;
        phase_ends_at = none;
        winners = winners_of (best_score room.state.players) room.state.players;
      };
    }))

-- `FinishGame`
unfoldable pub run_finish_game : TriviaRoom → Dispatcher Command → Room
run_finish_game room d = if is_finished room.state.phase then (room, d) else (closed room, d)
