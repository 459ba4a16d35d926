-- ===== src/Tests/TriviaRuns.antt =====
-- Runs of the trivia demo.
use colyseus_rs.Base.{
  ℕ, nat_eq, text_eq, ◌⊎◌, ◌||◌, true, false, Option, none, some, Text, text, text_eqb, List, [],
  ◌∷◌, ◌≡◌, refl, arith,
}
use colyseus_rs.Base.Maps.{lookup, put, erase}
use colyseus_rs.Base.Result.{Result, ok, err}
use colyseus_rs.Json.{Value, string, object, done}
use colyseus_rs.Json.Map.{get, insert}
use colyseus_rs.Driver.Query.Params.{trim}
use colyseus_rs.Room.{ServerError}
use colyseus_rs.Demos.Trivia.{Output, metadata, lobby, ends_round}
use colyseus_rs.Demos.Trivia.{display_name}
use colyseus_rs.Demos.Trivia.Lobby.{run_leave, after_player}
use colyseus_rs.Demos.Trivia.Entry.{
  Claims, Created, on_auth, on_create, on_join, on_leave, str_at, authenticate, is_present,
  wants_player, room_is_full, resume_after_restore, resume_in,
}
use colyseus_rs.Demos.Trivia.Entry.Refused.{NoPlace, on_join_settles}
use colyseus_rs.Command.{Dispatcher, enqueue, drain}
use colyseus_rs.Demos.Trivia.{
  PlayerState, new_player, Phase, asking, reveal, finished, Question, TriviaState, new_state,
  TriviaInternal, TriviaRoom, Command, start_round, answer, leave, advance,
}
use colyseus_rs.Demos.Trivia.Run.{execute, dispatched}
use colyseus_rs.Demos.Trivia.Secret.{Safe}
use colyseus_rs.Demos.Trivia.Kept.{dispatched-Safe}
use colyseus_rs.Command.Laws.{is_empty}

abbrev one_question : Question
one_question = record { content = text "q"; choices = []; answer_index = 2 }

abbrev no_secrets : TriviaInternal
no_secrets = record {
  password = none;
  correct_index = none;
  round_answers = [];
  pending_questions = (1, one_question) ∷ (2, one_question) ∷ [];
  batch_in_flight = false;
  needed_round = none;
}

abbrev player : Text → Text × PlayerState
player id = (id, new_player id id)

abbrev room_of : TriviaState → TriviaRoom
room_of s = record {
  state = s;
  internal = no_secrets;
  clients = [];
  round_timer = none;
  break_timer = none;
  timers = [];
  next_timer_id = 0;
  now_millis = 0;
  asked = [];
  sent = [];
}

abbrev three_players : TriviaState
three_players = record (new_state (text "easy") []) {
  players = player (text "a") ∷ player (text "b") ∷ player (text "c") ∷ [];
}

abbrev queued : List Command → Dispatcher Command
queued cs = record { queue = cs; stopped = false }

dispatched-Safe_example :
    (end : TriviaRoom × Dispatcher Command) × (dispatched 4 (start_round 1) (room_of three_players)
      ≡ some end)
    × ((end.1.stopped || is_empty end.1.queue) ≡ true)
    × Safe end
dispatched-Safe_example =
    dispatched-Safe (start_round 1) (room_of three_players)
      (record { hidden = λ asks. refl; in_range = omega arith }) (omega arith)

abbrev phase_of : Option (TriviaRoom × Dispatcher Command) → Option Phase
phase_of none = none
phase_of (some r) = some r.0.state.phase

-- The answer of a player who has left still counts, so the round ends before the third player answers.
departed_answer_counts :
    phase_of (
      drain execute 9 (room_of three_players) (
        queued (start_round 1 ∷ answer (text "a") 2 ∷ leave (text "a") ∷ answer (text "b") 2 ∷ [])))
    ≡ some reveal
unfolding drain execute colyseus_rs.Demos.Trivia.Rounds.run_start_round
    colyseus_rs.Demos.Trivia.Rounds.find_question colyseus_rs.Demos.Trivia.Rounds.run_answer lookup
    text_eqb put colyseus_rs.Demos.Trivia.Lobby.run_leave
    colyseus_rs.Demos.Trivia.Lobby.after_player erase enqueue
    colyseus_rs.Demos.Trivia.Rounds.run_end_round
departed_answer_counts = refl

-- The break timer of a game that everybody has left starts its next round.
finished_game_advances :
    phase_of (
      drain execute 9
        (room_of (record three_players { players = []; phase = finished; round = 1 }))
        (queued (advance ∷ [])))
    ≡ some asking
unfolding drain execute colyseus_rs.Demos.Trivia.Rounds.run_advance enqueue
    colyseus_rs.Demos.Trivia.Rounds.run_start_round colyseus_rs.Demos.Trivia.Rounds.find_question
finished_game_advances = refl

abbrev created_listing : Result ServerError Created → Option Output
created_listing (ok c) = some c.listing
created_listing (err e) = none

abbrev no_options : Value ℕ
no_options = object done

on_join_settles_example :
    (r : TriviaRoom × Result ServerError Unit) × (on_join 4
        (text "d")
        no_options
        none
        (room_of three_players)
      ≡ some r)
    × (((r.1 ≡ ok tt) × (is_present (text "d") r.0.state ≡ true))
        ⊎ ((r.1 ≡ err room_is_full)
            × NoPlace (wants_player no_options) three_players
            × (r.0.state ≡ three_players)))
on_join_settles_example = on_join_settles (text "d") no_options none (room_of three_players)

-- A room with a password.
abbrev options_with : Text → Value ℕ
options_with password = object (insert (text "password") (string password) done)

abbrev guarded : TriviaRoom
guarded = record (room_of three_players) {
  internal = record no_secrets { password = some (text "s3cret") };
}

abbrev tester : Text → Option Claims
tester token = some (record { sub = text "u1"; name = text "tester" })

wrong_password :
    on_auth tester guarded (options_with (text "nope")) (some (text "jwt"))
    ≡ err (record { code = 525; message = text "wrong password" })
unfolding on_auth str_at authenticate insert get text_eqb
wrong_password = refl

given_password :
    on_auth tester guarded (options_with (text "s3cret")) (some (text "jwt"))
    ≡ on_auth tester (room_of three_players) (options_with []) (some (text "jwt"))
unfolding on_auth str_at authenticate insert get text_eqb
given_password = refl

-- A restored room sets its timer for the time that the round has left.
resumed_timer :
    resume_after_restore 4
      (record (room_of (record three_players { phase = asking; phase_ends_at = some 900 })) {
        now_millis = 700;
      })
    ≡ some (record (room_of (record three_players { phase = asking; phase_ends_at = some 900 })) {
      now_millis = 700;
      timers = (0, (900, ends_round)) ∷ [];
      next_timer_id = 1;
      round_timer = some 0;
    })
unfolding resume_after_restore resume_in
resumed_timer = refl

created_password :
    created_listing (on_create (options_with (text " x "))) ≡ some (metadata lobby 0 0 0 true)
unfolding on_create str_at insert get text_eqb trim
created_password = refl

left_alone : phase_of (on_leave 4 (text "z") (room_of three_players)) ≡ some lobby
unfolding on_leave dispatched drain execute enqueue run_leave after_player display_name lookup
    text_eqb
left_alone = refl
