-- ===== src/Demos/Trivia/Run.antt =====
-- `execute` of each command of demos/trivia/server/src/commands, and the dispatcher that runs them.
use colyseus_rs.Base.{ℕ, Option}
use colyseus_rs.Command.{Dispatcher, drain, enqueue, new}
use colyseus_rs.Demos.Trivia.{
  TriviaRoom, Command, start_game, answer, generate_questions, questions_ready, start_round,
  end_round, advance, finish_game, join, leave, toggle_ready, chat, restart,
}
use colyseus_rs.Demos.Trivia.Lobby.{run_join, run_leave, run_toggle_ready, run_chat, run_restart}
use colyseus_rs.Demos.Trivia.Rounds.{
  Room, run_start_game, run_answer, run_generate_questions, run_questions_ready, run_start_round,
  run_end_round, run_advance, run_finish_game,
}

unfoldable pub execute : Command → TriviaRoom → Dispatcher Command → Room
execute (start_game session_id) room d = run_start_game session_id room d
execute (answer session_id choice) room d = run_answer session_id choice room d
execute generate_questions room d = run_generate_questions room d
execute (questions_ready questions) room d = run_questions_ready questions room d
execute (start_round round) room d = run_start_round round room d
execute end_round room d = run_end_round room d
execute advance room d = run_advance room d
execute finish_game room d = run_finish_game room d
execute (join session_id name user_id wants_player) room d =
    run_join session_id name user_id wants_player room d
execute (leave session_id) room d = run_leave session_id room d
execute (toggle_ready session_id) room d = run_toggle_ready session_id room d
execute (chat session_id message) room d = run_chat session_id message room d
execute (restart session_id) room d = run_restart session_id room d

-- `dispatch` of a command to a room whose dispatcher is not stopped and has nothing queued.
unfoldable pub dispatched : ℕ → Command → TriviaRoom → Option (TriviaRoom × Dispatcher Command)
dispatched fuel c room = drain execute fuel room (enqueue c new)
