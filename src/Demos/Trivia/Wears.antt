-- ===== src/Demos/Trivia/Wears.antt =====
-- No command of demos/trivia/server/src/commands queues commands without end: each leaves less weight in the
-- queue than it found with its own.
use colyseus_rs.Base.{
  ℕ, ◌+◌, ◌≤◌, ◌<◌, ◌&&◌, ◌||◌, ◌==◌, nat_eq, not, Bool, true, false, Option, none, some, Text,
  List, [], ◌∷◌, ◌++◌, if◌then◌else◌, leb, ltb, length, ◌≡◌, arith,
}
use colyseus_rs.Base.Maps.{lookup, is_some}
use colyseus_rs.Command.{Dispatcher, enqueue}
use colyseus_rs.Command.Laws.{total}
use colyseus_rs.Demos.Trivia.{
  total_rounds, TriviaState, TriviaRoom, Question, Command, start_game, answer, generate_questions,
  questions_ready, start_round, end_round, advance, finish_game, join, leave, toggle_ready, chat,
  restart, is_asking, is_lobby, is_generating, is_finished, is_same, max_players, max_spectators,
  sync_meta,
}
use colyseus_rs.Demos.Trivia.Lobby.{
  after_player, with_player, with_spectator, without, is_in_game, toggled, restarted, join_as,
  stale_of, fresh_join, run_join, run_leave, run_toggle_ready, run_chat, run_restart,
}
use colyseus_rs.Demos.Trivia.Rounds.{
  Room, with_answer, all_answered, has_answered, requested, with_questions, no_longer_waiting,
  is_first, revealed, closed, start_error, start_unless, run_start_game, run_answer,
  run_generate_questions, run_questions_ready, ask_or_wait, find_question, run_start_round,
  run_end_round, run_advance, run_finish_game,
}
use colyseus_rs.Demos.Trivia.Run.{execute}

abbrev pub weight : Command → ℕ
weight (start_game session_id) = 3
weight (answer session_id choice) = 2
weight generate_questions = 1
weight (questions_ready questions) = 3
weight (start_round round) = 2
weight end_round = 1
weight advance = 3
weight finish_game = 1
weight (join session_id name user_id wants_player) = 2
weight (leave session_id) = 3
weight (toggle_ready session_id) = 1
weight (chat session_id message) = 1
weight (restart session_id) = 2

total-end :
    (cs : List Command) (c : Command) → total weight (cs ++ (c ∷ [])) ≡ weight c + total weight cs
total-end [] c = omega arith
total-end (e ∷ cs) c = omega (arith, total-end cs c)

total-if :
    (b : Bool) (c d : Dispatcher Command) (n : ℕ)
    → total weight c.queue ≤ n
    → total weight d.queue ≤ n
    → total weight (if b then c else d).queue ≤ n
total-if true c d n a b = a
total-if false c d n a b = b

total-enqueue :
    (c : Command) (d : Dispatcher Command)
    → total weight (enqueue c d).queue ≤ weight c + total weight d.queue
unfolding enqueue
total-enqueue c d =
    total-if d.stopped d (record d { queue = d.queue ++ (c ∷ []) })
      (weight c + total weight d.queue) (omega arith) (omega (arith, total-end d.queue c))

if_total :
    (b : Bool) (r s : Room) (n : ℕ)
    → total weight r.1.queue ≤ n
    → total weight s.1.queue ≤ n
    → total weight (if b then r else s).1.queue ≤ n
if_total true r s n a b = a
if_total false r s n a b = b

module _ (room : TriviaRoom) (d : Dispatcher Command) where
  abbrev load : ℕ
  load = total weight d.queue

  same_load : (n : ℕ) → total weight d.queue ≤ n + total weight d.queue
  same_load n = omega arith

  start_unless-total :
      (session_id : Text) (o : Option Text)
      → total weight (start_unless session_id o room d).1.queue ≤ 2 + load
  start_unless-total session_id (some message) = same_load 2
  start_unless-total session_id none = total-enqueue (start_round 1) d

  run_answer-total :
      (session_id : Text) (choice : ℕ)
      → total weight (run_answer session_id choice room d).1.queue ≤ 1 + load
  unfolding run_answer
  run_answer-total session_id choice =
      let r = with_answer session_id choice room in
      if_total
        (not (is_asking room.state.phase)
          || leb 4 choice
          || has_answered (lookup session_id room.state.players))
        (room, d) (r, if all_answered r.state then enqueue end_round d else d) (1 + load)
        (same_load 1)
        (total-if (all_answered r.state) (enqueue end_round d) d (1 + load)
          (total-enqueue end_round d) (same_load 1))

  run_generate_questions-total : total weight (run_generate_questions room d).1.queue ≤ 0 + load
  unfolding run_generate_questions
  run_generate_questions-total =
      if_total
        (room.internal.batch_in_flight || leb total_rounds (length room.internal.pending_questions))
        (room, d) (requested room, d) (0 + load) (same_load 0) (same_load 0)

  run_questions_ready-total :
      (questions : List Question)
      → total weight (run_questions_ready questions room d).1.queue ≤ 2 + load
  unfolding run_questions_ready
  run_questions_ready-total questions =
      let r = with_questions questions room in
      if_total (is_first r.internal.needed_round && is_generating r.state.phase)
        (no_longer_waiting r, enqueue (start_round 1) d) (r, d) (2 + load)
        (total-enqueue (start_round 1) d) (same_load 2)

  ask_or_wait-total :
      (round : ℕ) (o : Option Question)
      → total weight (ask_or_wait round o room d).1.queue ≤ 1 + load
  ask_or_wait-total round none =
      total-if room.internal.batch_in_flight d (enqueue generate_questions d) (1 + load)
        (same_load 1) (total-enqueue generate_questions d)
  ask_or_wait-total round (some q) = same_load 1

  run_end_round-total : total weight (run_end_round room d).1.queue ≤ 0 + load
  unfolding run_end_round
  run_end_round-total =
      if_total (is_asking room.state.phase) (revealed room, d) (room, d) (0 + load) (same_load 0)
        (same_load 0)

  run_advance-total : total weight (run_advance room d).1.queue ≤ 2 + load
  unfolding run_advance
  run_advance-total =
      let next = start_round (room.state.round + 1) in
      if_total (leb total_rounds room.state.round) (room, enqueue finish_game d)
        (room, enqueue next d) (2 + load) (omega (arith, total-enqueue finish_game d))
        (total-enqueue next d)

  run_finish_game-total : total weight (run_finish_game room d).1.queue ≤ 0 + load
  unfolding run_finish_game
  run_finish_game-total =
      if_total (is_finished room.state.phase) (room, d) (closed room, d) (0 + load) (same_load 0)
        (same_load 0)

  fresh_join-total :
      (session_id name user_id : Text) (wants : Bool)
      → total weight (fresh_join session_id name user_id wants room d).1.queue ≤ 1 + load
  unfolding fresh_join
  fresh_join-total session_id name user_id wants =
      let r = with_player session_id name user_id room in
      let first_player = length r.state.players == 1 in
      let spectators = with_spectator session_id name room in
      if_total (wants && (is_lobby room.state.phase && ltb (length room.state.players) max_players))
        (sync_meta r, if first_player then enqueue generate_questions d else d)
        (if ltb (length room.state.spectators) max_spectators
          then (sync_meta spectators, d)
          else (sync_meta room, d))
        (1 + load)
        (total-if first_player (enqueue generate_questions d) d (1 + load)
          (total-enqueue generate_questions d) (same_load 1))
        (if_total (ltb (length room.state.spectators) max_spectators) (sync_meta spectators, d)
          (sync_meta room, d) (1 + load) (same_load 1) (same_load 1))

  join_as-total :
      (o : Option Text) (session_id name user_id : Text) (wants : Bool)
      → total weight (join_as o session_id name user_id wants room d).1.queue ≤ 1 + load
  join_as-total (some old) session_id name user_id wants = same_load 1
  join_as-total none session_id name user_id wants = fresh_join-total session_id name user_id wants

  after_player-total : (s : TriviaState) → total weight (after_player s d).queue ≤ 2 + load
  unfolding after_player
  after_player-total s =
      let ends = is_asking s.phase && all_answered s in
      let e = if ends then enqueue end_round d else d in
      let ended =
        total-if ends (enqueue end_round d) d (1 + load) (total-enqueue end_round d)
          (same_load 1) in
      total-if (length s.players == 0 && is_in_game s.phase) (enqueue finish_game e) e (2 + load)
        (omega (arith, total-enqueue finish_game e, ended)) (omega (arith, ended))

  run_leave-total :
      (session_id : Text) → total weight (run_leave session_id room d).1.queue ≤ 2 + load
  unfolding run_leave
  run_leave-total session_id =
      let s = (without session_id room).state in
      total-if (is_some (lookup session_id room.state.players)) (after_player s d) d (2 + load)
        (after_player-total s) (same_load 2)

  run_toggle_ready-total :
      (session_id : Text) → total weight (run_toggle_ready session_id room d).1.queue ≤ 0 + load
  unfolding run_toggle_ready
  run_toggle_ready-total session_id =
      if_total (is_lobby room.state.phase) (toggled session_id room, d) (room, d) (0 + load)
        (same_load 0) (same_load 0)

  run_restart-total :
      (session_id : Text) → total weight (run_restart session_id room d).1.queue ≤ 1 + load
  unfolding run_restart
  run_restart-total session_id =
      if_total (is_finished room.state.phase && is_same room.state.owner session_id)
        (restarted room, enqueue generate_questions d) (room, d) (1 + load)
        (total-enqueue generate_questions d) (same_load 1)

-- Each command leaves less weight in the queue than it found with its own.
pub execute-total :
    (c : Command) (room : TriviaRoom) (d : Dispatcher Command)
    → total weight (execute c room d).1.queue < weight c + total weight d.queue
unfolding execute run_start_game run_start_round run_join run_chat
execute-total (start_game session_id) room d =
    omega (arith, start_unless-total room d session_id (start_error room.state session_id))
execute-total (answer session_id choice) room d =
    omega (arith, run_answer-total room d session_id choice)
execute-total generate_questions room d = omega (arith, run_generate_questions-total room d)
execute-total (questions_ready questions) room d =
    omega (arith, run_questions_ready-total room d questions)
execute-total (start_round round) room d =
    omega
      (arith, ask_or_wait-total room d round (find_question round room.internal.pending_questions))
execute-total end_round room d = omega (arith, run_end_round-total room d)
execute-total advance room d = omega (arith, run_advance-total room d)
execute-total finish_game room d = omega (arith, run_finish_game-total room d)
execute-total (join session_id name user_id wants) room d = omega (
  arith,
  join_as-total room d (stale_of user_id session_id room.state.players) session_id name user_id
      wants,
)
execute-total (leave session_id) room d = omega (arith, run_leave-total room d session_id)
execute-total (toggle_ready session_id) room d =
    omega (arith, run_toggle_ready-total room d session_id)
execute-total (chat session_id message) room d = omega (arith, same_load room d 0)
execute-total (restart session_id) room d = omega (arith, run_restart-total room d session_id)
