-- ===== src/Demos/Trivia/Kept.antt =====
-- The answer of the open question of demos/trivia/server/src stays internal through a whole drain of the
-- dispatcher.
use colyseus_rs.Base.{
  ◌<◌, arith, ◌||◌, ℕ, zero, suc, Bool, true, false, Option, some, List, [], ◌∷◌, All, nat_eq, ◌≡◌,
  refl, subst,
}
use colyseus_rs.Command.{Dispatcher, drain, enqueue, next}
use colyseus_rs.Demos.Trivia.{
  TriviaRoom, Command, start_game, answer, generate_questions, questions_ready, start_round,
  end_round, advance, finish_game, join, leave, toggle_ready, chat, restart,
}
use colyseus_rs.Demos.Trivia.Lobby.{stale_of, run_join, run_chat}
use colyseus_rs.Demos.Trivia.Rounds.{
  Room, start_error, run_start_game, find_question, run_start_round,
}
use colyseus_rs.Demos.Trivia.Run.{execute, dispatched}
use colyseus_rs.Command.Laws.{is_empty, total, drain-Drained}
use colyseus_rs.Demos.Trivia.Wears.{weight, execute-total}
use colyseus_rs.Demos.Trivia.Secret.{
  Hides, InRange, Queued, Safe, start_unless-Safe, run_answer-Safe, run_generate_questions-Safe,
  run_questions_ready-Safe, ask_or_wait-Safe, run_end_round-Safe, run_advance-Safe,
  run_finish_game-Safe, join_as-Safe, run_leave-Safe, run_toggle_ready-Safe, run_restart-Safe,
}

-- Each command keeps the room safe.
execute-Safe :
    (c : Command) (room : TriviaRoom) (d : Dispatcher Command)
    → Hides room.state
    → Queued d
    → InRange c
    → Safe (execute c room d)
unfolding execute run_start_game run_start_round run_join run_chat
execute-Safe (start_game session_id) room d h q p =
    start_unless-Safe room d h q session_id (start_error room.state session_id)
execute-Safe (answer session_id choice) room d h q p = run_answer-Safe room d h q session_id choice
execute-Safe generate_questions room d h q p = run_generate_questions-Safe room d h q
execute-Safe (questions_ready questions) room d h q p =
    run_questions_ready-Safe room d h q questions
execute-Safe (start_round round) room d h q p =
    ask_or_wait-Safe room d h q round (find_question round room.internal.pending_questions) p
execute-Safe end_round room d h q p = run_end_round-Safe room d h q
execute-Safe advance room d h q p = run_advance-Safe room d h q
execute-Safe finish_game room d h q p = run_finish_game-Safe room d h q
execute-Safe (join session_id name user_id wants) room d h q p =
    join_as-Safe room d h q (stale_of user_id session_id room.state.players) session_id name user_id
      wants
execute-Safe (leave session_id) room d h q p = run_leave-Safe room d h q session_id
execute-Safe (toggle_ready session_id) room d h q p = run_toggle_ready-Safe room d h q session_id
execute-Safe (chat session_id message) room d h q p = record { hides = h; queued = q }
execute-Safe (restart session_id) room d h q p = run_restart-Safe room d h q session_id

some_same : {A : Type 0} {a b : A} → some a ≡ some b → a ≡ b
some_same h = cc h

next-Safe :
    (stopped : Bool) (queue : List Command) (run : Command → List Command → Option Room)
    (room : TriviaRoom) (d : Dispatcher Command) (end : Room)
    → d.queue ≡ queue
    → Safe (room, d)
    → ((c : Command) (rest : List Command) → d.queue ≡ c ∷ rest → run c rest ≡ some end → Safe end)
    → next execute stopped queue run (room, d) ≡ some end
    → Safe end
next-Safe true queue run room d end is s more h = subst Safe (some_same h) s
next-Safe false [] run room d end is s more h = subst Safe (some_same h) s
next-Safe false (c ∷ rest) run room d end is s more h = more c rest is h

drain-Safe :
    (fuel : ℕ) (room : TriviaRoom) (d : Dispatcher Command) (end : Room)
    → Hides room.state
    → Queued d
    → drain execute fuel room d ≡ some end
    → Safe end
unfolding drain
drain-Safe zero room d end h q ended = cc ended
drain-Safe (suc fuel) room d end h q ended =
    next-Safe d.stopped d.queue _ room d end refl (record { hides = h; queued = q })
      (λ c rest is ended.
        let all : All InRange (c ∷ rest) = subst (All InRange) is q.ranged in
        let s =
          execute-Safe c room (record d { queue = rest }) h (record { ranged = all.1 }) all.0 in
        drain-Safe fuel (execute c room (record d { queue = rest })).0
          (execute c room (record d { queue = rest })).1 end s.hides s.queued ended)
      ended

weight_bound : (c : Command) → total weight (c ∷ []) < 4
weight_bound (start_game session_id) = omega arith
weight_bound (answer session_id choice) = omega arith
weight_bound generate_questions = omega arith
weight_bound (questions_ready questions) = omega arith
weight_bound (start_round round) = omega arith
weight_bound end_round = omega arith
weight_bound advance = omega arith
weight_bound finish_game = omega arith
weight_bound (join session_id name user_id wants) = omega arith
weight_bound (leave session_id) = omega arith
weight_bound (toggle_ready session_id) = omega arith
weight_bound (chat session_id message) = omega arith
weight_bound (restart session_id) = omega arith

-- A command given to a dispatcher with nothing queued runs to its end, with whatever it queues, in four
-- turns of the loop; then a question that is open has no answer in the public state, and no round is past
-- the last, if so it was before and the command starts no later round.
pub dispatched-Safe :
    (c : Command) (room : TriviaRoom)
    → Hides room.state
    → InRange c
    → (end : Room) × (dispatched 4 c room ≡ some end)
      × ((end.1.stopped || is_empty end.1.queue) ≡ true)
      × Safe end
unfolding dispatched enqueue
dispatched-Safe c room h p =
    let d : Dispatcher Command = record { queue = c ∷ []; stopped = false } in
    let (end, ended, done) = drain-Drained execute weight execute-total 4 room d (weight_bound c) in
    (end, ended, done, drain-Safe 4 room d end h (record { ranged = (p, tt) }) ended)
