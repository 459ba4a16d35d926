-- ===== src/Demos/Trivia/Secret.antt =====
-- The answer of the open question of demos/trivia/server/src stays internal, and no round is past the last,
-- whatever a command does.
use colyseus_rs.Base.{
  ℕ, ◌+◌, ◌≤◌, ◌&&◌, Bool, true, false, Option, none, some, Text, List, [], ◌∷◌, ◌++◌, All,
  if◌then◌else◌, not, ◌||◌, ◌==◌, nat_eq, length, ltb, leb, leb→gt, ◌≡◌, refl, arith, Bool-cases,
  inl, inr,
}
use colyseus_rs.Base.Maps.{lookup, is_some}
use colyseus_rs.Command.{Dispatcher, enqueue}
use colyseus_rs.Demos.Trivia.{
  total_rounds, TriviaState, TriviaRoom, Question, Command, generate_questions, start_round,
  end_round, finish_game, is_asking, is_lobby, is_generating, is_finished, is_same, max_players,
  max_spectators, sync_meta,
}
use colyseus_rs.Demos.Trivia.Lobby.{
  after_player, with_player, with_spectator, without, is_in_game, toggled, restarted, join_as,
  fresh_join, run_leave, run_toggle_ready, run_restart,
}
use colyseus_rs.Demos.Trivia.Rounds.{
  Room, with_answer, all_answered, has_answered, requested, with_questions, no_longer_waiting,
  is_first, revealed, closed, start_unless, run_answer, run_generate_questions, run_questions_ready,
  ask_or_wait, run_end_round, run_advance, run_finish_game,
}

-- The public state of an open question has no answer, and its round is one of the game's.
pub record Hides (s : TriviaState) : Type 0 where
  pub hidden : is_asking s.phase ≡ true → s.correct_index ≡ none
  pub in_range : s.round ≤ total_rounds

-- A command that starts a round starts one of the game's.
abbrev pub InRange : Command → Type 0
InRange (start_round round) = round ≤ total_rounds
InRange _ = Unit

pub record Queued (d : Dispatcher Command) : Type 0 where
  pub ranged : All InRange d.queue

-- The state hides its answer, and the queued rounds are of the game.
pub record Safe (r : Room) : Type 0 where
  pub hides : Hides r.0.state
  pub queued : Queued r.1

if_Safe : (b : Bool) (r s : Room) → Safe r → Safe s → Safe (if b then r else s)
if_Safe true r s a b = a
if_Safe false r s a b = b

All-end :
    (cs : List Command) (c : Command) → All InRange cs → InRange c → All InRange (cs ++ (c ∷ []))
All-end [] c a p = (p, tt)
All-end (e ∷ cs) c a p = (a.0, All-end cs c a.1 p)

if_InRange :
    (b : Bool) (c d : Dispatcher Command) → Queued c → Queued d → Queued (if b then c else d)
if_InRange true c d a b = a
if_InRange false c d a b = b

enqueue-InRange :
    (c : Command) (d : Dispatcher Command) → Queued d → InRange c → Queued (enqueue c d)
unfolding enqueue
enqueue-InRange c d a p =
    if_InRange d.stopped d (record d { queue = d.queue ++ (c ∷ []) }) a
      (record { ranged = All-end d.queue c a.ranged p })

module _ (room : TriviaRoom) (d : Dispatcher Command) (h : Hides room.state) (q : Queued d) where
  unchanged : Safe (room, d)
  unchanged = record { hides = h; queued = q }

  pub start_unless-Safe :
      (session_id : Text) (o : Option Text) → Safe (start_unless session_id o room d)
  start_unless-Safe session_id (some message) = record { hides = h; queued = q }
  start_unless-Safe session_id none = record {
    hides = h;
    queued = enqueue-InRange (start_round 1) d q (omega arith);
  }

  pub run_answer-Safe :
      (session_id : Text) (choice : ℕ) → Safe (run_answer session_id choice room d)
  unfolding run_answer
  run_answer-Safe session_id choice =
      let r = with_answer session_id choice room in
      let e = if all_answered r.state then enqueue end_round d else d in
      if_Safe
        (not (is_asking room.state.phase)
          || leb 4 choice
          || has_answered (lookup session_id room.state.players))
        (room, d) (r, e) unchanged
        (record {
          hides = record { hidden = h.hidden; in_range = h.in_range };
          queued =
              if_InRange (all_answered r.state) (enqueue end_round d) d
                (enqueue-InRange end_round d q tt) q;
        })

  pub run_generate_questions-Safe : Safe (run_generate_questions room d)
  unfolding run_generate_questions
  run_generate_questions-Safe =
      if_Safe
        (room.internal.batch_in_flight || leb total_rounds (length room.internal.pending_questions))
        (room, d) (requested room, d) unchanged (record { hides = h; queued = q })

  pub run_questions_ready-Safe :
      (questions : List Question) → Safe (run_questions_ready questions room d)
  unfolding run_questions_ready
  run_questions_ready-Safe questions =
      let r = with_questions questions room in
      if_Safe (is_first r.internal.needed_round && is_generating r.state.phase)
        (no_longer_waiting r, enqueue (start_round 1) d) (r, d)
        (record { hides = h; queued = enqueue-InRange (start_round 1) d q (omega arith) })
        (record { hides = h; queued = q })

  pub ask_or_wait-Safe :
      (round : ℕ) (o : Option Question) → round ≤ total_rounds → Safe (ask_or_wait round o room d)
  ask_or_wait-Safe round none within = record {
    hides = record { hidden = λ asks. cc asks; in_range = h.in_range };
    queued =
        if_InRange room.internal.batch_in_flight d (enqueue generate_questions d) q
          (enqueue-InRange generate_questions d q tt);
  }
  ask_or_wait-Safe round (some question) within = record {
    hides = record { hidden = λ asks. refl; in_range = within };
    queued = q;
  }

  pub run_end_round-Safe : Safe (run_end_round room d)
  unfolding run_end_round
  run_end_round-Safe =
      if_Safe (is_asking room.state.phase) (revealed room, d) (room, d)
        (record { hides = record { hidden = λ asks. cc asks; in_range = h.in_range }; queued = q })
        unchanged

  pub run_advance-Safe : Safe (run_advance room d)
  unfolding run_advance
  run_advance-Safe = elim (Bool-cases (leb total_rounds room.state.round)) [
    | inl last ↦ rw last (record { hides = h; queued = enqueue-InRange finish_game d q tt })
    | inr more ↦
        let below = leb→gt total_rounds room.state.round more in
        rw more (record {
          hides = h;
          queued = enqueue-InRange (start_round (room.state.round + 1)) d q (omega (arith, below));
        })
  ]

  pub run_finish_game-Safe : Safe (run_finish_game room d)
  unfolding run_finish_game
  run_finish_game-Safe =
      if_Safe (is_finished room.state.phase) (room, d) (closed room, d) unchanged
        (record { hides = record { hidden = λ asks. cc asks; in_range = h.in_range }; queued = q })

  fresh_join-Safe :
      (session_id name user_id : Text) (wants : Bool)
      → Safe (fresh_join session_id name user_id wants room d)
  unfolding fresh_join
  fresh_join-Safe session_id name user_id wants =
      let r = with_player session_id name user_id room in
      let first_player = length r.state.players == 1 in
      let spectators = with_spectator session_id name room in
      if_Safe (wants && (is_lobby room.state.phase && ltb (length room.state.players) max_players))
        (sync_meta r, if first_player then enqueue generate_questions d else d)
        (if ltb (length room.state.spectators) max_spectators
          then (sync_meta spectators, d)
          else (sync_meta room, d))
        (record {
          hides = record { hidden = h.hidden; in_range = h.in_range };
          queued =
              if_InRange first_player (enqueue generate_questions d) d
                (enqueue-InRange generate_questions d q tt) q;
        })
        (if_Safe (ltb (length room.state.spectators) max_spectators) (sync_meta spectators, d)
          (sync_meta room, d)
          (record { hides = record { hidden = h.hidden; in_range = h.in_range }; queued = q })
          (record { hides = h; queued = q }))

  pub join_as-Safe :
      (o : Option Text) (session_id name user_id : Text) (wants : Bool)
      → Safe (join_as o session_id name user_id wants room d)
  join_as-Safe (some old) session_id name user_id wants = record {
    hides = record { hidden = h.hidden; in_range = h.in_range };
    queued = q;
  }
  join_as-Safe none session_id name user_id wants = fresh_join-Safe session_id name user_id wants

  after_player-InRange : (s : TriviaState) → Queued (after_player s d)
  unfolding after_player
  after_player-InRange s =
      let e = if is_asking s.phase && all_answered s then enqueue end_round d else d in
      let ended : Queued e =
        if_InRange (is_asking s.phase && all_answered s) (enqueue end_round d) d
          (enqueue-InRange end_round d q tt) q in
      if_InRange (length s.players == 0 && is_in_game s.phase) (enqueue finish_game e) e
        (enqueue-InRange finish_game e ended tt) ended

  pub run_leave-Safe : (session_id : Text) → Safe (run_leave session_id room d)
  unfolding run_leave
  run_leave-Safe session_id =
      let r = without session_id room in
      record {
        hides = record { hidden = h.hidden; in_range = h.in_range };
        queued =
            if_InRange (is_some (lookup session_id room.state.players)) (after_player r.state d) d
              (after_player-InRange r.state) q;
      }

  pub run_toggle_ready-Safe : (session_id : Text) → Safe (run_toggle_ready session_id room d)
  unfolding run_toggle_ready
  run_toggle_ready-Safe session_id =
      if_Safe (is_lobby room.state.phase) (toggled session_id room, d) (room, d)
        (record { hides = record { hidden = h.hidden; in_range = h.in_range }; queued = q })
        unchanged

  pub run_restart-Safe : (session_id : Text) → Safe (run_restart session_id room d)
  unfolding run_restart
  run_restart-Safe session_id =
      if_Safe (is_finished room.state.phase && is_same room.state.owner session_id)
        (restarted room, enqueue generate_questions d) (room, d)
        (record {
          hides = record { hidden = λ asks. refl; in_range = omega arith };
          queued = enqueue-InRange generate_questions d q tt;
        })
        unchanged
