-- ===== src/Demos/Trivia/Entry/Refused.antt =====
-- Who is kept out of the trivia room.
use colyseus_rs.Base.{
  ℕ, Bool, true, false, ◌&&◌, ◌||◌, Option, none, some, Text, List, [], ◌∷◌, ◌==◌, nat_eq, text_eq,
  ◌≡◌, refl, ◌⊎◌, ◌≤◌, arith, length, Bool-cases, inl, inr, ltb, leb, ap, sym, ◌∙◌, text,
  text-reflexive, if◌then◌else◌,
}
use colyseus_rs.Base.Maps.{lookup, put, erase, is_some, lookup-put}
use colyseus_rs.Base.Result.{Result, ok, err}
use colyseus_rs.Json.{Value}
use colyseus_rs.Command.{Dispatcher, drain, enqueue}
use colyseus_rs.Room.{ServerError}
use colyseus_rs.Demos.Trivia.{
  max_players, max_spectators, TriviaRoom, TriviaState, PlayerState, new_player, Command, is_lobby,
  total_rounds, sync_meta, generate_questions,
}
use colyseus_rs.Demos.Trivia.Lobby.{
  stale_session, stale_of, moved, with_player, with_spectator, fresh_join, join_as, run_join,
}
use colyseus_rs.Demos.Trivia.Rounds.{Room, run_generate_questions}
use colyseus_rs.Demos.Trivia.Run.{execute, dispatched}
use colyseus_rs.Demos.Trivia.Entry.{
  is_present, admit, on_join, join_command, admitted, or_text, auth_str, wants_player, room_is_full,
}

is_some-lookup-put :
    {A : Type 0} (k : Text) (a : A) (m : List (Text × A)) → is_some (lookup k (put k a m)) ≡ true
is_some-lookup-put k a m = rw (lookup-put k k a m, text-reflexive k) refl

-- A session that is found stands in the list.
stale_session-listed :
    (user_id session_id old : Text) (players : List (Text × PlayerState))
    → stale_session user_id session_id players ≡ some old
    → is_some (lookup old players) ≡ true
unfolding stale_session lookup
stale_session-listed user_id session_id old [] h = cc
stale_session-listed user_id session_id old ((k, p) ∷ players) h =
    ground (arith, text-reflexive old, stale_session-listed user_id session_id old players)

-- No place among the spectators, and none among the players for the client.
abbrev pub NoPlace : Bool → TriviaState → Type 0
NoPlace wants_player s =
    (max_spectators ≤ length s.spectators)
    × (((wants_player && is_lobby s.phase) ≡ false) ⊎ (max_players ≤ length s.players))

-- Why the test for a player fails.
no_seat :
    (wants_player in_lobby : Bool) (players : ℕ)
    → (wants_player && (in_lobby && ltb players max_players)) ≡ false
    → ((wants_player && in_lobby) ≡ false) ⊎ (max_players ≤ players)
no_seat false b n h = inl refl
no_seat true false n h = inl refl
no_seat true true n h = inr (ground (arith, h))

module _ (session_id name user_id : Text) (wants_player : Bool) (room : TriviaRoom)
    (d : Dispatcher Command) where
  abbrev may_play : Bool
  may_play =
      wants_player && (is_lobby room.state.phase && ltb (length room.state.players) max_players)

  abbrev playing : TriviaRoom
  playing = with_player session_id name user_id room

  fresh_join-plays :
      may_play ≡ true
      → fresh_join session_id name user_id wants_player room d ≡ (
        sync_meta playing,
        if length playing.state.players == 1 then enqueue generate_questions d else d,
      )
  unfolding fresh_join
  fresh_join-plays t = rw (t, fresh_join) refl

  fresh_join-watches :
      may_play ≡ false
      → ltb (length room.state.spectators) max_spectators ≡ true
      → fresh_join session_id name user_id wants_player room d
        ≡ (sync_meta (with_spectator session_id name room), d)
  unfolding fresh_join
  fresh_join-watches t u = rw (t, fresh_join) (rw u refl)

  fresh_join-full :
      may_play ≡ false
      → ltb (length room.state.spectators) max_spectators ≡ false
      → fresh_join session_id name user_id wants_player room d ≡ (sync_meta room, d)
  unfolding fresh_join
  fresh_join-full t u = rw (t, fresh_join) (rw u refl)

abbrev idle : Dispatcher Command
idle = record { queue = []; stopped = false }

-- What a join comes to: the session is in the room, or there is no place and the state is as before.
abbrev pub Settled : Text → Bool → TriviaRoom → TriviaRoom → Type 0
Settled session_id wants_player room end =
    (is_present session_id end.state ≡ true)
    ⊎ (NoPlace wants_player room.state × (end.state ≡ room.state))

-- A join leaves at most the making of questions to do.
abbrev Leaves : Dispatcher Command → Type 0
Leaves d = (d ≡ idle) ⊎ (d ≡ enqueue generate_questions idle)

Leaves-if : (b : Bool) → Leaves (if b then enqueue generate_questions idle else idle)
Leaves-if true = inr refl
Leaves-if false = inl refl

or_left : (a b : Bool) → a ≡ true → (a || b) ≡ true
or_left a b h = rw h refl

or_right : (a b : Bool) → b ≡ true → (a || b) ≡ true
or_right true b h = refl
or_right false b h = h

module _ (session_id name user_id : Text) (wants_player : Bool) (room : TriviaRoom) where
  fresh_join-settles :
      let r = fresh_join session_id name user_id wants_player room idle in
      Settled session_id wants_player room r.0 × Leaves r.1
  unfolding is_present
  fresh_join-settles = elim (Bool-cases (may_play session_id name user_id wants_player room idle)) [
    | inl plays ↦ rw (fresh_join-plays session_id name user_id wants_player room idle plays) (
      inl (
          or_left _ _ (is_some-lookup-put session_id (new_player user_id name) room.state.players)),
      Leaves-if _,
    )
    | inr watches ↦ elim (Bool-cases (ltb (length room.state.spectators) max_spectators)) [
      | inl left ↦
          rw (fresh_join-watches session_id name user_id wants_player room idle watches left) (
            inl (or_right _ _ (is_some-lookup-put session_id name room.state.spectators)),
            inl refl,
          )
      | inr full ↦
          rw (fresh_join-full session_id name user_id wants_player room idle watches full) (
            inr (
              (
                ground (arith, full),
                no_seat wants_player (is_lobby room.state.phase) (length room.state.players)
                    watches,
              ),
              refl,
            ),
            inl refl,
          )
    ]
  ]

  moved-listed :
      (old : Text) (o : Option PlayerState) (m : List (Text × PlayerState))
      → is_some o ≡ true
      → is_some (lookup session_id (moved old session_id o m)) ≡ true
  moved-listed old none m h = cc h
  moved-listed old (some p) m h = is_some-lookup-put session_id p (erase old m)

  join_as-settles :
      (o : Option Text)
      → stale_of user_id session_id room.state.players ≡ o
      → let r = join_as o session_id name user_id wants_player room idle in
        Settled session_id wants_player room r.0 × Leaves r.1
  unfolding is_present
  join_as-settles none h = fresh_join-settles
  join_as-settles (some old) h = (
    inl (
        or_left _ _
          (moved-listed old (lookup old room.state.players) room.state.players (listed user_id h))),
    inl refl,
  )
    where
      listed :
          (u : Text)
          → stale_of u session_id room.state.players ≡ some old
          → is_some (lookup old room.state.players) ≡ true
      listed [] e = cc e
      listed (c ∷ u) e = stale_session-listed (c ∷ u) session_id old room.state.players e

generated :
    (w : TriviaRoom)
    → ((run_generate_questions w idle).1 ≡ idle)
      × ((run_generate_questions w idle).0.state ≡ w.state)
unfolding run_generate_questions
generated w =
    elim (Bool-cases
      (w.internal.batch_in_flight || leb total_rounds (length w.internal.pending_questions))) [
        | inl enough ↦ rw (enough, run_generate_questions) (refl, refl)
        | inr more ↦ rw (more, run_generate_questions) (refl, refl)
      ]

-- The rest of a join's turns ends and leaves the state alone.
drained :
    (w : TriviaRoom) (d : Dispatcher Command)
    → Leaves d
    → (end : Room) × (drain execute 3 w d ≡ some end) × (end.0.state ≡ w.state)
unfolding drain execute enqueue
drained w d (inl e) = ((w, idle), rw e refl, refl)
drained w d (inr e) =
    let g = run_generate_questions w idle in
    let (idles, same) = generated w in
    (
      g,
      ap (drain execute 3 w) e
          ∙ ap (drain execute 2 g.0) idles
          ∙ ap (λ (q : Dispatcher Command). some (g.0, q)) (sym idles),
      same,
    )

Settled-same :
    (session_id : Text) (wants : Bool) (room x y : TriviaRoom)
    → y.state ≡ x.state
    → Settled session_id wants room x
    → Settled session_id wants room y
Settled-same session_id wants room x y same (inl p) = inl (ap (is_present session_id) same ∙ p)
Settled-same session_id wants room x y same (inr s) = inr (s.0, same ∙ s.1)

outcome :
    (session_id : Text) (wants : Bool) (room : TriviaRoom) (end : Room)
    → Settled session_id wants room end.0
    → let r = admitted session_id end in
      ((r.1 ≡ ok tt) × (is_present session_id r.0.state ≡ true))
      ⊎ ((r.1 ≡ err room_is_full) × NoPlace wants room.state × (r.0.state ≡ room.state))
outcome session_id wants room end s = elim (Bool-cases (is_present session_id end.0.state)) [
  | inl p ↦ inl (rw p refl, p)
  | inr away ↦ inr (left_out away s)
]
  where
    left_out :
        is_present session_id end.0.state ≡ false
        → Settled session_id wants room end.0
        → ((admitted session_id end).1 ≡ err room_is_full)
          × NoPlace wants room.state
          × (end.0.state ≡ room.state)
    left_out away (inl p) = absurd (cc)
    left_out away (inr q) = (rw away refl, q.0, q.1)

module _ {N : Type 0} (session_id : Text) (options : Value N) (auth : Option (Value N))
    (room : TriviaRoom) where
  -- A join comes to an end. Either it succeeds and its session is among the players or the spectators,
  -- or it is refused as the room is full: then there are as many spectators as are allowed, the client
  -- does not want to play, the room is not in the lobby or it has as many players as are allowed, and
  -- the state is as before.
  pub on_join_settles :
      (r : TriviaRoom × Result ServerError Unit) × (on_join 4 session_id options auth room ≡ some r)
      × (((r.1 ≡ ok tt) × (is_present session_id r.0.state ≡ true))
          ⊎ ((r.1 ≡ err room_is_full)
              × NoPlace (wants_player options) room.state
              × (r.0.state ≡ room.state)))
  unfolding on_join dispatched join_command execute run_join drain enqueue
  on_join_settles =
      let name = or_text (auth_str (text "name") auth) (text "anon") in
      let user_id = or_text (auth_str (text "userId") auth) [] in
      let o = stale_of user_id session_id room.state.players in
      let j = join_as o session_id name user_id (wants_player options) room idle in
      let (settled, leaves) =
        join_as-settles session_id name user_id (wants_player options) room o refl in
      let (end, ended, same) = drained j.0 j.1 leaves in
      (
        admitted session_id end,
        ap (admit session_id) ended,
        outcome session_id (wants_player options) room end
            (Settled-same session_id (wants_player options) room j.0 end.0 same settled),
      )
