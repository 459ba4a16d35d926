-- ===== src/Demos/Trivia/Entry.antt =====
-- Ways into the trivia room: the handlers of demos/trivia/server/src/room.rs, and auth.rs. What
-- `jsonwebtoken` makes of a token is a parameter.
pub mod Refused
use colyseus_rs.Base.{
  ℕ, ◌+◌, ◌-◌, Bool, true, false, not, ◌&&◌, ◌||◌, Option, none, some, Text, text, List, [], ◌∷◌,
  ◌==◌, text_eq, if◌then◌else◌, ltb, leb,
}
use colyseus_rs.Base.Maps.{lookup, is_some}
use colyseus_rs.Base.Result.{Result, ok, err, ok_or, ◌>>=◌}
use colyseus_rs.Json.{Value, string, object, done}
use colyseus_rs.Json.Map.{get, insert}
use colyseus_rs.Command.{Dispatcher}
use colyseus_rs.Driver.Query.Params.{trim}
use colyseus_rs.Room.{ServerError}
use colyseus_rs.Demos.Trivia.{
  round_time, reveal_break, max_players, max_spectators, new_state, Output, metadata, lobby,
  TriviaState, TriviaInternal, TriviaRoom, Phase, generating, asking, reveal, Command,
  generate_questions, join, leave, ends_round, advances, with_internal, set_timeout,
}
use colyseus_rs.Demos.Trivia.Run.{dispatched}

pub record Claims : Type 0 where
  pub sub : Text
  pub name : Text

abbrev auth_failed : Text → ServerError
auth_failed message = record { code = 525; message = message }

-- The bytes of a text in UTF-8, which `str::len` counts.
utf8_len : Text → ℕ
utf8_len [] = 0
utf8_len (c ∷ s) =
    (if ltb c 128 then 1 else (if ltb c 2048 then 2 else (if ltb c 65536 then 3 else 4)))
    + utf8_len s

-- `.map(trim).filter(..)`: not empty, and at most `n` bytes.
trimmed_within : ℕ → Option Text → Option Text
unfolding utf8_len
trimmed_within n none = none
trimmed_within n (some s) =
    let t = trim s in if not (t == []) && leb (utf8_len t) n then some t else none

-- `TriviaInternal::default()`
abbrev pub no_internal : TriviaInternal
no_internal = record {
  password = none;
  correct_index = none;
  round_answers = [];
  pending_questions = [];
  batch_in_flight = false;
  needed_round = none;
}

-- What `on_create` sets on the context.
pub record Created : Type 0 where
  pub state : TriviaState
  pub internal : TriviaInternal
  pub max_clients : Option ℕ
  pub patch_rate : Option ℕ
  pub listing : Output

abbrev pub or_text : Option Text → Text → Text
or_text none d = d
or_text (some t) d = t

password_gate : Option Text → Option Text → Result ServerError Unit
password_gate none given = ok tt
password_gate (some expected) none = err (auth_failed (text "password required"))
password_gate (some expected) (some given) =
    if given == expected then ok tt else err (auth_failed (text "wrong password"))

unfoldable pub is_present : Text → TriviaState → Bool
is_present session_id s =
    is_some (lookup session_id s.players) || is_some (lookup session_id s.spectators)

abbrev pub room_is_full : ServerError
room_is_full = record { code = 524; message = text "room is full" }

-- A join that found no place is an error.
abbrev pub admitted : Text → TriviaRoom × Dispatcher Command → TriviaRoom × Result ServerError Unit
admitted session_id r = (r.0, if is_present session_id r.0.state then ok tt else err room_is_full)

abbrev pub admit :
    Text → Option (TriviaRoom × Dispatcher Command) → Option (TriviaRoom × Result ServerError Unit)
admit session_id none = none
admit session_id (some r) = some (admitted session_id r)

unfoldable pub on_leave : ℕ → Text → TriviaRoom → Option (TriviaRoom × Dispatcher Command)
on_leave fuel session_id room = dispatched fuel (leave session_id) room

module _ {N : Type 0} where
  as_str : Option (Value N) → Option Text
  as_str (some (string s)) = some s
  as_str _ = none

  -- `value[key].as_str()`
  unfoldable pub str_at : Text → Value N → Option Text
  unfolding as_str
  str_at key (object fs) = as_str (get key fs)
  str_at key _ = none

  auth_value : Claims → Value N
  auth_value c =
      object (insert (text "userId") (string c.sub) (insert (text "name") (string c.name) done))

  unfoldable pub authenticate : (Text → Option Claims) → Option Text → Result ServerError (Value N)
  unfolding auth_value
  authenticate decode token = do
    t ← ok_or token (auth_failed (text "missing bearer token"))
    c ← ok_or (decode t) (auth_failed (text "invalid or expired token"))
    ok (auth_value c)

  unfoldable pub on_auth :
      (Text → Option Claims) → TriviaRoom → Value N → Option Text → Result ServerError (Value N)
  unfolding password_gate
  on_auth decode room options token = do
    gate ← password_gate room.internal.password (str_at (text "password") options)
    authenticate decode token

  auth_str : Text → Option (Value N) → Option Text
  auth_str key none = none
  auth_str key (some v) = str_at key v

  abbrev pub wants_player : Value N → Bool
  wants_player options =
      not (or_text (str_at (text "role") options) (text "player") == text "spectator")

  -- The command that a client's join becomes.
  unfoldable pub join_command : Text → Value N → Option (Value N) → Command
  unfolding auth_str
  join_command session_id options auth =
      join session_id (or_text (auth_str (text "name") auth) (text "anon"))
        (or_text (auth_str (text "userId") auth) []) (wants_player options)

  -- On the fuel of `dispatched`.
  unfoldable pub on_join :
      ℕ
      → Text
      → Value N
      → Option (Value N)
      → TriviaRoom
      → Option (TriviaRoom × Result ServerError Unit)
  on_join fuel session_id options auth room =
      admit session_id (dispatched fuel (join_command session_id options auth) room)

  -- `on_create`, less the handlers of messages, each of which dispatches its command.
  unfoldable pub on_create : Value N → Result ServerError Created
  unfolding trimmed_within
  on_create options =
      let difficulty = or_text (str_at (text "difficulty") options) (text "easy") in
      let category = trimmed_within 40 (str_at (text "category") options) in
      let password = trimmed_within 64 (str_at (text "password") options) in
      let s = new_state difficulty (or_text category (text "genel")) in
      if difficulty == text "easy" || difficulty == text "medium" || difficulty == text "hard"
      then ok (record {
        state = record s { has_password = is_some password };
        internal = record no_internal { password = password };
        max_clients = some (max_players + max_spectators);
        patch_rate = some 50;
        listing = metadata lobby 0 0 0 (is_some password);
      })
      else err (record { code = 521; message = text "difficulty must be easy, medium or hard" })

or_first : Option ℕ → Option ℕ
or_first none = some 1
or_first (some round) = some round

remaining : Option ℕ → ℕ → ℕ → ℕ
remaining none now full = full
remaining (some ends_at) now full = ends_at - now

unfoldable pub resume_in :
    Phase → TriviaRoom → Option (TriviaRoom × Dispatcher Command) → Option TriviaRoom
unfolding remaining
resume_in generating room run = elim run [ none ↦ none | some r ↦ some r.0 ]
resume_in asking room run =
    let left = remaining room.state.phase_ends_at room.now_millis round_time in
    some (record (set_timeout left ends_round room) { round_timer = some room.next_timer_id })
resume_in reveal room run =
    let left = remaining room.state.phase_ends_at room.now_millis reveal_break in
    some (record (set_timeout left advances room) { break_timer = some room.next_timer_id })
resume_in _ room run = some room

-- Of the room that a snapshot restored; on the fuel of `dispatched`.
unfoldable pub resume_after_restore : ℕ → TriviaRoom → Option TriviaRoom
unfolding or_first
resume_after_restore fuel room =
    let cleared = with_internal (λ i. record i { batch_in_flight = false }) room in
    let wanted = with_internal (λ i. record i { needed_round = or_first i.needed_round }) cleared in
    resume_in room.state.phase cleared (dispatched fuel generate_questions wanted)
