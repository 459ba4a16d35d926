-- ===== src/Tests/DemoRuns.antt =====
-- Runs of the demo servers, of the presence, of the dispatcher and of the envelope of snapshots.
use colyseus_rs.Base.{
  ℕ, zero, suc, ◌+◌, ◌<◌, false, nat_eq, text_eq, text_eqb, Option, none, some, Text, List, [], ◌∷◌,
  text, ◌≡◌, refl, arith, ◌++◌, Bool-cases, inl, inr,
}
use colyseus_rs.Base.Result.{ok}
use colyseus_rs.Base.Maps.{lookup, put}
use colyseus_rs.Json.{null, number, done}
use colyseus_rs.Room.{RoomSnapshot}
use colyseus_rs.Room.Snapshot.Envelope.{
  Codec, encode_snapshot, decode_snapshot, decode_snapshot-encode_snapshot,
}
use colyseus_rs.Command.{Dispatcher, enqueue, drain}
use colyseus_rs.Command.Laws.{total, Drained, drain-Drained}
use colyseus_rs.Presence.{LocalPresence}
use colyseus_rs.Demos.TicTacToe.{Board, x, o, Claims, TttRoom, play, on_join}
use colyseus_rs.Demos.TicTacToe.Turns.{IsSound}
use colyseus_rs.Demos.TicTacToe.Course.{
  Reachable, created, then_step, joins, new_room, Reachable-IsSound,
}

abbrev top_row : Board
top_row = some x ∷ some x ∷ some x ∷ some o ∷ some o ∷ none ∷ none ∷ none ∷ none ∷ []

abbrev claims : Text → Option Claims
claims name = some (record { user_id = name; name = name })

abbrev with_ann : TttRoom
with_ann = on_join (text "a") (claims (text "ann")) new_room

abbrev with_bob : TttRoom
with_bob = on_join (text "b") (claims (text "bob")) with_ann

with_bob-Reachable : Reachable with_bob
unfolding on_join lookup colyseus_rs.Demos.TicTacToe.stale_session
    colyseus_rs.Demos.TicTacToe.add_player put text_eqb
with_bob-Reachable =
    then_step
      (then_step created
        (joins {room = new_room} (text "a") (claims (text "ann")) refl refl (omega arith)))
      (joins {room = with_ann} (text "b") (claims (text "bob")) refl refl (omega arith))

Reachable-IsSound_example : IsSound with_bob.state
Reachable-IsSound_example = Reachable-IsSound with_bob with_bob-Reachable

abbrev one_key : LocalPresence ℕ
one_key = record { topics = []; kv = (text "k", number 1) ∷ []; hashes = [] }

-- A command that adds its number and chains the command with one less.
abbrev add : ℕ → ℕ → Dispatcher ℕ → ℕ × Dispatcher ℕ
add zero w d = (w, d)
add (suc n) w d = (w + suc n, enqueue n d)

total_end :
    (c : ℕ) (cs : List ℕ) → total (λ n. suc n) (cs ++ (c ∷ [])) ≡ suc c + total (λ n. suc n) cs
total_end c [] = omega arith
total_end c (a ∷ cs) = omega (arith, total_end c cs)

add_wears :
    (c w : ℕ) (d : Dispatcher ℕ)
    → total (λ n. suc n) (add c w d).1.queue < suc c + total (λ n. suc n) d.queue
unfolding enqueue
add_wears zero w d = omega arith
add_wears (suc n) w d = elim (Bool-cases d.stopped) [
  | inl halted ↦ rw halted (omega arith)
  | inr going ↦ rw going (omega (arith, total_end n d.queue))
]

drain-Drained_example :
    Drained add (λ n. suc n) (drain add 4 0 (record { queue = 2 ∷ []; stopped = false }))
drain-Drained_example =
    drain-Drained add (λ n. suc n) add_wears 4 0 (record { queue = 2 ∷ []; stopped = false })
      (omega arith)

abbrev empty_snapshot : RoomSnapshot ℕ
empty_snapshot = record {
  schema_version = 1;
  room_id = text "r1";
  room_name = text "game";
  process_id = text "p1";
  created_at = 100;
  saved_at = 200;
  clock_elapsed_ms = 5;
  options = null;
  state = null;
  internal = null;
  metadata = none;
  locked = false;
  is_private = false;
  max_clients = some 8;
  filter_extra = done;
  reconnections = [];
  seats = [];
}

-- A packing that knows one snapshot.
abbrev toy_codec : Codec ℕ
toy_codec = record {
  crc32 = λ bytes. 305419896;
  to_vec = λ s. 7 ∷ [];
  from_slice = λ bytes. ok empty_snapshot;
}

decode_snapshot-encode_snapshot_example :
    decode_snapshot toy_codec (encode_snapshot toy_codec empty_snapshot) ≡ ok empty_snapshot
decode_snapshot-encode_snapshot_example =
    decode_snapshot-encode_snapshot toy_codec empty_snapshot refl (omega arith)
