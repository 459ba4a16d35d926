-- ===== src/Lib.antt =====
-- A model of the core of colyseus-rs, a framework for rooms of clients that share a state.
--
-- A server keeps rooms. Each room is an actor that takes one event at a time: a reservation of a seat, a
-- connection, a message, a disconnect, a deadline. It holds a state, of which every client has a copy:
-- the room sends the full state at the join and JSON patches at each tick. Room listings go to a driver,
-- where matchmaking queries them.
--
-- Base: shared types, tests, lists, text, maps keyed by text, decimal numerals and results.
-- Json: the documents of serde_json, their maps and equality, JSON pointers, and RFC 6902 as the
--   receiver of a patch follows it, independently of the code.
-- Diff: crates/colyseus/src/diff.rs; diff, diff_value, diff_array, op and the rest keep their names.
--   diff_object is diff_removed and diff_entries; the table of diff_array_lcs is in Diff/Table and its
--   walk is lcs_walk, on fuel that its two lengths bound.
-- State: crates/colyseus/src/state.rs; State/Edit is edit_at_path, State/Slot is StateSlot with serde's
--   conversions as a parameter.
-- Driver: crates/colyseus/src/driver.rs; listings and queries, Driver/Compare the matching helpers,
--   Driver/Query the parsing of queries with their builder, Driver/Store the LocalDriver. Numbers and their parsing are the interface Numbers.
-- Room: crates/colyseus/src/room.rs and client.rs; Room/Handle is Client, Room/Context is RoomContext,
--   Room/Broadcast its messages and patches, Room/Snapshot what it saves and restores. A Client handle
--   is a pair of ids, and what its Arc shares is a cell of a store indexed by connection id.
-- Room/Actor: crates/colyseus/src/actor.rs; Connect, Leave and Deadlines hold the handlers, Run the
--   loop. The room's own handlers are the interface RoomProgram, each callback a number that it
--   interprets. Time is in milliseconds and one event reads the clock once; generate_id is an argument.
-- Room/Capacity: the limit on clients, over whole runs in Room/Actor/Run/Capacity. Driver/Store/Laws: the driver as a map.
-- Matchmaker: crates/colyseus/src/matchmaker.rs; Handler is RegisteredHandler, Idempotency the cache of
--   reservations, Stats the room counts, Fields the allowed fields, Rooms finding, creating and reserving,
--   Join the ways into a room, Lifecycle restoring and shutdown. Spawn is spawn_room and
--   spawn_restored_room of actor.rs. A request is a function of the world, the matchmaker and all else;
--   Environment says what other tasks, rooms and callbacks do at each await. Its retries are the fuel of
--   attempts, three as in the source. A lock of create_locks counts the tasks that refer to it.
-- Room/Snapshot/Envelope: encode_snapshot and decode_snapshot of crates/colyseus/src/snapshot.rs;
--   Room/Snapshot/Files its FileSnapshotStore over a file system that is a parameter, and the thread of
--   SnapshotWriter as a loop over its queue.
-- Presence: LocalPresence of crates/colyseus/src/presence.rs. Command: the Dispatcher of
--   crates/colyseus/src/command.rs; drain is on fuel, enough where commands wear out.
-- Demos/TicTacToe: demos/tictactoe/server/src/main.rs; its state and handlers, with the strings for symbols
--   and statuses as data types.
-- Demos/Trivia: demos/trivia/server/src; Lobby and Rounds are commands/lobby.rs and commands/round.rs, each
--   command a value that Run executes under the model of the dispatcher, Entry is room.rs and auth.rs. Secret
--   and Kept show what stays internal.
-- Tests: runs at concrete inputs.
--
-- Widths: the client count is a u32 and the rate counter is a u32, both written as remainders by 2 ^ 32.
-- Other sizes are unbounded, since they count what memory holds.
--
-- Not modelled: the language model and the results of the trivia demo, the admin panel and its RPC, the HTTP and
-- WebSocket server, the encoding of frames, the packing of snapshots, the traffic tap and the logs.
-- Tokio's interleaving is the sequence of events that an actor takes from its mailbox.
pub mod Base
pub mod Json
pub mod Diff
pub mod State
pub mod Driver
pub mod Room
pub mod Matchmaker
pub mod Demos
pub mod Presence
pub mod Command
pub mod Tests
