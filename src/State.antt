-- ===== src/State.antt =====
-- crates/colyseus/src/state.rs: edits at a path of a room's state, and the slot that holds the state
-- with the snapshot that was broadcast last.
pub mod Edit
pub mod Slot
