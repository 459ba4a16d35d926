-- ===== src/Tests/PatchRuns.antt =====
-- A patch tick of a room with a counter and one client.
use colyseus_rs.Base.{ℕ, none, some, [], ◌∷◌, ◌≡◌, refl, text, nat_eq, text_eq}
use colyseus_rs.Json.{null, number}
use colyseus_rs.State.Slot.{StateSlot, slot_diff, full}
use colyseus_rs.Room.{Cell, RoomContext, joined, bytes, room_state, room_data, str, to_all}
use colyseus_rs.Room.Handle.{new_cell}
use colyseus_rs.Room.Broadcast.{broadcast_patch}
use colyseus_rs.Room.Broadcast.Copies.{IsSynced, copy_from}
use colyseus_rs.Room.Broadcast.Copies.Ticks.{broadcast_patch-IsSynced}
use colyseus_rs.Tests.RoomRuns.{ann, room_with}
use colyseus_rs.Tests.StateRuns.{counter}

-- The state is 5 and the clients were last told 3.
abbrev slot : StateSlot ℕ ℕ
slot = record { typed = 5; snapshot = number 3 }

abbrev told_three : Cell ℕ
told_three = record (new_cell 0) { state = joined; sent = bytes (room_state (number 3)) ∷ [] }

-- A message waits for the patch.
abbrev counting : RoomContext ℕ ℕ
counting = record (room_with {S = ℕ} (ann ∷ []) []).ctx {
  state_slot = some slot;
  cells = λ i. told_three;
  after_patch = record { target = to_all none; frame = room_data (str (text "go")) null } ∷ [];
}

counting-IsSynced : IsSynced counting slot
unfolding copy_from
counting-IsSynced = record {
  slotted = refl;
  unfiltered = refl;
  valid = tt;
  unique = (refl, tt);
  messages = (refl, tt);
  copies = λ i l j. refl;
}

broadcast_patch-IsSynced_example :
    IsSynced (broadcast_patch counter counting).0 (slot_diff counter slot).0
    × ((slot_diff counter slot).0.snapshot ≡ full counter slot)
    × ((slot_diff counter slot).0.typed ≡ 5)
broadcast_patch-IsSynced_example =
    broadcast_patch-IsSynced counter (λ s. tt) counting slot counting-IsSynced
