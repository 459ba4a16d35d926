-- ===== src/Room/Snapshot/Untouched.antt =====
-- What is handed to the writer leaves a room's clients, seats and limit alone.
use colyseus_rs.Base.{Option, none, some, ◌≡◌, refl}
use colyseus_rs.State.Slot.{Serde}
use colyseus_rs.Room.{Clocks, RoomContext, PersistenceConfig}
use colyseus_rs.Room.Snapshot.{save_with, persist_now, delete_with, delete_snapshot}
use colyseus_rs.Room.Capacity.{roster}

module _ {N S : Type 0} where
  roster-save_with :
      (serde : Serde N S) (now : Clocks) (p : Option PersistenceConfig) (ctx : RoomContext N S)
      → roster (save_with serde now p ctx) ≡ roster ctx
  unfolding save_with
  roster-save_with serde now none ctx = refl
  roster-save_with serde now (some p) ctx = refl

  pub roster-persist_now :
      (serde : Serde N S) (now : Clocks) (ctx : RoomContext N S)
      → roster (persist_now serde now ctx) ≡ roster ctx
  unfolding persist_now
  roster-persist_now serde now ctx = roster-save_with serde now ctx.persistence ctx

  roster-delete_with :
      (p : Option PersistenceConfig) (ctx : RoomContext N S)
      → roster (delete_with p ctx) ≡ roster ctx
  unfolding delete_with
  roster-delete_with none ctx = refl
  roster-delete_with (some p) ctx = refl

  pub roster-delete_snapshot : (ctx : RoomContext N S) → roster (delete_snapshot ctx) ≡ roster ctx
  unfolding delete_snapshot
  roster-delete_snapshot ctx = roster-delete_with ctx.persistence ctx
