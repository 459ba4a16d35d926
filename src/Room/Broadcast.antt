-- ===== src/Room/Broadcast.antt =====
-- Messages and state patches to the clients of a room: crates/colyseus/src/room.rs.
pub mod Untouched
pub mod Copies
use colyseus_rs.Base.{
  ℕ, ◌||◌, not, Bool, true, false, Option, none, some, Text, List, [], ◌∷◌, ◌++◌, ◌==◌, text_eq,
  if◌then◌else◌, Eq,
}
use colyseus_rs.Base.Maps.{lookup, put, erase}
use colyseus_rs.Json.{Value, array, from_list}
use colyseus_rs.Json.Equality.{json_eq}
use colyseus_rs.Diff.{diff}
use colyseus_rs.State.Slot.{Serde, StateSlot, full, slot_diff}
use colyseus_rs.Room.{
  Client, Cell, RoomContext, Frame, room_data, room_data_bytes, room_state_patch, MessageType,
  AfterPatchItem, to_client, to_all, AfterPatchTarget,
}
use colyseus_rs.Room.Handle.{cell, is_joined, raw_now}
use colyseus_rs.Room.Context.{get_client}

is_except : Option Text → Client → Bool
is_except none c = false
is_except (some id) c = id == c.session_id

value_or : {A : Type 0} → Option A → A → A
value_or none d = d
value_or (some a) d = a

is_nil : {A : Type 0} → List A → Bool
is_nil [] = true
is_nil (x ∷ xs) = false

module _ {N S : Type 0} where
  unfoldable pub raw_to_joined :
      Frame N → Option Text → List Client → RoomContext N S → RoomContext N S
  unfolding is_except
  raw_to_joined f except [] ctx = ctx
  raw_to_joined f except (c ∷ cs) ctx =
      let skip = not (is_joined ctx c) || is_except except c in
      raw_to_joined f except cs (if skip then ctx else raw_now f c ctx)

  -- `broadcast_with_options`, with `except` and `after_next_patch`.
  unfoldable pub broadcast :
      MessageType → Value N → Option Text → Bool → RoomContext N S → RoomContext N S
  broadcast t v except after_next_patch ctx =
      if after_next_patch
      then record ctx {
        after_patch =
            ctx.after_patch ++ (record { target = to_all except; frame = room_data t v } ∷ []);
      }
      else raw_to_joined (room_data t v) except ctx.clients ctx

  unfoldable pub broadcast_bytes : MessageType → List ℕ → RoomContext N S → RoomContext N S
  broadcast_bytes t payload ctx = raw_to_joined (room_data_bytes t payload) none ctx.clients ctx

  deliver_to : Option Client → Frame N → RoomContext N S → RoomContext N S
  deliver_to none f ctx = ctx
  deliver_to (some c) f ctx = if is_joined ctx c then raw_now f c ctx else ctx

  deliver_item : AfterPatchItem N → AfterPatchTarget → RoomContext N S → RoomContext N S
  unfolding deliver_to
  deliver_item item (to_client id) ctx = deliver_to (get_client ctx id) item.frame ctx
  deliver_item item (to_all except) ctx = raw_to_joined item.frame except ctx.clients ctx

  unfoldable pub deliver_items : List (AfterPatchItem N) → RoomContext N S → RoomContext N S
  unfolding deliver_item
  deliver_items [] ctx = ctx
  deliver_items (item ∷ items) ctx = deliver_items items (deliver_item item item.target ctx)

  -- The end of `broadcast_patch`: the queue is taken and sent in order.
  unfoldable pub flush_after_patch : RoomContext N S → RoomContext N S
  unfolding deliver_items
  flush_after_patch ctx = deliver_items ctx.after_patch (record ctx { after_patch = [] })

  module _ ⦃e : Eq N⦄ where
    -- The patch of one client against the view it holds; a client without a view gets the present one.
    unfoldable pub patch_view : Value N → Client → RoomContext N S → RoomContext N S × Bool
    unfolding value_or is_nil
    patch_view view c ctx =
        let held = value_or (lookup c.session_id ctx.view_snapshots) view in
        let ops = diff held view in
        let kept = record ctx { view_snapshots = put c.session_id view ctx.view_snapshots } in
        if held == view || is_nil ops
        then (kept, false)
        else (raw_now (room_state_patch (array (from_list ops))) c kept, true)

    patch_views :
        (Client → Cell N → Value N) → List Client → RoomContext N S → RoomContext N S × Bool
    patch_views view [] ctx = (ctx, false)
    patch_views view (c ∷ cs) ctx =
        let one =
          if is_joined ctx c then patch_view (view c (cell ctx c)) c ctx else (ctx, false) in
        let rest = patch_views view cs one.0 in (rest.0, one.1 || rest.1)

    unfoldable pub send_patch : Option (Value N) → RoomContext N S → RoomContext N S × Bool
    send_patch none ctx = (ctx, false)
    send_patch (some patch) ctx =
        (raw_to_joined (room_state_patch patch) none ctx.clients ctx, true)

    patch_slot :
        Serde N S
        → Option (StateSlot N S)
        → Option (S → Client → Cell N → Value N)
        → RoomContext N S
        → RoomContext N S × Bool
    unfolding patch_views send_patch
    patch_slot serde none filter ctx = (ctx, false)
    patch_slot serde (some slot) (some filter) ctx = patch_views (filter slot.typed) ctx.clients ctx
    patch_slot serde (some slot) none ctx =
        let d = slot_diff serde slot in send_patch d.1 (record ctx { state_slot = some d.0 })

    unfoldable pub broadcast_patch : Serde N S → RoomContext N S → RoomContext N S × Bool
    unfolding patch_slot
    broadcast_patch serde ctx =
        let p = patch_slot serde ctx.state_slot ctx.view_filter ctx in (flush_after_patch p.0, p.1)

  state_for :
      Serde N S
      → Option (StateSlot N S)
      → Option (S → Client → Cell N → Value N)
      → Client
      → Cell N
      → Option (Value N)
  state_for serde none filter c x = none
  state_for serde (some slot) none c x = some (full serde slot)
  state_for serde (some slot) (some filter) c x = some (filter slot.typed c x)

  unfoldable pub full_state_for : Serde N S → RoomContext N S → Client → Option (Value N)
  unfolding state_for
  full_state_for serde ctx c = state_for serde ctx.state_slot ctx.view_filter c (cell ctx c)

  unfoldable pub set_view_snapshot : Text → Value N → RoomContext N S → RoomContext N S
  set_view_snapshot id view ctx = record ctx { view_snapshots = put id view ctx.view_snapshots }

  unfoldable pub drop_view_snapshot : Text → RoomContext N S → RoomContext N S
  drop_view_snapshot id ctx = record ctx { view_snapshots = erase id ctx.view_snapshots }

  unfoldable pub clear_view_filter : RoomContext N S → RoomContext N S
  clear_view_filter ctx = record ctx { view_filter = none; view_snapshots = [] }
