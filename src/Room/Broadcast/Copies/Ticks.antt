-- ===== src/Room/Broadcast/Copies/Ticks.antt =====
-- What a patch tick makes of the copies of the state that clients hold.
use colyseus_rs.Base.{
  Bool, true, Option, none, some, ◌>>=◌, Text, List, [], ◌∷◌, text_eq, ◌≡◌, refl, sym, ap, ◌∙◌,
  subst, Eq,
}
use colyseus_rs.Json.{Value}
use colyseus_rs.Json.Valid.{IsValid}
use colyseus_rs.State.Slot.{Serde, StateSlot, slot_diff, full}
use colyseus_rs.State.Slot.Laws.{Sound, receive, slot_diff-receive}
use colyseus_rs.Room.{
  Client, Cell, Frame, bytes, RoomContext, AfterPatchItem, AfterPatchTarget, to_client, to_all,
  room_state_patch,
}
use colyseus_rs.Room.Handle.{modify, is_joined, is_joined_state, raw_now}
use colyseus_rs.Room.Context.{get_client}
use colyseus_rs.Room.Broadcast.Untouched.{kept-deliver_items, kept-send_patch}
use colyseus_rs.Room.Broadcast.{
  deliver_to, deliver_item, deliver_items, flush_after_patch, send_patch, patch_slot,
  broadcast_patch,
}
use colyseus_rs.Room.Broadcast.Copies.{
  is_message, AllMessages, is_listed, UniqueConnections, copy_from, copy-append, copy_at, SameAt,
  raw_now-same, SameAt-trans, SameAt-branch, raw_to_joined-same, raw_to_joined-state,
  raw_to_joined-listed, IsSynced,
}

module _ {N S : Type 0} where
  deliver_to-same :
      (o : Option Client) (f : Frame N) (ctx : RoomContext N S) (i : Text)
      → is_message f ≡ true
      → SameAt (deliver_to o f ctx) ctx i
  unfolding deliver_to
  deliver_to-same none f ctx i m = (refl, refl)
  deliver_to-same (some c) f ctx i m =
      SameAt-branch (is_joined ctx c) (raw_now f c ctx) ctx ctx i (raw_now-same f c ctx i m)
        (refl, refl)

  deliver_item-same :
      (item : AfterPatchItem N) (t : AfterPatchTarget) (ctx : RoomContext N S) (i : Text)
      → is_message item.frame ≡ true
      → SameAt (deliver_item item t ctx) ctx i
  unfolding deliver_item
  deliver_item-same item (to_client id) ctx i m =
      deliver_to-same (get_client ctx id) item.frame ctx i m
  deliver_item-same item (to_all except) ctx i m =
      raw_to_joined-same item.frame except ctx.clients ctx i m

  deliver_items-same :
      (items : List (AfterPatchItem N)) (ctx : RoomContext N S) (i : Text)
      → AllMessages items
      → SameAt (deliver_items items ctx) ctx i
  unfolding deliver_items
  deliver_items-same [] ctx i ms = (refl, refl)
  deliver_items-same (item ∷ items) ctx i ms =
      let next = deliver_item item item.target ctx in
      SameAt-trans (deliver_items items next) next ctx i (deliver_items-same items next i ms.1)
        (deliver_item-same item item.target ctx i ms.0)

module _ {N S : Type 0} ⦃e : Eq N⦄ (serde : Serde N S) where
  -- The sending of the slot's patch, for one client.
  send_patch-copy :
      (o : Option (Value N)) (v : Value N) (ctx : RoomContext N S) (i : Text)
      → UniqueConnections ctx.clients
      → is_listed i ctx.clients ≡ true
      → is_joined_state (ctx.cells i).state ≡ true
      → copy_at ctx i ≡ some v
      → copy_at (send_patch o ctx).0 i ≡ receive o v
  unfolding send_patch
  send_patch-copy none v ctx i u l j h = h
  send_patch-copy (some p) v ctx i u l j h =
      ap (λ (x : Cell N). copy_from none x.sent)
        (raw_to_joined-listed (room_state_patch p) ctx.clients ctx i l u j)
      ∙ copy-append none (ctx.cells i).sent (bytes (room_state_patch p))
      ∙ ap (λ (c : Option (Value N)). c >>= receive (some p)) h

  send_patch-state :
      (o : Option (Value N)) (ctx : RoomContext N S) (i : Text)
      → UniqueConnections ctx.clients
      → ((send_patch o ctx).0.cells i).state ≡ (ctx.cells i).state
  unfolding send_patch
  send_patch-state none ctx i u = refl
  send_patch-state (some p) ctx i u =
      raw_to_joined-state (room_state_patch p) none ctx.clients ctx i

  abbrev queue : RoomContext N S → List (AfterPatchItem N)
  queue ctx = ctx.after_patch

  queue-modify :
      (c : Client) (f : Cell N → Cell N) (ctx : RoomContext N S)
      → queue (modify c f ctx) ≡ queue ctx
  unfolding modify
  queue-modify c f ctx = refl

  abbrev plan :
      RoomContext N S
      → List Client × Option (StateSlot N S) × Option (S → Client → Cell N → Value N)
  plan ctx = (ctx.clients, ctx.state_slot, ctx.view_filter)

  plan-modify :
      (c : Client) (f : Cell N → Cell N) (ctx : RoomContext N S) → plan (modify c f ctx) ≡ plan ctx
  unfolding modify
  plan-modify c f ctx = refl

  plan-flush :
      (o : Option (Value N)) (ctx : RoomContext N S)
      → plan (flush_after_patch (send_patch o ctx).0) ≡ plan ctx
  unfolding flush_after_patch
  plan-flush o ctx =
      kept-deliver_items plan plan-modify (send_patch o ctx).0.after_patch _
      ∙ kept-send_patch plan plan-modify o ctx

  -- The patch of the slot and the queue behind it.
  patched-IsSynced :
      Sound serde
      → (ctx : RoomContext N S) (slot : StateSlot N S) → IsSynced ctx slot
      → let d = slot_diff serde slot in
        IsSynced (flush_after_patch (send_patch d.1 (record ctx { state_slot = some d.0 })).0) d.0
  unfolding flush_after_patch full
  patched-IsSynced sound ctx slot s =
      let d = slot_diff serde slot in
      let begun = record ctx { state_slot = some d.0 } in
      let sent = (send_patch d.1 begun).0 in
      let queued = record sent { after_patch = [] } in
      let p = plan-flush d.1 begun in
      let (got, kept, typed) = slot_diff-receive serde sound slot s.valid in
      let ms = subst AllMessages (sym (kept-send_patch queue queue-modify d.1 begun)) s.messages in
      record {
        slotted = ap (λ t. t.1) p;
        unfiltered = ap (λ t. t.2) p ∙ s.unfiltered;
        valid = subst IsValid (sym kept) (sound slot.typed);
        unique = subst UniqueConnections (sym (ap (λ t. t.0) p)) s.unique;
        messages =
            subst AllMessages (sym (kept-deliver_items queue queue-modify sent.after_patch queued))
              tt;
        copies = λ i l j.
            let same = deliver_items-same sent.after_patch queued i ms in
            let listed = subst (λ cs. is_listed i cs ≡ true) (ap (λ t. t.0) p) l in
            let joined =
              subst (λ x. is_joined_state x ≡ true) (same.0 ∙ send_patch-state d.1 begun i s.unique)
                j in
            same.1
            ∙ send_patch-copy d.1 slot.snapshot begun i s.unique listed joined
                (s.copies i listed joined)
            ∙ got
            ∙ ap some (sym kept);
      }

  -- A patch tick of a room with a state and no view filter keeps the copy of each listed and joined
  -- client equal to the slot's snapshot, which is then the room's full state, if no connection stands
  -- twice in the list, what waits for the patch carries no state and no state has a key twice.
  pub broadcast_patch-IsSynced :
      Sound serde
      → (ctx : RoomContext N S) (slot : StateSlot N S) → IsSynced ctx slot
      → let next = (slot_diff serde slot).0 in
        IsSynced (broadcast_patch serde ctx).0 next
        × (next.snapshot ≡ full serde slot)
        × (next.typed ≡ slot.typed)
  unfolding broadcast_patch patch_slot
  broadcast_patch-IsSynced sound ctx slot s =
      let d = slot_diff serde slot in
      let begun = record ctx { state_slot = some d.0 } in
      let (got, kept, typed) = slot_diff-receive serde sound slot s.valid in
      let e =
        ap (λ (o : Option (StateSlot N S)). patch_slot serde o ctx.view_filter ctx) s.slotted
        ∙ ap (λ (f : Option (S → Client → Cell N → Value N)). patch_slot serde (some slot) f ctx)
            s.unfiltered in
      (
        subst (λ (p : RoomContext N S × Bool). IsSynced (flush_after_patch p.0) d.0) (sym e)
            (patched-IsSynced sound ctx slot s),
        kept,
        typed,
      )
