-- ===== src/Room/Broadcast/Untouched.antt =====
-- Messages and patches leave a room's clients, seats and limit alone.
use colyseus_rs.Base.{
  Bool, true, false, not, ◌||◌, Option, none, some, Text, List, [], ◌∷◌, ◌≡◌, refl, ◌∙◌, Bool-cases,
  inl, inr, Eq, text_eq, ◌==◌, if◌then◌else◌,
}
use colyseus_rs.Base.Maps.{lookup, put}
use colyseus_rs.Json.{Value}
use colyseus_rs.Json.Equality.{json_eq}
use colyseus_rs.Diff.{diff}
use colyseus_rs.State.Slot.{Serde, StateSlot, slot_diff}
use colyseus_rs.Room.{Client, Cell, Frame, RoomContext, AfterPatchItem, AfterPatchTarget}
use colyseus_rs.Room.{to_client, to_all, MessageType}
use colyseus_rs.Room.Handle.{cell, modify, is_joined, raw_now}
use colyseus_rs.Room.Context.{get_client}
use colyseus_rs.Room.Broadcast.{
  raw_to_joined, is_except, broadcast, deliver_to, deliver_item, deliver_items, flush_after_patch,
  patch_view, patch_views, send_patch, patch_slot, broadcast_patch, value_or, is_nil,
}
use colyseus_rs.Room.Capacity.{roster}

-- Sending frames leaves alone whatever does not look at the cells.
module _ {N S A : Type 0} (g : RoomContext N S → A)
    (kept : (c : Client) (f : Cell N → Cell N) (ctx : RoomContext N S)
      → g (modify c f ctx) ≡ g ctx) where
  branch :
      (b : Bool) (x y : RoomContext N S) {a : A} → g x ≡ a → g y ≡ a → g (if b then x else y) ≡ a
  branch true x y p q = p
  branch false x y p q = q

  pub kept-raw_to_joined :
      (f : Frame N) (except : Option Text) (cs : List Client) (ctx : RoomContext N S)
      → g (raw_to_joined f except cs ctx) ≡ g ctx
  unfolding raw_to_joined
  kept-raw_to_joined f except [] ctx = refl
  kept-raw_to_joined f except (c ∷ cs) ctx =
      kept-raw_to_joined f except cs _
      ∙ branch (not (is_joined ctx c) || is_except except c) ctx (raw_now f c ctx) refl
          (kept c _ ctx)

  kept-deliver_to :
      (o : Option Client) (f : Frame N) (ctx : RoomContext N S) → g (deliver_to o f ctx) ≡ g ctx
  unfolding deliver_to
  kept-deliver_to none f ctx = refl
  kept-deliver_to (some c) f ctx =
      branch (is_joined ctx c) (raw_now f c ctx) ctx (kept c _ ctx) refl

  kept-deliver_item :
      (item : AfterPatchItem N) (t : AfterPatchTarget) (ctx : RoomContext N S)
      → g (deliver_item item t ctx) ≡ g ctx
  unfolding deliver_item
  kept-deliver_item item (to_client id) ctx = kept-deliver_to (get_client ctx id) item.frame ctx
  kept-deliver_item item (to_all except) ctx = kept-raw_to_joined item.frame except ctx.clients ctx

  pub kept-deliver_items :
      (items : List (AfterPatchItem N)) (ctx : RoomContext N S)
      → g (deliver_items items ctx) ≡ g ctx
  unfolding deliver_items
  kept-deliver_items [] ctx = refl
  kept-deliver_items (item ∷ items) ctx =
      kept-deliver_items items (deliver_item item item.target ctx)
      ∙ kept-deliver_item item item.target ctx

  module _ ⦃e : Eq N⦄ where
    pub kept-send_patch :
        (o : Option (Value N)) (ctx : RoomContext N S) → g (send_patch o ctx).0 ≡ g ctx
    unfolding send_patch
    kept-send_patch none ctx = refl
    kept-send_patch (some patch) ctx = kept-raw_to_joined _ none ctx.clients ctx

module _ {N S : Type 0} where
  roster-modify :
      (c : Client) (f : Cell N → Cell N) (ctx : RoomContext N S)
      → roster (modify c f ctx) ≡ roster ctx
  unfolding modify
  roster-modify c f ctx = refl

  pub roster-broadcast :
      (t : MessageType) (v : Value N) (except : Option Text) (later : Bool) (ctx : RoomContext N S)
      → roster (broadcast t v except later ctx) ≡ roster ctx
  unfolding broadcast
  roster-broadcast t v except true ctx = refl
  roster-broadcast t v except false ctx =
      kept-raw_to_joined roster roster-modify _ except ctx.clients ctx

  module _ ⦃e : Eq N⦄ where
    roster-patch_view :
        (view : Value N) (c : Client) (ctx : RoomContext N S)
        → roster (patch_view view c ctx).0 ≡ roster ctx
    unfolding patch_view modify
    roster-patch_view view c ctx =
        let held = value_or (lookup c.session_id ctx.view_snapshots) view in
        let kept = record ctx { view_snapshots = put c.session_id view ctx.view_snapshots } in
        elim (Bool-cases (held == view || is_nil (diff held view))) [
          | inl same ↦ rw same refl
          | inr differ ↦ rw differ refl
        ]

    roster-patch_views :
        (view : Client → Cell N → Value N) (cs : List Client) (ctx : RoomContext N S)
        → roster (patch_views view cs ctx).0 ≡ roster ctx
    unfolding patch_views
    roster-patch_views view [] ctx = refl
    roster-patch_views view (c ∷ cs) ctx =
        roster-patch_views view cs _ ∙ elim (Bool-cases (is_joined ctx c)) [
          | inl joined ↦ rw joined (roster-patch_view (view c (cell ctx c)) c ctx)
          | inr away ↦ rw away refl
        ]

    roster-patch_slot :
        (serde : Serde N S) (o : Option (StateSlot N S))
        (f : Option (S → Client → Cell N → Value N)) (ctx : RoomContext N S)
        → roster (patch_slot serde o f ctx).0 ≡ roster ctx
    unfolding patch_slot
    roster-patch_slot serde none f ctx = refl
    roster-patch_slot serde (some slot) (some f) ctx =
        roster-patch_views (f slot.typed) ctx.clients ctx
    roster-patch_slot serde (some slot) none ctx =
        let d = slot_diff serde slot in
        kept-send_patch roster roster-modify d.1 (record ctx { state_slot = some d.0 })

    pub roster-broadcast_patch :
        (serde : Serde N S) (ctx : RoomContext N S)
        → roster (broadcast_patch serde ctx).0 ≡ roster ctx
    unfolding broadcast_patch flush_after_patch
    roster-broadcast_patch serde ctx =
        let p = patch_slot serde ctx.state_slot ctx.view_filter ctx in
        kept-deliver_items roster roster-modify p.0.after_patch (record p.0 { after_patch = [] })
        ∙ roster-patch_slot serde ctx.state_slot ctx.view_filter ctx
