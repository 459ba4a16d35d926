-- ===== src/Room/Broadcast/Copies.antt =====
-- The copies of the state that the clients of a room hold, and what one frame makes of them.
pub mod Ticks
use colyseus_rs.Base.{
  Bool, true, false, not, ◌||◌, Option, none, some, ◌>>=◌, Text, List, [], ◌∷◌, ◌++◌, ◌==◌, text_eq,
  text_sound, text-reflexive, ◌≡◌, refl, sym, ap, ◌∙◌, subst, Bool-cases, inl, inr, arith,
  if◌then◌else◌, any, Eq,
}
use colyseus_rs.Json.{Value}
use colyseus_rs.Json.Valid.{IsValid}
use colyseus_rs.State.Slot.{Serde, StateSlot, slot_diff, full}
use colyseus_rs.State.Slot.Laws.{Sound, receive, slot_diff-receive}
use colyseus_rs.Room.{
  Client, Cell, Frame, Outbound, bytes, RoomContext, AfterPatchItem, AfterPatchTarget, to_client,
  to_all, room_state, room_state_patch, join_room, error_frame, room_data, room_data_bytes, ping,
}
use colyseus_rs.Room.Handle.{cell, modify, is_joined, is_joined_state, raw_now}
use colyseus_rs.Room.Context.{get_client}
use colyseus_rs.Room.Broadcast.Untouched.{kept-deliver_items, kept-send_patch}
use colyseus_rs.Room.Broadcast.{
  raw_to_joined, is_except, deliver_to, deliver_item, deliver_items, flush_after_patch, send_patch,
  patch_slot, broadcast_patch,
}

or_false : (a b : Bool) → (a || b) ≡ false → (a ≡ false) × (b ≡ false)
or_false false b h = (refl, h)
or_false true b h = cc

-- A frame that carries no state.
abbrev pub is_message : {N : Type 0} → Frame N → Bool
is_message (room_state v) = false
is_message (room_state_patch p) = false
is_message _ = true

abbrev pub AllMessages : {N : Type 0} → List (AfterPatchItem N) → Type 0
AllMessages [] = Unit
AllMessages (item ∷ items) = (is_message item.frame ≡ true) × AllMessages items

abbrev pub is_listed : Text → List Client → Bool
is_listed i cs = any (λ (c : Client). i == c.connection_id) cs

-- No connection stands twice in the list.
abbrev pub UniqueConnections : List Client → Type 0
UniqueConnections [] = Unit
UniqueConnections (c ∷ cs) = (is_listed c.connection_id cs ≡ false) × UniqueConnections cs

module _ {N : Type 0} where
  -- What a receiver makes of one outbound item, and of all that its transport was sent.
  abbrev pub take_item : Outbound N → Option (Value N) → Option (Value N)
  take_item (bytes (room_state v)) copy = some v
  take_item (bytes (room_state_patch p)) copy = copy >>= receive (some p)
  take_item _ copy = copy

  unfoldable pub copy_from : Option (Value N) → List (Outbound N) → Option (Value N)
  copy_from copy [] = copy
  copy_from copy (o ∷ os) = copy_from (take_item o copy) os

  abbrev sent_one : Frame N → Cell N → Cell N
  sent_one f x = record x { sent = x.sent ++ (bytes f ∷ []) }

  copy-append :
      (copy : Option (Value N)) (os : List (Outbound N)) (o : Outbound N)
      → copy_from copy (os ++ o ∷ []) ≡ take_item o (copy_from copy os)
  unfolding copy_from
  copy-append copy [] o = refl
  copy-append copy (p ∷ os) o = copy-append (take_item p copy) os o

  take-message :
      (f : Frame N) (copy : Option (Value N))
      → is_message f ≡ true
      → take_item (bytes f) copy ≡ copy
  take-message (room_state v) copy m = cc
  take-message (room_state_patch p) copy m = cc
  take-message (join_room a b) copy m = refl
  take-message (error_frame a b) copy m = refl
  take-message (room_data a b) copy m = refl
  take-message (room_data_bytes a b) copy m = refl
  take-message ping copy m = refl

module _ {N S : Type 0} where
  abbrev pub copy_at : RoomContext N S → Text → Option (Value N)
  copy_at ctx i = copy_from none (ctx.cells i).sent

  -- Two contexts that agree on which connections are joined and on what they hold.
  abbrev SameAt : RoomContext N S → RoomContext N S → Text → Type 0
  SameAt x y i = ((x.cells i).state ≡ (y.cells i).state) × (copy_at x i ≡ copy_at y i)

  raw_now-same :
      (f : Frame N) (c : Client) (ctx : RoomContext N S) (i : Text)
      → is_message f ≡ true
      → SameAt (raw_now f c ctx) ctx i
  unfolding modify
  raw_now-same f c ctx i m = elim (Bool-cases (i == c.connection_id)) [
    | inl here ↦
        rw here
          (refl, copy-append none (ctx.cells i).sent (bytes f) ∙ take-message f (copy_at ctx i) m)
    | inr away ↦ rw away (refl, refl)
  ]

  SameAt-trans : (x y z : RoomContext N S) (i : Text) → SameAt x y i → SameAt y z i → SameAt x z i
  SameAt-trans x y z i p q = (p.0 ∙ q.0, p.1 ∙ q.1)

  SameAt-branch :
      (b : Bool) (x y z : RoomContext N S) (i : Text)
      → SameAt x z i
      → SameAt y z i
      → SameAt (if b then x else y) z i
  SameAt-branch true x y z i p q = p
  SameAt-branch false x y z i p q = q

  -- What the loop makes of its context at one client.
  abbrev told : Frame N → Option Text → Client → RoomContext N S → RoomContext N S
  told f except c ctx = if not (is_joined ctx c) || is_except except c then ctx else raw_now f c ctx

  raw_to_joined-same :
      (f : Frame N) (except : Option Text) (cs : List Client) (ctx : RoomContext N S) (i : Text)
      → is_message f ≡ true
      → SameAt (raw_to_joined f except cs ctx) ctx i
  unfolding raw_to_joined
  raw_to_joined-same f except [] ctx i m = (refl, refl)
  raw_to_joined-same f except (c ∷ cs) ctx i m =
      let next = told f except c ctx in
      SameAt-trans (raw_to_joined f except cs next) next ctx i
        (raw_to_joined-same f except cs next i m)
        (SameAt-branch (not (is_joined ctx c) || is_except except c) ctx (raw_now f c ctx) ctx i
          (refl, refl) (raw_now-same f c ctx i m))

  raw_now-state :
      (f : Frame N) (c : Client) (ctx : RoomContext N S) (i : Text)
      → ((raw_now f c ctx).cells i).state ≡ (ctx.cells i).state
  unfolding modify
  raw_now-state f c ctx i = elim (Bool-cases (i == c.connection_id)) [
    | inl here ↦ rw here refl
    | inr away ↦ rw away refl
  ]

  told_state :
      (b : Bool) (f : Frame N) (c : Client) (ctx : RoomContext N S) (i : Text)
      → ((if b then ctx else raw_now f c ctx).cells i).state ≡ (ctx.cells i).state
  told_state true f c ctx i = refl
  told_state false f c ctx i = raw_now-state f c ctx i

  raw_to_joined-state :
      (f : Frame N) (except : Option Text) (cs : List Client) (ctx : RoomContext N S) (i : Text)
      → ((raw_to_joined f except cs ctx).cells i).state ≡ (ctx.cells i).state
  unfolding raw_to_joined
  raw_to_joined-state f except [] ctx i = refl
  raw_to_joined-state f except (c ∷ cs) ctx i =
      raw_to_joined-state f except cs (told f except c ctx) i
      ∙ told_state (not (is_joined ctx c) || is_except except c) f c ctx i

  told_other :
      (f : Frame N) (c : Client) (ctx : RoomContext N S) (i : Text)
      → (i == c.connection_id) ≡ false
      → (told f none c ctx).cells i ≡ ctx.cells i
  unfolding modify is_except
  told_other f c ctx i h = elim (Bool-cases (is_joined ctx c)) [
    | inl joined ↦ rw joined (rw h refl)
    | inr away ↦ rw away refl
  ]

  -- A connection that is not listed is sent nothing.
  raw_to_joined-unlisted :
      (f : Frame N) (cs : List Client) (ctx : RoomContext N S) (i : Text)
      → is_listed i cs ≡ false
      → (raw_to_joined f none cs ctx).cells i ≡ ctx.cells i
  unfolding raw_to_joined
  raw_to_joined-unlisted f [] ctx i h = refl
  raw_to_joined-unlisted f (c ∷ cs) ctx i h =
      let parts = or_false (i == c.connection_id) _ h in
      raw_to_joined-unlisted f cs (told f none c ctx) i parts.1 ∙ told_other f c ctx i parts.0

  told_self :
      (f : Frame N) (c : Client) (ctx : RoomContext N S)
      → is_joined ctx c ≡ true
      → (told f none c ctx).cells c.connection_id ≡ sent_one f (cell ctx c)
  unfolding modify is_except
  told_self f c ctx joined = rw joined (rw (text-reflexive c.connection_id) refl)

  -- A connection that is listed once and joined is sent the frame, and nothing else changes of it.
  raw_to_joined-listed :
      (f : Frame N) (cs : List Client) (ctx : RoomContext N S) (i : Text)
      → is_listed i cs ≡ true
      → UniqueConnections cs
      → is_joined_state (ctx.cells i).state ≡ true
      → (raw_to_joined f none cs ctx).cells i ≡ sent_one f (ctx.cells i)
  unfolding raw_to_joined
  raw_to_joined-listed f [] ctx i h u j = cc
  raw_to_joined-listed f (c ∷ cs) ctx i h u j = elim (Bool-cases (i == c.connection_id)) [
    | inl here ↦
        let e = text_sound i c.connection_id here in
        let at_c =
          raw_to_joined-unlisted f cs (told f none c ctx) c.connection_id u.0
          ∙ told_self f c ctx (subst (λ k. is_joined_state (ctx.cells k).state ≡ true) e j) in
        subst (λ k. (raw_to_joined f none (c ∷ cs) ctx).cells k ≡ sent_one f (ctx.cells k)) (sym e)
          at_c
    | inr away ↦
        let other = told_other f c ctx i away in
        raw_to_joined-listed f cs (told f none c ctx) i (ground (arith, away, h)) u.1
          (ap (λ (x : Cell N). is_joined_state x.state) other ∙ j)
        ∙ ap (sent_one f) other
  ]

  -- Every joined client holds what its room last told of the state, the snapshot of the slot.
  pub record IsSynced (ctx : RoomContext N S) (slot : StateSlot N S) : Type 0 where
    pub slotted : ctx.state_slot ≡ some slot
    pub unfiltered : ctx.view_filter ≡ none
    pub valid : IsValid slot.snapshot
    pub unique : UniqueConnections ctx.clients
    pub messages : AllMessages ctx.after_patch
    pub copies :
        (i : Text)
        → is_listed i ctx.clients ≡ true
        → is_joined_state (ctx.cells i).state ≡ true
        → copy_at ctx i ≡ some slot.snapshot
