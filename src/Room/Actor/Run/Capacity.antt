-- ===== src/Room/Actor/Run/Capacity.antt =====
-- The turns of the loop keep the number of clients within the limit.
use colyseus_rs.Base.{
  ℕ, Bool, true, false, Option, none, some, Text, List, [], ◌∷◌, ◌++◌, ◌≡◌, refl, sym, subst, Eq,
  if◌then◌else◌,
}
use colyseus_rs.Base.Result.{Result, ok, err}
use colyseus_rs.Json.{Value}
use colyseus_rs.Driver.{Numbers}
use colyseus_rs.State.Edit.{StateEdit}
use colyseus_rs.State.Slot.{Serde, StateSlot, ApplyError}
use colyseus_rs.Room.{Clocks, Client, Cell, RoomContext, MessageType, room_data}
use colyseus_rs.Room.Handle.{
  cell, modify, leave, send, deliver, is_joined, is_waiting_state, raw_now,
}
use colyseus_rs.Room.Context.{get_client, lock, unlock, sync_listing}
use colyseus_rs.Room.Broadcast.{broadcast_patch}
use colyseus_rs.Room.Broadcast.Untouched.{roster-broadcast, roster-broadcast_patch}
use colyseus_rs.Room.Actor.{RoomProgram, RoomActor, with_ctx}
use colyseus_rs.Room.Actor.Deadlines.{should_auto_dispose, maybe_auto_save, dispose}
use colyseus_rs.Room.Actor.Deadlines.Capacity.{roster-maybe_auto_save, dispose-Fits}
use colyseus_rs.Room.Actor.Leave.Capacity.{on_client_message-Fits, on_disconnected-Fits}
use colyseus_rs.Room.Actor.Run.{
  RoomEvent, reserve_seat, check_reconnection, connect, message, disconnected, command,
  call_room_rpc, inspect, kick, set_locked, admin_message, dispose_event, edit_state, shutdown,
  Wake, event, simulate, patch, deadline, Response, Flow, continue, break, kick_client, send_to,
  admin_send, edit_done, edit_slot, handle_event, on_patch, wake, requested, finish, turn,
  tick_clock,
}
use colyseus_rs.Room.Capacity.{Fits, roster, roster-branch, roster-sync_listing}
use colyseus_rs.Room.Capacity.Careful.{IsCareful, branch-Fits}
use colyseus_rs.Room.Capacity.Reserve.{on_reserve_seat-Fits}
use colyseus_rs.Room.Capacity.Events.{on_connect-Fits, MayConnect}
use colyseus_rs.Room.Capacity.Endings.{handle_deadlines-Fits}

module _ {N S : Type 0} where
  roster-kick :
      (o : Option Client) (ctx : RoomContext N S) → roster (kick_client o ctx) ≡ roster ctx
  unfolding kick_client leave modify
  roster-kick none ctx = refl
  roster-kick (some c) ctx = refl

  roster-send_to :
      (o : Option Client) (t : MessageType) (v : Value N) (ctx : RoomContext N S)
      → roster (send_to o t v ctx) ≡ roster ctx
  unfolding send_to send deliver modify
  roster-send_to none t v ctx = refl
  roster-send_to (some c) t v ctx =
      let f = room_data t v in
      let queued = modify c (λ (y : Cell N). record y { pending = y.pending ++ (f ∷ []) }) ctx in
      roster-branch (is_joined ctx c) (raw_now f c ctx)
        (if is_waiting_state (cell ctx c).state then queued else ctx) refl
        (roster-branch (is_waiting_state (cell ctx c).state) queued ctx refl refl)

  roster-admin_send :
      (id : Option Text) (t : MessageType) (v : Value N) (ctx : RoomContext N S)
      → roster (admin_send id t v ctx) ≡ roster ctx
  unfolding admin_send
  roster-admin_send none t v ctx = roster-broadcast t v none false ctx
  roster-admin_send (some id) t v ctx = roster-send_to (get_client ctx id) t v ctx

  roster-edit_done :
      (slot : StateSlot N S) (r : Result ApplyError S) (ctx : RoomContext N S)
      → roster (edit_done slot r ctx).0 ≡ roster ctx
  unfolding edit_done
  roster-edit_done slot (err e) ctx = refl
  roster-edit_done slot (ok s) ctx = refl

  roster-edit_slot :
      (serde : Serde N S) (o : Option (StateSlot N S)) (path : List Text) (edit : StateEdit N)
      (ctx : RoomContext N S)
      → roster (edit_slot serde o path edit ctx).0 ≡ roster ctx
  unfolding edit_slot
  roster-edit_slot serde none path edit ctx = refl
  roster-edit_slot serde (some slot) path edit ctx = roster-edit_done slot _ ctx

module _ {N S : Type 0} (num : Numbers N) where
  roster-lock : (ctx : RoomContext N S) → roster (lock num ctx) ≡ roster ctx
  unfolding lock
  roster-lock ctx =
      let locked = record ctx { locked = true } in
      roster-branch ctx.locked ctx (sync_listing num locked) refl (roster-sync_listing num locked)

  roster-unlock : (ctx : RoomContext N S) → roster (unlock num ctx) ≡ roster ctx
  unfolding unlock
  roster-unlock ctx =
      let open_ctx = record ctx { locked = false } in
      roster-branch ctx.locked (sync_listing num open_ctx) ctx (roster-sync_listing num open_ctx)
        refl

-- A branch of two ends of a turn.
flow-Fits :
    {R N S : Type 0} (b : Bool) (x y : RoomActor R N S × Flow)
    → Fits (roster x.0.ctx)
    → Fits (roster y.0.ctx)
    → Fits (roster (if b then x else y).0.ctx)
flow-Fits true x y f g = f
flow-Fits false x y f g = g

module _ {R N S : Type 0} ⦃e : Eq N⦄ (num : Numbers N) (serde : Serde N S)
    (program : RoomProgram R N S) (now : Clocks) where
  -- What an event asks of the room that it meets: of a connection, `MayConnect`.
  abbrev pub MayHandle : RoomActor R N S → Wake N → Type 0
  MayHandle a (event (connect c token new_token)) = MayConnect num serde program a.ctx c token
  MayHandle a _ = Unit {0}

  module _ (careful : IsCareful program) where
    handle_event-Fits :
        (a : RoomActor R N S) (ev : RoomEvent N)
        → MayHandle a (event ev)
        → Fits (roster a.ctx)
        → Fits (roster (handle_event num serde program now a ev).0.0.ctx)
    unfolding handle_event
    handle_event-Fits a (reserve_seat id v auth) may f =
        on_reserve_seat-Fits num program now.instant a id v auth careful f
    handle_event-Fits a (check_reconnection token) may f = f
    handle_event-Fits a (connect c token new_token) may f =
        on_connect-Fits num serde program a c token new_token careful f may
    handle_event-Fits a (message c m) may f =
        on_client_message-Fits num program now.instant careful a c m f
    handle_event-Fits a (disconnected c code) may f =
        on_disconnected-Fits num program now.instant careful a c code f
    handle_event-Fits a (command i) may f = careful.command_keeps i a.room a.ctx f
    handle_event-Fits a (call_room_rpc i) may f = careful.rpc_keeps i a.room a.ctx f
    handle_event-Fits a inspect may f = f
    handle_event-Fits a (kick id) may f =
        subst Fits (sym (roster-kick (get_client a.ctx id) a.ctx)) f
    handle_event-Fits a (set_locked true) may f = subst Fits (sym (roster-lock num a.ctx)) f
    handle_event-Fits a (set_locked false) may f = subst Fits (sym (roster-unlock num a.ctx)) f
    handle_event-Fits a (admin_message id t v) may f =
        subst Fits (sym (roster-admin_send id t v a.ctx)) f
    handle_event-Fits a (dispose_event code) may f =
        dispose-Fits num serde program now code a careful f
    handle_event-Fits a (edit_state path edit) may f =
        subst Fits (sym (roster-edit_slot serde a.ctx.state_slot path edit a.ctx)) f
    handle_event-Fits a shutdown may f = dispose-Fits num serde program now 4001 a careful f

    on_patch-Fits :
        (a : RoomActor R N S) (sim : Option ℕ)
        → Fits (roster a.ctx)
        → Fits (roster (on_patch num serde program now a sim).ctx)
    unfolding on_patch
    on_patch-Fits a sim f =
        let b : RoomActor R N S = elim sim [
          | none ↦ tick_clock num serde program now a
          | some d ↦ a
        ] in
        let p = broadcast_patch serde b.ctx in
        let c = with_ctx b p.0 in
        let begun : Fits (roster b.ctx) = ticked sim in
        let sent = subst Fits (sym (roster-broadcast_patch serde b.ctx)) begun in
        branch-Fits p.1 (maybe_auto_save serde now c) c
          (subst Fits (sym (roster-maybe_auto_save serde now c)) sent) sent
      where
        ticked :
            (o : Option ℕ)
            → Fits (
                roster
                  (elim o as (λ _. RoomActor R N S) [
                    | none ↦ tick_clock num serde program now a
                    | some d ↦ a
                  ]).ctx)
        ticked none = f
        ticked (some d) = f

    wake-Fits :
        (a : RoomActor R N S) (w : Wake N)
        → MayHandle a w
        → Fits (roster a.ctx)
        → Fits (roster (wake num serde program now a w).0.0.ctx)
    unfolding wake
    wake-Fits a (event ev) may f = handle_event-Fits a ev may f
    wake-Fits a (simulate delta) may f =
        let b = tick_clock num serde program now a in careful.tick_keeps b.room b.ctx delta f
    wake-Fits a patch may f = on_patch-Fits a a.ctx.sim_interval f
    wake-Fits a deadline may f = handle_deadlines-Fits num program now.instant careful a f

    requested-Fits :
        (a : RoomActor R N S) (o : Option ℕ)
        → Fits (roster a.ctx)
        → Fits (roster (requested num serde program now a o).0.ctx)
    requested-Fits a (some code) f =
        dispose-Fits num serde program now code
          (with_ctx a (record a.ctx { request_dispose = none })) careful f
    requested-Fits a none f =
        flow-Fits (should_auto_dispose now.instant a) (dispose num serde program now 4000 a, break)
          (a, continue) (dispose-Fits num serde program now 4000 a careful f) f

    finish-Fits :
        (r : (RoomActor R N S × Response N) × Flow)
        → Fits (roster r.0.0.ctx)
        → Fits (roster (finish num serde program now r).0.ctx)
    finish-Fits (r, break) f = f
    finish-Fits (r, continue) f = requested-Fits r.0 r.0.ctx.request_dispose f

    pub turn-Fits :
        (a : RoomActor R N S) (w : Wake N)
        → MayHandle a w
        → Fits (roster a.ctx)
        → Fits (roster (turn num serde program now a w).0.ctx)
    unfolding turn
    turn-Fits a w may f = finish-Fits (wake num serde program now a w) (wake-Fits a w may f)

module _ {R N S : Type 0} ⦃e : Eq N⦄ (num : Numbers N) (serde : Serde N S)
    (program : RoomProgram R N S) where
  -- The states that a room comes to by turns of its loop, each with its own reading of the clocks.
  pub data Life (start : RoomActor R N S) : RoomActor R N S → Type 0 where
    begin : Life start start
    next :
        {a : RoomActor R N S} (now : Clocks) (w : Wake N)
        → Life start a
        → MayHandle num serde program now a w
        → Life start (turn num serde program now a w).0

  -- In its whole life a room that starts within its limit on clients and pending seats stays within it,
  -- whatever events, ticks and deadlines come in whatever order, where the handlers keep to the limit
  -- and each connection is by a token of a listed session or to a seat that waits for no reconnection.
  pub Life-Fits :
      {start a : RoomActor R N S}
      → IsCareful program
      → Fits (roster start.ctx)
      → Life start a
      → Fits (roster a.ctx)
  Life-Fits careful f begin = f
  Life-Fits careful f (next now w life may) =
      turn-Fits num serde program now careful _ w may (Life-Fits careful f life)
