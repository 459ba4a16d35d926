-- ===== src/Room/Actor/Deadlines.antt =====
-- Expiry and disposal: `handle_deadlines`, `next_deadline`, `should_auto_dispose`, `maybe_auto_save` and
-- `dispose` of crates/colyseus/src/actor.rs.
pub mod Capacity
use colyseus_rs.Base.{
  ℕ, ◌+◌, ◌-◌, ◌&&◌, ◌||◌, not, Bool, true, false, Option, none, some, Text, List, [], ◌∷◌, ◌++◌,
  text_eq, text, if◌then◌else◌, leb, min, any, retain, map,
}
use colyseus_rs.Base.Maps.{lookup, erase, is_some}
use colyseus_rs.Driver.{Numbers}
use colyseus_rs.Driver.Store.{remove}
use colyseus_rs.State.Slot.{Serde}
use colyseus_rs.Room.{
  Clocks, Client, ClientState, closed, RoomContext, ReservedSeat, ReconnectionEntry, TimerEntry,
  PersistenceConfig, room_removed,
}
use colyseus_rs.Room.Handle.{cell, set_state, leave}
use colyseus_rs.Room.Context.{is_pending, sync_listing, without}
use colyseus_rs.Room.Broadcast.{drop_view_snapshot}
use colyseus_rs.Room.Snapshot.{persist_now, delete_snapshot}
use colyseus_rs.Room.Actor.{RoomProgram, RoomActor, with_ctx, with_both}

abbrev pub is_over : ℕ → Option ℕ → Bool
is_over now none = false
is_over now (some t) = leb t now

unfoldable pub expired_tokens : ℕ → List (Text × ReconnectionEntry) → List Text
expired_tokens now [] = []
expired_tokens now ((token, e) ∷ m) =
    let rest = expired_tokens now m in if is_over now e.expires_at then token ∷ rest else rest

module _ {N : Type 0} where
  abbrev pub is_expired : ℕ → ReservedSeat N → Bool
  is_expired now s = is_pending s && leb s.expires_at now

  unfoldable pub expired_seats : ℕ → List (Text × ReservedSeat N) → List Text
  expired_seats now [] = []
  expired_seats now ((id, s) ∷ m) =
      let rest = expired_seats now m in if is_expired now s then id ∷ rest else rest

  unfoldable pub remove_seats :
      List Text → List (Text × ReservedSeat N) → List (Text × ReservedSeat N)
  remove_seats [] m = m
  remove_seats (id ∷ ids) m = remove_seats ids (erase id m)

  consider_seats : List (Text × ReservedSeat N) → List ℕ
  consider_seats [] = []
  consider_seats ((id, s) ∷ m) =
      let rest = consider_seats m in if is_pending s then s.expires_at ∷ rest else rest

consider_entries : List (Text × ReconnectionEntry) → List ℕ
consider_entries [] = []
consider_entries ((token, e) ∷ m) =
    let rest = consider_entries m in elim e.expires_at [ none ↦ rest | some t ↦ t ∷ rest ]

unfoldable pub earliest : List ℕ → Option ℕ
earliest [] = none
earliest (t ∷ ts) = elim (earliest ts) [ none ↦ some t | some u ↦ some (min t u) ]

abbrev is_open : ClientState → Bool
is_open closed = false
is_open _ = true

abbrev pub no_items : {A : Type 0} → List A → Bool
no_items [] = true
no_items (x ∷ xs) = false

has_passed : ℕ → Option ℕ → ℕ → Bool
has_passed now none interval = true
has_passed now (some t) interval = leb interval (now - t)

module _ {R N S : Type 0} where
  unfoldable pub next_deadline : RoomActor R N S → Option ℕ
  unfolding consider_seats consider_entries
  next_deadline a =
      let ctx = a.ctx in
      let unused =
        ctx.auto_dispose && not ctx.had_clients && no_items ctx.clients && not ctx.disposing in
      earliest (
        map (λ (t : TimerEntry). t.due) ctx.timers
        ++ consider_seats ctx.reserved_seats
        ++ consider_entries ctx.reconnections
        ++ (if unused then (a.created_at + ctx.seat_reservation_timeout) ∷ [] else []))

  unfoldable pub should_auto_dispose : ℕ → RoomActor R N S → Bool
  should_auto_dispose now a =
      let ctx = a.ctx in
      let active = any (λ c. is_open (cell ctx c).state) ctx.clients in
      let waiting = any (λ (e : Text × ReservedSeat N). is_pending e.1) ctx.reserved_seats in
      if not ctx.auto_dispose
        || ctx.disposing
        || active
        || not (no_items ctx.reconnections)
        || waiting
      then false
      else ctx.had_clients || leb ctx.seat_reservation_timeout (now - a.created_at)

  module _ (serde : Serde N S) where
    auto_save_with : Clocks → Option PersistenceConfig → RoomActor R N S → RoomActor R N S
    unfolding has_passed
    auto_save_with now none a = a
    auto_save_with now (some p) a =
        if not (is_some a.ctx.state_slot) && not (is_some a.ctx.internal)
        then a
        else (if has_passed now.instant a.last_auto_save p.auto_save_interval
            then record a { last_auto_save = some now.instant; ctx = persist_now serde now a.ctx }
            else a)

    unfoldable pub maybe_auto_save : Clocks → RoomActor R N S → RoomActor R N S
    unfolding auto_save_with
    maybe_auto_save now a = auto_save_with now a.ctx.persistence a

  module _ (num : Numbers N) (program : RoomProgram R N S) (now : ℕ) where
    abbrev pub expire_entry : Text → Option ReconnectionEntry → RoomActor R N S → RoomActor R N S
    expire_entry token none a = a
    expire_entry token (some e) a =
        let freed = record a.ctx {
          reconnections = erase token a.ctx.reconnections;
          reserved_seats = erase e.session_id a.ctx.reserved_seats;
        } in
        let h = program.on_leave a.room freed e.client 4003 in
        let shut = drop_view_snapshot e.client.session_id (set_state closed e.client h.1) in
        with_both a (
          h.0,
          sync_listing num (record shut { clients = without e.client.session_id shut.clients }),
        )

    unfoldable pub expire_tokens : List Text → RoomActor R N S → RoomActor R N S
    expire_tokens [] a = a
    expire_tokens (token ∷ tokens) a =
        expire_tokens tokens (expire_entry token (lookup token a.ctx.reconnections) a)

    unfoldable pub expire_seats : RoomActor R N S → RoomActor R N S
    expire_seats a =
        let ids = expired_seats now a.ctx.reserved_seats in
        if no_items ids
        then a
        else with_ctx a (
            sync_listing num
              (record a.ctx { reserved_seats = remove_seats ids a.ctx.reserved_seats }))

    unfoldable pub run_timers : List TimerEntry → RoomActor R N S → RoomActor R N S
    run_timers [] a = a
    run_timers (t ∷ ts) a = run_timers ts (with_both a (program.on_timer t.callback a.room a.ctx))

    unfoldable pub fire_timers : RoomActor R N S → RoomActor R N S
    fire_timers a = run_timers (retain (λ (t : TimerEntry). leb t.due now) a.ctx.timers) (
        with_ctx a
          (record a.ctx { timers = retain (λ (t : TimerEntry). not (leb t.due now)) a.ctx.timers }))

    unfoldable pub handle_deadlines : RoomActor R N S → RoomActor R N S
    handle_deadlines a =
        fire_timers (expire_seats (expire_tokens (expired_tokens now a.ctx.reconnections) a))

  module _ (num : Numbers N) (serde : Serde N S) (program : RoomProgram R N S) (now : Clocks) where
    unfoldable pub close_all : ℕ → List Client → RoomContext N S → RoomContext N S
    close_all code [] ctx = ctx
    close_all code (c ∷ cs) ctx =
        close_all code cs
          (leave (some code) (some (text "room disposed")) c (set_state closed c ctx))

    unfoldable pub last_save : Option PersistenceConfig → RoomContext N S → RoomContext N S
    last_save none ctx = ctx
    last_save (some p) ctx =
        if p.delete_on_dispose
        then delete_snapshot ctx
        else (if p.save_on_dispose then persist_now serde now ctx else ctx)

    -- What `on_dispose` finds.
    unfoldable pub emptied : ℕ → RoomContext N S → RoomContext N S
    unfolding last_save
    emptied code ctx =
        let begun = record ctx { disposing = true; request_dispose = none } in
        let saved = last_save begun.persistence begun in
        record (close_all code saved.clients (record saved { clients = [] })) {
          reserved_seats = [];
          reconnections = [];
        }

    unfoldable pub dispose : ℕ → RoomActor R N S → RoomActor R N S
    dispose code a =
        let h = program.on_dispose a.room (emptied code a.ctx) in
        if a.ctx.disposing
        then a
        else with_both a (
          h.0,
          record h.1 {
            driver = (remove num h.1.driver h.1.room_id).0;
            lobby = h.1.lobby ++ (room_removed h.1.room_id ∷ []);
          },
        )
